-- ===== src/Endpoint/Server/History.antt =====
-- The recent lines that a client gets.
use logyard_apps.Prelude.{
  append-nil, append_assoc, ◌≡◌, sym, ◌∙◌, ap, inl, inr, Bool-cases, none, Option-cases, List, [],
  ◌∷◌, ◌++◌, map, arith, if◌then◌else◌,
}
use logyard_apps.Prelude.Text.{Text}
use logyard_apps.Prelude.Int.{pos, ltb_ℤ}
use logyard_apps.Prelude.Run.{ok}
use logyard_apps.Endpoint.Arguments.{Arguments}
use logyard_apps.Endpoint.Stream.{Websocket, WsStreamData, value_frame, send}
use logyard_apps.Endpoint.Stream.Delivery.{IsLogged}
use logyard_apps.Endpoint.Server.{
  Controller, recent_logs, send_lines, send_recent, send_logs, authorize,
}
use logyard_apps.Endpoint.Server.Access.{asked}

-- The lines that the client asked for: none where it gave no number.
abbrev pub history : Arguments → List Text → List Text
history args lines = if ltb_ℤ (pos 0) args.num then lines else []

module _ {C : Type 0} (ws : Websocket C) (cc : Controller) (sent : C → List WsStreamData)
    (log : IsLogged ws sent) where
  send_lines-sent :
      (lines : List Text) (c : C)
      → (send_lines ws cc lines c).0 ≡ none
      → sent (send_lines ws cc lines c).1 ≡ sent c ++ map value_frame lines
  unfolding send_lines send
  send_lines-sent [] c h = sym (append-nil (sent c))
  send_lines-sent (text ∷ rest) c h = elim (Option-cases (ws.write_json (value_frame text) c).0) [
    | inl well ↦
        let d = value_frame text in
        let c' = (ws.write_json d c).1 in
        let ended : (send_lines ws cc rest c').0 ≡ none = ground (arith, well, h) in
        let there =
          send_lines-sent rest c' ended
          ∙ ap (λ l. l ++ map value_frame rest) (log.written d c well) in
        rw (well, send_lines, send) (there ∙ append_assoc (sent c) (d ∷ []) (map value_frame rest))
    | inr (e, bad) ↦ ground (arith, bad, h)
  ]

  -- Over a connection that logs what is written: where the controller grants the access and sending
  -- ends without an error, the client has got exactly the lines it asked for, in the controller's
  -- order, and none where it gave no number.
  pub send_recent-sent :
      (args : Arguments) (lines : List Text) (c : C)
      → recent_logs cc args.token args.guid (asked args) ≡ ok lines
      → (send_recent ws cc args c).0 ≡ none
      → sent (send_recent ws cc args c).1 ≡ sent c ++ map value_frame (history args lines)
  unfolding send_recent send_logs authorize
  send_recent-sent args lines c granted h = elim (Bool-cases (ltb_ℤ (pos 0) args.num)) [
    | inl more ↦ ground (arith, more, granted, h, send_lines-sent lines c)
    | inr only ↦ ground (arith, only, granted, h, append-nil (sent c))
  ]
