-- ===== src/Endpoint/Server/Access.antt =====
-- What a client that may not read an application gets, and which drains a session touches.
use logyard_apps.Prelude.{
  ◌≡◌, ◌≢◌, refl, ◌∙◌, sym, subst, inl, inr, false, Option, none, some, List, [], ◌∷◌, arith,
  Option-cases, if◌then◌else◌,
}
use logyard_apps.Prelude.Text.{Text, ◌==◌}
use logyard_apps.Prelude.Int.{ℤ, pos, ltb_ℤ}
use logyard_apps.Prelude.Dict.{get}
use logyard_apps.Prelude.Run.{Result-cases, Error, Result, ok, err}
use logyard_apps.Endpoint.Arguments.{Arguments, Request, parse_arguments}
use logyard_apps.Endpoint.Arguments.Valid.{parse_arguments-IsValid}
use logyard_apps.Endpoint.Stream.{
  Websocket, Wake, line, channel_closed, second_passed, Forwarding, finished, stream_error, waiting,
  fatalf, forward,
}
use logyard_apps.Endpoint.Drain.{Logyard, AppLogDrain, drain_name_of, new_app_log_drain, start}
use logyard_apps.Endpoint.Drain.Names.{
  new_app_log_drain-name, IsStore, start_elsewhere, stop_elsewhere,
}
use logyard_apps.Endpoint.Server.{
  Controller, recent_logs, send_recent, tail_handler, from_nil, tail_with, after_recent, with_drain,
  after_start, after_forward,
}

-- The number of lines that the controller is asked for: one where only the access is checked.
abbrev pub asked : Arguments → ℤ
asked args = if ltb_ℤ (pos 0) args.num then args.num else pos 1

-- The request is refused: its arguments are bad, or the controller refuses its token.
pub data IsRefused (cc : Controller) (r : Request) : Type 0 where
  bad_arguments : (e : Error) → parse_arguments r ≡ err e → IsRefused cc r
  no_access :
      (args : Arguments) (e : Error)
      → parse_arguments r ≡ ok args
      → recent_logs cc args.token args.guid (asked args) ≡ err e
      → IsRefused cc r

module _ {C : Type 0} (ws : Websocket C) (cc : Controller) where
  send_recent_refused :
      (args : Arguments) (e : Error) (c : C)
      → recent_logs cc args.token args.guid (asked args) ≡ err e
      → send_recent ws cc args c ≡ (some e, c)
  unfolding send_recent
  send_recent_refused args e c h = ground (arith, h)

  -- A nil channel never gives a line and is never closed: what `Forward` waits for on it is a
  -- failing ping.
  forward-from_nil : (wakes : List Wake) (c : C) → (forward ws (from_nil wakes) c).0 ≢ finished
  unfolding forward from_nil
  forward-from_nil [] c p = ground (arith, p)
  forward-from_nil (line text ∷ rest) c p = forward-from_nil rest c p
  forward-from_nil (channel_closed ∷ rest) c p = forward-from_nil rest c p
  forward-from_nil (second_passed ∷ rest) c p = elim (Option-cases (ws.ping c).0) [
    | inl well ↦ forward-from_nil rest (ws.ping c).1 (ground (arith, well, p))
    | inr (e, bad) ↦ ground (arith, bad, p)
  ]

  module _ {S V : Type 0} (ly : Logyard S V) where
    -- A refused request gets one error and its connection closed: no line is sent and no drain is
    -- touched.
    pub tail_handler_refused :
        (r : Request) (wakes : List Wake) (c : C) (s : S)
        → IsRefused cc r
        → (message : Text) × (tail_handler ws cc ly r wakes c s ≡ (fatalf ws message c, s))
    unfolding tail_handler tail_with after_recent
    tail_handler_refused r wakes c s (bad_arguments e h) = rw h (_, refl)
    tail_handler_refused r wakes c s (no_access args e h refused) =
        rw (h, send_recent_refused args e c refused) (_, refl)

    module _ (store : IsStore ly) where
      after_forward_elsewhere :
          (d : AppLogDrain V) (how : Forwarding) (c : C) (s : S) (m : Text)
          → (d.drain_name == m) ≡ false
          → get (ly.drains (after_forward ws cc ly d (how, c) s).1) m ≡ get (ly.drains s) m
      unfolding after_forward
      after_forward_elsewhere d finished c s m other = refl
      after_forward_elsewhere d waiting c s m other = refl
      after_forward_elsewhere d (stream_error e) c s m other = stop_elsewhere ly store d e s m other

      after_start_elsewhere :
          (d : AppLogDrain V) (wakes : List Wake) (o : Option Error) (c : C) (s : S) (m : Text)
          → (d.drain_name == m) ≡ false
          → get (ly.drains (after_start ws cc ly d wakes (o, s) c).1) m ≡ get (ly.drains s) m
      unfolding after_start
      after_start_elsewhere d wakes none c s m other = after_forward_elsewhere d _ _ s m other
      after_start_elsewhere d wakes (some e) c s m other = after_forward_elsewhere d _ _ s m other

      with_drain_elsewhere :
          (d : Result (AppLogDrain V)) (wakes : List Wake) (c : C) (s : S) (m : Text)
          → ((d' : AppLogDrain V) → d ≡ ok d' → (d'.drain_name == m) ≡ false)
          → get (ly.drains (with_drain ws cc ly d wakes c s).1) m ≡ get (ly.drains s) m
      unfolding with_drain
      with_drain_elsewhere (err e) wakes c s m other = refl
      with_drain_elsewhere (ok d) wakes c s m other =
          after_start_elsewhere d wakes (start ly d s).0 c (start ly d s).1 m (other d refl)
          ∙ start_elsewhere ly store d s m (other d refl)

      after_recent_elsewhere :
          (guid : Text) (wakes : List Wake) (o : Option Error) (c : C) (s : S) (m : Text)
          → (drain_name_of guid == m) ≡ false
          → get (ly.drains (after_recent ws cc ly guid wakes (o, c) s).1) m ≡ get (ly.drains s) m
      unfolding after_recent
      after_recent_elsewhere guid wakes (some e) c s m other = refl
      after_recent_elsewhere guid wakes none c s m other =
          with_drain_elsewhere (new_app_log_drain ly guid) wakes c s m
            (λ d made. subst (λ n. (n == m) ≡ false) (new_app_log_drain-name ly guid d made) other)

      -- Over a store of drains that keeps its contract, a tail session changes no drain but the one
      -- that is named after its application.
      pub tail_handler_elsewhere :
          (r : Request) (wakes : List Wake) (c : C) (s : S) (m : Text)
          → (drain_name_of r.guid == m) ≡ false
          → get (ly.drains (tail_handler ws cc ly r wakes c s).1) m ≡ get (ly.drains s) m
      unfolding tail_handler tail_with after_recent
      tail_handler_elsewhere r wakes c s m other = elim (Result-cases (parse_arguments r)) [
        | inl (args, accepted) ↦
            let same = (parse_arguments-IsValid r args accepted).guid in
            let to = send_recent ws cc args c in
            let name = subst (λ g. (drain_name_of g == m) ≡ false) (sym same) other in
            rw accepted (after_recent_elsewhere args.guid wakes to.0 to.1 s m name)
        | inr (e, bad) ↦ rw bad refl
      ]
