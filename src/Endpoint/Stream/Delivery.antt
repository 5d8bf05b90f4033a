-- ===== src/Endpoint/Stream/Delivery.antt =====
-- What a client has received, by a log of its connection.
use logyard_apps.Prelude.{
  append-nil, append_assoc, ◌≡◌, refl, sym, ◌∙◌, ap, ◌⊎◌, inl, inr, none, some, Option-cases, List,
  [], ◌∷◌, ◌++◌, map,
}
use logyard_apps.Prelude.Text.{Text}
use logyard_apps.Prelude.Run.{Error}
use logyard_apps.Endpoint.Stream.{
  WsStreamData, Websocket, Wake, line, channel_closed, second_passed, Forwarding, stream_error,
  value_frame, send, forward,
}

-- `sent` is the log of the frames that were written without an error.
pub record IsLogged {C : Type 0} (ws : Websocket C) (sent : C → List WsStreamData) : Type 0 where
  pub written :
      (d : WsStreamData) (c : C)
      → (ws.write_json d c).0 ≡ none
      → sent (ws.write_json d c).1 ≡ sent c ++ d ∷ []
  pub refused :
      (d : WsStreamData) (c : C) (e : Error)
      → (ws.write_json d c).0 ≡ some e
      → sent (ws.write_json d c).1 ≡ sent c
  pub pinged : (c : C) → sent (ws.ping c).1 ≡ sent c
  pub shut : (c : C) → sent (ws.close c) ≡ sent c

-- The lines of the channel before it was closed.
abbrev pub lines_of : List Wake → List Text
lines_of [] = []
lines_of (line text ∷ rest) = text ∷ lines_of rest
lines_of (channel_closed ∷ rest) = []
lines_of (second_passed ∷ rest) = lines_of rest

-- The client received `got`; `lost` is empty unless the stream failed.
pub record IsDelivered (lines got : List Text) (how : Forwarding) : Type 0 where
  pub lost : List Text
  pub in_order : got ++ lost ≡ lines
  pub complete : (lost ≡ []) ⊎ ((e : Error) × (how ≡ stream_error e))

one_more :
    (text : Text) (lines got : List Text) (how : Forwarding)
    → IsDelivered lines got how
    → IsDelivered (text ∷ lines) (text ∷ got) how
one_more text lines got how h = record {
  lost = h.lost;
  in_order = ap (◌∷◌ text) h.in_order;
  complete = h.complete;
}

module _ {C : Type 0} (ws : Websocket C) (sent : C → List WsStreamData)
    (log : IsLogged ws sent) where
  -- Over a connection that logs what is written, Forward sends the lines of the channel in order,
  -- each once: the client receives a prefix of them, and all of them unless the stream failed.
  pub forward-IsDelivered :
      (wakes : List Wake) (c : C)
      → (got : List Text) × (sent (forward ws wakes c).1 ≡ sent c ++ map value_frame got)
        × IsDelivered (lines_of wakes) got (forward ws wakes c).0
  unfolding forward send
  forward-IsDelivered [] c =
      ([], sym (append-nil (sent c)), record { lost = []; in_order = refl; complete = inl refl })
  forward-IsDelivered (channel_closed ∷ rest) c =
      ([], sym (append-nil (sent c)), record { lost = []; in_order = refl; complete = inl refl })
  forward-IsDelivered (line text ∷ rest) c =
      elim (Option-cases (ws.write_json (value_frame text) c).0) [
        | inl well ↦
            let d = value_frame text in
            let (got, grown, whole) = forward-IsDelivered rest (ws.write_json d c).1 in
            let longer = log.written d c well in
            let there = grown ∙ ap (λ l. l ++ map value_frame got) longer in
            let same = append_assoc (sent c) (d ∷ []) (map value_frame got) in
            rw (well, forward, send) (text ∷ got, there ∙ same, one_more text _ got _ whole)
        | inr (e, bad) ↦
            let kept = log.refused (value_frame text) c e bad in
            rw (bad, forward, send)
              (
                [],
                kept ∙ sym (append-nil (sent c)),
                record { lost = text ∷ lines_of rest; in_order = refl; complete = inr (_, refl) },
              )
      ]
  forward-IsDelivered (second_passed ∷ rest) c = elim (Option-cases (ws.ping c).0) [
    | inl well ↦
        let (got, grown, whole) = forward-IsDelivered rest (ws.ping c).1 in
        rw (well, forward, send)
          (got, grown ∙ ap (λ l. l ++ map value_frame got) (log.pinged c), whole)
    | inr (e, bad) ↦
        rw (bad, forward, send)
          (
            [],
            log.pinged c ∙ sym (append-nil (sent c)),
            record { lost = lines_of rest; in_order = refl; complete = inr (_, refl) },
          )
  ]
