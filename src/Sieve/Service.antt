-- ===== src/Sieve/Service.antt =====
-- sieve/cmd/logyard_sieve/main.go: the loop over the records of the system log stream, and
-- systail/message.go, their type.
pub mod Main
use logyard_apps.Prelude.{sym, ◌≡◌, ◌⊎◌, inl, inr, List, [], ◌∷◌, ◌++◌, arith}
use logyard_apps.Prelude.Text.{Text, codes}
use logyard_apps.Prelude.Run.{
  Result, ok, err, Run, done, ◌>>=◌, >>=-eq-done, done-injective, Result-cases,
}
use logyard_apps.Common.{Clock, MessageCommon, new_message_common}
use logyard_apps.Sieve.Engines.{Engines}
use logyard_apps.Sieve.Event.{Event, Published, must_publish}
use logyard_apps.Sieve.Parser.{Parser, Parsed, found, failed, nothing, parse}

-- systail.Message
pub record Message : Type 0 where
  pub name : Text
  pub common : MessageCommon

module _ {Re Tm Info Time : Type 0} (e : Engines Re Tm Info) (clock : Clock Time)
    (unmarshal : Text → Result Message) (marshal : Event Info → Result Text)
    (parser : Parser Re Tm) where
  -- The event as it is published.
  abbrev pub stamped : Message → Event Info → Event Info
  stamped message event = record event {
    common =
        new_message_common clock event.desc (clock.from_unix message.common.unix_time)
          message.common.node_id;
  }

  publish_parsed : Message → Parsed Info → Published → Run Published
  publish_parsed message (failed x) out = done out
  publish_parsed message nothing out = done out
  publish_parsed message (found event) out = must_publish marshal (stamped message event) out

  handle_record : Result Message → Published → Run Published
  handle_record (err x) out = done out
  handle_record (ok message) out = do
    parsed ← parse e parser message.name message.common.text
    publish_parsed message parsed out

  -- One round of the loop, for the value of one message of the stream.
  unfoldable pub on_message : Text → Published → Run Published
  unfolding publish_parsed handle_record
  on_message value out = handle_record (unmarshal value) out

  unfoldable pub watch : List Text → Published → Run Published
  watch [] out = done out
  watch (value ∷ rest) out = do out' ← on_message value out; watch rest out'

  pub on_message-found :
      (value : Text) (message : Message) (event : Event Info) (text : Text) (out : Published)
      → unmarshal value ≡ ok message
      → parse e parser message.name message.common.text ≡ done (found event)
      → marshal (stamped message event) ≡ ok text
      → on_message value out ≡ done ((codes "event." ++ event.type, text) ∷ out)
  unfolding on_message must_publish
  on_message-found value message event text out decoded parsed encoded =
      rw (decoded, handle_record) (rw parsed (ground (arith, encoded)))

  -- A record in which `Parse` finds an event.
  abbrev pub Finds : Text → Message → Event Info → Type 0
  Finds value message event =
      (unmarshal value ≡ ok message)
      × (parse e parser message.name message.common.text ≡ done (found event))

  -- A message that does not stop the process is published as one event, under the key of the event's
  -- type and stamped with the record's time and node, if it decodes to a record in which `Parse`
  -- finds that event; if it does not, nothing is published.
  pub on_message-publishes :
      (value : Text) (out out' : Published)
      → on_message value out ≡ done out'
      → ((out' ≡ out) × ¬ ((message : Message) × (event : Event Info) × Finds value message event))
        ⊎ ((message : Message) × (event : Event Info) × (text : Text) × Finds value message event
            × (marshal (stamped message event) ≡ ok text)
            × (out' ≡ (codes "event." ++ event.type, text) ∷ out))
  unfolding on_message must_publish
  on_message-publishes value out out' x = elim (Result-cases (unmarshal value)) [
    | inr (y, u) ↦ inl (ground arith, λ (m, event, (w, p)). ground (arith, u, w))
    | inl (message, u) ↦
        let (parsed, first, more) =
          >>=-eq-done (parse e parser message.name message.common.text) _
            (rw (u, handle_record) at x) in
        published message parsed u first more
  ]
    where
      published :
          (message : Message) (parsed : Parsed Info)
          → unmarshal value ≡ ok message
          → parse e parser message.name message.common.text ≡ done parsed
          → publish_parsed message parsed out ≡ done out'
          → ((out' ≡ out)
              × ¬ ((message : Message) × (event : Event Info) × Finds value message event))
            ⊎ ((message : Message) × (event : Event Info) × (text : Text) × Finds value message
                  event
                × (marshal (stamped message event) ≡ ok text)
                × (out' ≡ (codes "event." ++ event.type, text) ∷ out))
      published message (failed y) u p h =
          inl (sym (done-injective h), λ (m, event, (w, q)). ground (arith, u, p, w, q))
      published message nothing u p h =
          inl (sym (done-injective h), λ (m, event, (w, q)). ground (arith, u, p, w, q))
      published message (found event) u p h =
          elim (Result-cases (marshal (stamped message event))) [
            | inr (y, w) ↦ absurd (ground arith)
            | inl (text, w) ↦ inr (message, event, text, (u, p), w, ground arith)
          ]
