-- ===== src/DockerEvents/Send.antt =====
-- docker_events/cmd/docker_events/main.go: each docker event becomes an event of Logyard.
use logyard_apps.Prelude.{◌≡◌, refl, sym, List, [], ◌∷◌, ◌++◌, map, arith, inl, inr}
use logyard_apps.Prelude.Text.{Text, codes}
use logyard_apps.Prelude.Run.{
  Result, Result-cases, ok, Run, done, ◌>>=◌, >>=-eq-done, done-injective,
}
use logyard_apps.Common.{Clock, new_message_common}
use logyard_apps.Sieve.Event.{Published, must_publish}
use logyard_apps.Sieve.Event
use logyard_apps.DockerEvents

module _ {Info Time : Type 0} (clock : Clock Time) (nil_info : Info) (node_id : Text)
    (marshal : Event.Event Info → Result Text) where
  abbrev pub text_of : DockerEvents.Event → Text
  text_of event =
      event.status
      ++ codes " action for container "
      ++ event.id
      ++ codes " (image: "
      ++ event.from
      ++ codes ")"

  abbrev pub event_of : DockerEvents.Event → Event.Event Info
  event_of event = record {
    type = event.status;
    desc = text_of event;
    severity = codes "INFO";
    info = nil_info;
    process = codes "docker_events";
    common = new_message_common clock (text_of event) (clock.from_unix event.time) node_id;
  }

  unfoldable pub send_to_logyard : DockerEvents.Event → Published → Run Published
  send_to_logyard event out = must_publish marshal (event_of event) out

  -- The loop of `main`, over the events of the stream.
  unfoldable pub send_all : List DockerEvents.Event → Published → Run Published
  send_all [] out = done out
  send_all (event ∷ rest) out = do out' ← send_to_logyard event out; send_all rest out'

  -- The log of what was published, with each text under the key of its event, the oldest first.
  abbrev pub push_events : List DockerEvents.Event → List Text → Published → Published
  push_events [] texts out = out
  push_events (event ∷ rest) [] out = out
  push_events (event ∷ rest) (text ∷ texts) out =
      push_events rest texts ((codes "event." ++ event.status, text) ∷ out)

  send_to_logyard_lem :
      (event : DockerEvents.Event) (out out' : Published)
      → send_to_logyard event out ≡ done out'
      → (text : Text) × (marshal (event_of event) ≡ ok text)
        × (out' ≡ (codes "event." ++ event.status, text) ∷ out)
  unfolding send_to_logyard must_publish
  send_to_logyard_lem event out out' h = elim (Result-cases (marshal (event_of event))) [
    | inl (text, good) ↦ (text, good, ground (arith, good, h))
    | inr (e, bad) ↦ absurd (ground (arith, bad, h))
  ]

  -- A run over a list of docker events that did not stop the process has published one event for
  -- each, in order, under the key of its status.
  send_all_lem :
      (events : List DockerEvents.Event) (out out' : Published)
      → send_all events out ≡ done out'
      → (texts : List Text) × (map (λ event. marshal (event_of event)) events ≡ map ok texts)
        × (out' ≡ push_events events texts out)
  unfolding send_all
  send_all_lem [] out out' h = ([], refl, sym (done-injective h))
  send_all_lem (event ∷ rest) out out' h =
      let (mid, first, later) = >>=-eq-done (send_to_logyard event out) _ h in
      let (text, same, put) = send_to_logyard_lem event out mid first in
      let (texts, each, all) = send_all_lem rest mid out' later in
      (text ∷ texts, rw (same, each) refl, rw (← put) all)
