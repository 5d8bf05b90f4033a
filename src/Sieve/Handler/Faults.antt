-- ===== src/Sieve/Handler/Faults.antt =====
-- Where a handler stops the process.
use logyard_apps.Prelude.{◌≡◌, ◌≢◌, ◌↔◌, refl, List, [], ◌∷◌, arith, length}
use logyard_apps.Prelude.Text.{Text}
use logyard_apps.Prelude.Run.{Result, done}
use logyard_apps.Sieve.Engines.{Engines}
use logyard_apps.Sieve.Event.{Event}
use logyard_apps.Sieve.Handler.{json, handle_event, describe_json}

module _ {Re Tm Info : Type 0} (e : Engines Re Tm Info) where
  json_total_to :
      (t : Tm) (severity : Text) (results : List Text) (event : Event Info)
      → length results ≢ 1
      → (x : Result (Event Info)) × (handle_event e (json t severity) results event ≡ done x)
  unfolding handle_event
  json_total_to t severity [] event h = (_, refl)
  json_total_to t severity (a ∷ []) event h = absurd (h refl)
  json_total_to t severity (a ∷ b ∷ rest) event h =
      (describe_json e t severity event (e.unmarshal b event.info), ground arith)

  json_total_from :
      (t : Tm) (severity : Text) (results : List Text) (event : Event Info)
      → (x : Result (Event Info)) × (handle_event e (json t severity) results event ≡ done x)
      → length results ≢ 1
  unfolding handle_event
  json_total_from t severity [] event (x, y) = λ h. omega arith
  json_total_from t severity (a ∷ []) event (x, y) = λ h. cc
  json_total_from t severity (a ∷ b ∷ rest) event (x, y) = λ h. omega arith

  -- The json handler returns exactly if the match does not consist of the whole match alone: an
  -- expression with no group makes it read past the end, since it tests for one result and reads the
  -- second.
  pub json_total :
      (t : Tm) (severity : Text) (results : List Text) (event : Event Info)
      → ((x : Result (Event Info)) × (handle_event e (json t severity) results event ≡ done x))
        ↔ (length results ≢ 1)
  json_total t severity results event =
      (json_total_from t severity results event, json_total_to t severity results event)
