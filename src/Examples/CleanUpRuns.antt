-- ===== src/Examples/CleanUpRuns.antt =====
-- The clean-up of a tracker with two instances, of which docker lists one.
use logyard_apps.Prelude.{ℕ, ◌≡◌, refl, [], ◌∷◌, ◌++◌}
use logyard_apps.Prelude.Text.{codes, ◌==◌}
use logyard_apps.Prelude.Int.{pos}
use logyard_apps.Prelude.Dict.{get, put, delete}
use logyard_apps.Prelude.Run.{ok, done}
use logyard_apps.Storage.{Tailer}
use logyard_apps.DockerEvents.{Got, response, Body, get_live_docker_containers}
use logyard_apps.Tracker.{Tracker, clean_up, get_invalid_instances}
use logyard_apps.Tracker.Spec.{Shows, own_view, own_view-Shows}
use logyard_apps.Listener.{tracker_clean_up}
use logyard_apps.Listener.CleanUp.{kept_by, tracker_clean_up-Shows}
use logyard_apps.Examples.LifeRuns.{key, beside}

abbrev replies : ℕ → Got Body
replies n = response (ok (ok (record { id = key ++ codes "cdef" } ∷ [])))

abbrev kept : Tracker Tailer
kept = record beside.tracker {
  cached = record { instances = (key, (codes "/r/y", record { v = pos 8 }) ∷ []) ∷ [] };
}

cleaned : tracker_clean_up replies beside.tracker ≡ done kept
unfolding tracker_clean_up clean_up get_live_docker_containers get put delete ◌==◌
    get_invalid_instances
cleaned = refl

tracker_clean_up-Shows_example : Shows kept (kept_by replies (own_view beside.tracker))
unfolding ◌==◌
tracker_clean_up-Shows_example =
    tracker_clean_up-Shows replies beside.tracker kept (own_view beside.tracker) key refl
      (own_view-Shows beside.tracker) cleaned
