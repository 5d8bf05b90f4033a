-- ===== src/Examples/ListenerRuns.antt =====
-- Runs of the docker listener and of the loops over the docker daemon.
use logyard_apps.Prelude.{ℕ, ◌≡◌, refl, false, none, List, [], ◌∷◌, arith, nat_eq, if◌then◌else◌}
use logyard_apps.Prelude.Text.{Text, codes, ◌==◌}
use logyard_apps.Prelude.Int.{pos}
use logyard_apps.Prelude.Dict.{get, put, delete}
use logyard_apps.Prelude.Run.{done, ok}
use logyard_apps.DockerEvents.{
  Event, Got, response, failure, Body, short_id, get_docker_events, get_live_docker_containers,
}
use logyard_apps.Listener.{
  DockerListener, Action, wait, event, new_listener, block_until_container_stops, on_event, act,
  act_all, is_released, elem,
}
use logyard_apps.Listener.Waiting.{block-IsSound, new_listener-IsSound, IsSound, act_all_total}
use logyard_apps.Listener.Release.{released_iff_stopped, second_waiter_stuck, any_stops}

program : Unit {0}
unfolding act_all act on_event block_until_container_stops elem get put delete short_id ◌==◌
    get_docker_events get_live_docker_containers
program = tt

abbrev long_id : Text
long_id = codes "0123456789abcdef"

abbrev key : Text
key = codes "0123456789ab"

abbrev die : Event
die = record { id = long_id; status = codes "die"; from = []; time = pos 0 }

abbrev actions : List Action
actions = wait long_id ∷ wait long_id ∷ event die ∷ event die ∷ []

act_all_total_example : (l : DockerListener) × (act_all actions new_listener ≡ done l) × IsSound l
act_all_total_example = act_all_total actions (omega arith)

abbrev one_waits : DockerListener
one_waits = record { waiters = (key, 0) ∷ []; closed = []; fresh = 1 }

abbrev two_wait : DockerListener
two_wait = record one_waits { fresh = 2 }

abbrev woken_one : DockerListener
woken_one = record { waiters = []; closed = 0 ∷ []; fresh = 2 }

released_iff_stopped_example :
    is_released woken_one 0 ≡ any_stops key (wait long_id ∷ event die ∷ [])
unfolding program
released_iff_stopped_example =
    released_iff_stopped long_id 0 (wait long_id ∷ event die ∷ []) new_listener one_waits woken_one
      new_listener-IsSound refl refl refl

one_waits-IsSound : IsSound one_waits
unfolding program
one_waits-IsSound = block-IsSound long_id new_listener one_waits 0 new_listener-IsSound refl

second_waiter_stuck_example : is_released woken_one 1 ≡ false
unfolding program
second_waiter_stuck_example =
    second_waiter_stuck long_id 1 0 (event die ∷ []) one_waits two_wait woken_one one_waits-IsSound
      refl refl refl

abbrev third_time : ℕ → Got Text
third_time n = if nat_eq n 2 then response (codes "stream") else failure none (codes "refused")

abbrev two_lists : ℕ → Got Body
two_lists n =
    if nat_eq n 0 then response (ok (ok (record { id = long_id } ∷ []))) else response (ok (ok []))

abbrev fails_first : ℕ → Got Body
fails_first n = if nat_eq n 0 then failure none (codes "refused") else two_lists 0
