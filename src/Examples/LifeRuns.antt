-- ===== src/Examples/LifeRuns.antt =====
-- apptail from the message about an instance to the removal of the instance.
use logyard_apps.Prelude.{◌≡◌, refl, arith, true, false, none, List, [], ◌∷◌}
use logyard_apps.Prelude.Text.{Text, codes, ◌==◌, has_prefix}
use logyard_apps.Prelude.Int.{pos}
use logyard_apps.Prelude.Dict.{get, put, delete}
use logyard_apps.Prelude.Run.{done, ok}
use logyard_apps.Prelude.Decimal.{show_ℤ}
use logyard_apps.Storage.{Tailer, Storage}
use logyard_apps.DockerEvents.{Event, short_id}
use logyard_apps.Listener.{block_until_container_stops, on_event, elem}
use logyard_apps.Tracker.{
  Tracker, is_instance_registered, new_tracker, register_instance, initialize_child_node, update,
  remove, commit, on_tick,
}
use logyard_apps.Tracker.Spec.{register, initialize, move, tick}
use logyard_apps.Tracker.Shared.{set}
use logyard_apps.Instances.Started.{check_instance_and_update, delete_instance}
use logyard_apps.Instances.Files.{
  Instance, get_log_files, get_docker_app_env, listed_files, from_parts, add_entries, secure_each,
  split, split_two,
}
use logyard_apps.Instances.Tail.{get_short_docker_id, identifier}
use logyard_apps.Instances.Tailers.{tail, on_exit}
use logyard_apps.Apptail.{
  Apptail, new_apptail, to_delete, to_tail, returned, to_wait, waiting, exited, Action, message,
  tails, returns, waits, wakes, docker, initializes, reads, ticks, act, act_all,
}
use logyard_apps.Apptail.Trace.{ops_of_all}
use logyard_apps.Apptail.Life.{Lives, AllowsAll}
use logyard_apps.Apptail.Life.Whole.{
  act_all-keeps, new_apptail-Lives, registered_while_tailed, unit_each,
}
use logyard_apps.Apptail.Life.Until.{waits_until_stopped}
use logyard_apps.Apptail.Life.Over.{removed_once_stopped}
use logyard_apps.Examples.InstanceRuns.{app, plain}

abbrev pub key : Text
key = codes "0123456789ab"

abbrev pub file : Text
file = codes "/r/y"

abbrev pub memory : Storage Tailer Tailer
memory = record { encode = ok; load = λ m t. (none, m, m); write = λ m bytes. (none, bytes) }

abbrev empty : Tracker Tailer
empty = new_tracker (record { instances = [] })

abbrev pub neighbour : Instance
neighbour = record app { docker_id = codes "ba9876543210" }

abbrev died : Event
died = record { id = app.docker_id; status = codes "die"; from = []; time = pos 0 }

abbrev starting : List Action
starting = message app ∷ tails 1 plain ∷ returns 1 ∷ waits 1 ∷ []

abbrev running : List Action
running =
    initializes 1 file (pos 0)
    ∷ message neighbour
    ∷ reads 1 file (pos 8)
    ∷ ticks
    ∷ tails 2 plain
    ∷ []

abbrev over : List Action
over = returns 2 ∷ waits 2 ∷ []

abbrev pub waited : Apptail Tailer
waited = record {
  n = 1;
  started_instances = [];
  tracker = record {
    medium = record { instances = [] };
    cached = record { instances = (key, []) ∷ [] };
  };
  listener = record { waiters = (key, 0) ∷ []; closed = []; fresh = 1 };
  handlers =
      set (set (set (new_apptail empty).handlers 1 (to_tail app)) 1 (to_delete app)) 1 returned;
  waiters = set (set (new_apptail empty).waiters 1 (to_wait app)) 1 (waiting app 0);
}

program : Unit {0}
unfolding act_all act tail identifier show_ℤ get_log_files listed_files get_docker_app_env
    from_parts add_entries split split_two secure_each has_prefix get put delete ◌==◌
    get_short_docker_id block_until_container_stops on_event elem on_exit remove commit on_tick
    register_instance initialize_child_node update check_instance_and_update delete_instance
    new_tracker short_id is_instance_registered ops_of_all
program = tt

started : act_all memory starting (new_apptail empty) ≡ done waited
unfolding program
started = refl

abbrev pub beside : Apptail Tailer
beside = record waited {
  n = 2;
  started_instances = (neighbour.docker_id, 2) ∷ [];
  tracker = record {
    medium = record { instances = (key, (file, record { v = pos 8 }) ∷ []) ∷ [] };
    cached = record {
      instances = (key, (file, record { v = pos 8 }) ∷ []) ∷ (neighbour.docker_id, []) ∷ [];
    };
  };
  handlers = set (set waited.handlers 2 (to_tail neighbour)) 2 (to_delete neighbour);
  waiters = set waited.waiters 2 (to_wait neighbour);
}

ran : act_all memory running waited ≡ done beside
unfolding program
ran = refl

abbrev closed : Apptail Tailer
closed = record beside { listener = record { waiters = []; closed = 0 ∷ []; fresh = 1 } }

heard : act memory (docker died) beside ≡ done closed
unfolding program
heard = refl

abbrev alone : Apptail Tailer
alone = record closed {
  tracker = record {
    medium = record { instances = (neighbour.docker_id, []) ∷ [] };
    cached = record { instances = (neighbour.docker_id, []) ∷ [] };
  };
  waiters = set closed.waiters 1 (exited app);
}

woke : act memory (wakes 1) closed ≡ done alone
unfolding program
woke = refl

abbrev ended : Apptail Tailer
ended = record alone {
  started_instances = [];
  listener = record { waiters = (neighbour.docker_id, 1) ∷ []; closed = 0 ∷ []; fresh = 2 };
  handlers = set alone.handlers 2 returned;
  waiters = set alone.waiters 2 (waiting neighbour 1);
}

finished : act_all memory over alone ≡ done ended
unfolding program
finished = refl

is_first : AllowsAll key 1 starting 0
unfolding program
is_first = (refl, (tt, (tt, (tt, tt))))

is_another : AllowsAll key 1 running 1
unfolding program
is_another = (tt, (refl, (tt, (tt, (tt, tt)))))

waited-Lives : Lives false key 1 waited
unfolding program
waited-Lives =
    (act_all-keeps memory false key 1 (λ s. Unit) (λ a. Unit) (λ a s s' q l m w. tt) starting
      (new_apptail empty) waited is_first (unit_each starting) started
      (new_apptail-Lives key 1 empty (omega arith)) tt).1

beside-Lives : Lives false key 1 beside
beside-Lives =
    (act_all-keeps memory false key 1 (λ s. Unit) (λ a. Unit) (λ a s s' q l m w. tt) running waited
      beside is_another (unit_each running) ran waited-Lives tt).1

registered_while_tailed_example : is_instance_registered waited.tracker key ≡ true
unfolding program
registered_while_tailed_example =
    registered_while_tailed memory key 1 empty starting waited (omega arith) is_first started

waits_until_stopped_example :
    (beside.waiters 1 ≡ waiting app 0) × (is_instance_registered beside.tracker key ≡ true)
unfolding program
waits_until_stopped_example =
    waits_until_stopped false key 1 app 0 memory running waited beside is_another
      (refl, (refl, (refl, (refl, (refl, tt))))) ran waited-Lives refl refl

removed_once_stopped_example : is_instance_registered ended.tracker key ≡ false
unfolding program
removed_once_stopped_example =
    removed_once_stopped false key 1 app 0 memory died [] over beside closed closed alone ended
      beside-Lives refl refl refl heard tt refl woke (tt, (tt, tt)) finished

calls_made :
    ops_of_all memory running waited
    ≡ initialize key file (pos 0) ∷ move key file (pos 8) ∷ tick ∷ register neighbour.docker_id ∷ []
unfolding program
calls_made = refl
