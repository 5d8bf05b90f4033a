-- ===== src/Examples/SharedRuns.antt =====
-- Two goroutines in `Update`, while others hold the mutex.
use logyard_apps.Prelude.{◌≡◌, refl, none, some, List, [], ◌∷◌, ◌++◌}
use logyard_apps.Prelude.Text.{Text, codes, ◌==◌}
use logyard_apps.Prelude.Int.{pos}
use logyard_apps.Prelude.Dict.{get, put, delete, contains}
use logyard_apps.Prelude.Run.{done, ok}
use logyard_apps.Storage.{Tailer, Storage}
use logyard_apps.Tracker.{
  Tracker, instances_of, new_tracker, register_instance, initialize_child_node, update, remove,
  commit, is_instance_registered,
}
use logyard_apps.Tracker.Spec.{register, initialize, move, stored, apply, apply_all}
use logyard_apps.Tracker.Shared.{
  Shared, Action, registers, initializes, deletes, calls_update, advances, act, act_all, advance,
  new_shared, register_locked, initialize_locked, delete_locked, effects, has_box,
}
use logyard_apps.Tracker.Shared.Linear.{act_all-apply_all}
use logyard_apps.Tracker.Shared.Looks.{file_in}
use logyard_apps.Tracker.Shared.Current.{update_counts}

-- A medium that holds a tailer.
abbrev memory : Storage Tailer Tailer
memory = record { encode = ok; load = λ m t. (none, m, m); write = λ m bytes. (none, bytes) }

abbrev app : Text
app = codes "0123456789ab"

abbrev out_log : Text
out_log = codes "out"

abbrev err_log : Text
err_log = codes "err"

-- Goroutine 0 has found its box when goroutine 1 starts, and stores after another file is there.
abbrev interleaved : List Action
interleaved =
    registers app
    ∷ initializes app out_log (pos 0)
    ∷ calls_update 0 app out_log (pos 5)
    ∷ advances 0
    ∷ initializes app err_log (pos 0)
    ∷ advances 0
    ∷ calls_update 1 app err_log (pos 7)
    ∷ advances 1
    ∷ advances 0
    ∷ []

-- Both store, the second first; then the instance goes, and one more update finds nothing.
abbrev to_the_end : List Action
to_the_end = interleaved ++ advances 1 ∷ advances 1 ∷ advances 1 ∷ advances 0 ∷ []

abbrev after : Tracker Tailer
after = record {
  medium = record { instances = [] };
  cached = record {
    instances = (app, (out_log, record { v = pos 5 }) ∷ (err_log, record { v = pos 7 }) ∷ []) ∷ [];
  };
}

-- The instance is removed and comes back while goroutine 0 holds the old box: its update is lost.
abbrev restarted : List Action
restarted =
    interleaved ++ deletes app ∷ registers app ∷ initializes app out_log (pos 1) ∷ advances 0 ∷ []

program : Unit {0}
unfolding apply_all apply register_instance initialize_child_node update remove commit new_tracker
    get put delete ◌==◌ is_instance_registered act act_all advance register_locked initialize_locked
    delete_locked effects
program = tt

whole_calls :
    effects to_the_end new_shared
    ≡ register app
      ∷ initialize app out_log (pos 0)
      ∷ initialize app err_log (pos 0)
      ∷ move app err_log (pos 7)
      ∷ move app out_log (pos 5)
      ∷ []
unfolding program
whole_calls = refl

whole_calls_run :
    apply_all memory (effects to_the_end new_shared) (new_tracker (record { instances = [] }))
    ≡ done after
unfolding program
whole_calls_run = refl

update_lost :
    file_in
      (act_all restarted new_shared).heap
      (get (act_all restarted new_shared).heap.instances app)
      out_log
    ≡ some (pos 1)
unfolding program
update_lost = refl

act_all-apply_all_example :
    ((j : Text)
      → contains (act_all to_the_end new_shared).heap.instances j ≡ is_instance_registered after j)
    × ((j d : Text)
        → file_in
            (act_all to_the_end new_shared).heap
            (get (act_all to_the_end new_shared).heap.instances j)
            d
          ≡ stored (instances_of after) j d)
act_all-apply_all_example =
    act_all-apply_all memory (record { instances = [] }) to_the_end after whole_calls_run

at_the_box : (act_all interleaved new_shared).phases 0 ≡ has_box app out_log (pos 5) 0 0
unfolding program
at_the_box = refl

abbrev stored_at : Shared
stored_at = act (advances 0) (act_all interleaved new_shared)

update_counts_example :
    file_in stored_at.heap (get stored_at.heap.instances app) out_log ≡ some (pos 5)
unfolding ◌==◌
update_counts_example =
    update_counts interleaved 0 app out_log (pos 5) 0 0
      (refl, (refl, (refl, (refl, (refl, (refl, (refl, (refl, (refl, tt))))))))) at_the_box app
      out_log
