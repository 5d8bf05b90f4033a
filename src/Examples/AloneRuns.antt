-- ===== src/Examples/AloneRuns.antt =====
-- A tailer of apptail that nothing interrupts.
use logyard_apps.Prelude.{arith, subst, List, ◌≡◌, refl, none, [], ◌∷◌}
use logyard_apps.Prelude.Text.{codes, ◌==◌}
use logyard_apps.Prelude.Int.{ℤ, pos}
use logyard_apps.Prelude.Dict.{get, put}
use logyard_apps.Prelude.Run.{Run, Result, done, ok}
use logyard_apps.Common.{new_message_common}
use logyard_apps.Storage.{Tailer}
use logyard_apps.Tracker.{
  is_child_node_initialized, initialize_child_node, update, on_tick, commit, load_tailers,
  new_tracker,
}
use logyard_apps.Instances.Limit.{Notice}
use logyard_apps.Instances.Line.{publish, publish_line, publish_line_as}
use logyard_apps.Instances.Tail.{
  get_short_docker_id, start_of, from_limit, register_start, read_from_tail,
}
use logyard_apps.Instances.Tailers.{Left, opened, tail_file}
use logyard_apps.Apptail.{Apptail, initializes, reads, ticks, act, act_all}
use logyard_apps.Apptail.Alone.{tail_file-act_all}
use logyard_apps.Examples.InstanceRuns.{app, node, feed, out}
use logyard_apps.Examples.LifeRuns.{key, file, memory, waited, beside, neighbour}
use logyard_apps.Apptail.Restart.{restarted_as_ticked}
use logyard_apps.Tracker.Spec.{Shows, own_view}
use logyard_apps.Storage.{IsPersistent, SameTailer}

short_key : get_short_docker_id app.docker_id ≡ done key
unfolding get_short_docker_id
short_key = refl

abbrev limit : Run (Result ℤ × List Notice)
limit = done (ok (pos 100), [])

abbrev left : Left Tailer
left = record {
  tracker = record waited.tracker {
    cached = record { instances = (key, (file, record { v = pos 8 }) ∷ []) ∷ [] };
  };
  published = out;
  notices = [];
}

begun : start_of waited.tracker key file limit ≡ done (from_limit (ok (pos 100), []))
unfolding start_of is_child_node_initialized get ◌==◌
begun = refl

tailed :
    tail_file node app key (codes "b") file limit (opened feed none) waited.tracker [] ≡ done left
unfolding tail_file start_of register_start is_child_node_initialized initialize_child_node
    read_from_tail publish_line publish_line_as publish new_message_common update get put ◌==◌
tailed = refl

tail_file-act_all_example :
    act_all memory
      (initializes 1 file (pos 0) ∷ reads 1 file (pos 4) ∷ reads 1 file (pos 8) ∷ [])
      waited
    ≡ done (record waited { tracker = left.tracker })
tail_file-act_all_example =
    tail_file-act_all memory node app key (codes "b") file 1 short_key limit
      (from_limit (ok (pos 100), [])) (opened feed none) waited left [] refl begun tailed

pub memory-IsPersistent : IsPersistent memory
memory-IsPersistent = record {
  reload = λ t bytes m e w.
      subst (SameTailer bytes) (ground (arith, e))
        (record { instances = λ i. refl; offsets = λ i f. refl });
}

-- The timer ticks, and after it one more line is read, whose offset is lost.
abbrev ticked_and_read : Apptail Tailer
ticked_and_read = record beside {
  tracker = record {
    medium = beside.tracker.cached;
    cached = record {
      instances = (key, (file, record { v = pos 12 }) ∷ []) ∷ (neighbour.docker_id, []) ∷ [];
    };
  };
}

ticked_run : act_all memory (ticks ∷ reads 1 file (pos 12) ∷ []) beside ≡ done ticked_and_read
unfolding act_all act get_short_docker_id on_tick commit update get put ◌==◌
ticked_run = refl

restarted_as_ticked_example :
    Shows
      (load_tailers memory (new_tracker ticked_and_read.tracker.medium))
      (own_view beside.tracker)
restarted_as_ticked_example =
    restarted_as_ticked memory memory-IsPersistent (reads 1 file (pos 12) ∷ []) beside
      ticked_and_read (refl, tt) ticked_run
