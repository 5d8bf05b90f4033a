-- ===== src/Examples/TailerRuns.antt =====
-- Tailers of one file: a first run, a second, and one after the container has exited.
use logyard_apps.Prelude.{◌≡◌, refl, true, false, Option, none, some, [], ◌∷◌}
use logyard_apps.Prelude.Text.{Text, codes, ◌==◌}
use logyard_apps.Prelude.Int.{pos}
use logyard_apps.Prelude.Dict.{get, put, delete}
use logyard_apps.Prelude.Run.{ok, err, done}
use logyard_apps.Common.{new_message_common}
use logyard_apps.Storage.{Tailer, Storage}
use logyard_apps.Tracker.{
  Tracker, instances_of, is_instance_registered, update, initialize_child_node,
  is_child_node_initialized, remove, commit,
}
use logyard_apps.Tracker.Spec.{stored}
use logyard_apps.Instances.Line.{publish, publish_line, publish_line_as}
use logyard_apps.Instances.Tail.{
  start_of, register_start, from_cached, read_from_tail, initial_offset, get_short_docker_id,
}
use logyard_apps.Instances.Tail.Resumed.{last_offset}
use logyard_apps.Instances.Tailers.{Left, opened, tail_file, on_exit}
use logyard_apps.Instances.Tailers.Restarted.{start_of-tail_file}
use logyard_apps.Instances.Tailers.Removed.{tail_file-on_exit}
use logyard_apps.Instances.Rate.{Config}
use logyard_apps.Instances.Identity.{UidFile, IsKept, get_uid}
use logyard_apps.Examples.InstanceRuns.{node, app, feed, out}

abbrev id : Text
id = codes "0123456789ab"

abbrev file : Text
file = codes "/r/y"

-- The instance is registered, and none of its files is known.
abbrev registered : Tracker (Option Tailer)
registered = record { medium = none; cached = record { instances = (id, []) ∷ [] } }

abbrev after : Left (Option Tailer)
after = record {
  tracker = record registered {
    cached = record { instances = (id, (file, record { v = pos 8 }) ∷ []) ∷ [] };
  };
  published = out;
  notices = [];
}

tailed :
    tail_file node app id
      (codes "b")
      file
      (done (ok (pos 100), []))
      (opened feed none)
      registered
      []
    ≡ done after
unfolding tail_file start_of register_start is_child_node_initialized initialize_child_node
    read_from_tail publish_line publish_line_as publish new_message_common update get put ◌==◌
tailed = refl

is_registered : is_instance_registered registered id ≡ true
unfolding is_instance_registered get ◌==◌
is_registered = refl

is_new : stored (instances_of registered) id file ≡ none
unfolding get ◌==◌
is_new = refl

start_of-tail_file_example :
    start_of after.tracker id file (done (ok (pos 100), []))
    ≡ done (from_cached (last_offset initial_offset feed))
start_of-tail_file_example =
    start_of-tail_file node app id (codes "b") file (pos 100) [] feed none registered [] after
      (done (ok (pos 100), [])) is_registered is_new tailed

-- A storage that keeps the tailer itself.
abbrev store : Storage (Option Tailer) Tailer
store = record { encode = ok; load = λ m t. (none, t, m); write = λ m t. (none, some t) }

abbrev removed : Tracker (Option Tailer)
removed = record { medium = some (record { instances = [] }); cached = record { instances = [] } }

exited : on_exit store app after.tracker ≡ done removed
unfolding on_exit get_short_docker_id remove commit delete ◌==◌
exited = refl

short : get_short_docker_id app.docker_id ≡ done id
unfolding get_short_docker_id
short = refl

abbrev late : Left (Option Tailer)
late = record { tracker = removed; published = out; notices = [] }

tailed_late :
    tail_file node app id (codes "b") file (done (ok (pos 100), [])) (opened feed none) removed []
    ≡ done late
unfolding tail_file start_of register_start is_child_node_initialized initialize_child_node
    read_from_tail publish_line publish_line_as publish new_message_common update get put ◌==◌
tailed_late = refl

tail_file-on_exit_example : (late.tracker ≡ removed) × (is_instance_registered removed id ≡ false)
tail_file-on_exit_example =
    tail_file-on_exit store node app id (codes "b") file (done (ok (pos 100), []))
      (opened feed none) after.tracker removed [] late short exited tailed_late

abbrev config : Config
config = record {
  max_record_size = pos 16384;
  max_lines_per_second = pos 0;
  max_lines_burst = 0;
  file_size_limit = pos 1;
  persist_position_interval_seconds = pos 3;
}

-- The file system is the file of the identifier, if it is there.
abbrev uid_file : UidFile (Option Text)
uid_file = record {
  is_missing = λ f. elim f [ none ↦ true | some uid ↦ false ];
  read_file = λ f. elim f [ none ↦ err (codes "no such file") | some uid ↦ ok uid ];
  write_file = λ uid f. (none, some uid);
  new_v4 = λ f. ok (codes "6ba7b810");
}

uid_file-IsKept : IsKept uid_file
uid_file-IsKept = record { there = λ uid f h. refl; same = λ uid f h. refl }

first_uid : get_uid uid_file none ≡ done (codes "6ba7b810", some (codes "6ba7b810"))
unfolding get_uid
first_uid = refl
