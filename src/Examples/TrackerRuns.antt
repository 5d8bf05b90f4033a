-- ===== src/Examples/TrackerRuns.antt =====
-- The tracker over a storage that keeps the tailer itself.
use logyard_apps.Prelude.{◌≡◌, refl, true, false, Option, none, some, List, [], ◌∷◌, ◌++◌}
use logyard_apps.Prelude.Text.{Text, codes, ◌==◌}
use logyard_apps.Prelude.Int.{pos}
use logyard_apps.Prelude.Dict.{get, put, delete}
use logyard_apps.Prelude.Run.{done, ok}
use logyard_apps.Storage.{Tailer, Storage, IsPersistent}
use logyard_apps.Storage.FileHandler.{
  FileSystem, Gob, exists, missing, new_file_storage, ReadsBack, DecodesBack,
  new_file_storage-IsPersistent,
}
use logyard_apps.Tracker.{
  Tracker, new_tracker, get_file_cached_offset, is_child_node_initialized, register_instance,
  initialize_child_node, commit, load_tailers, clean_up, get_invalid_instances, remove, on_tick,
  update, is_instance_registered,
}
use logyard_apps.Tracker.Spec.{
  View, Op, register, initialize, move, drop_instance, keep_only, tick, spec_all, Shows, apply,
  apply_all,
}
use logyard_apps.Tracker.Refinement.{apply_all-Shows}
use logyard_apps.Tracker.Restart.{resume}

-- A disk with one file that holds the tailer itself, and a codec that changes nothing.
abbrev disk : FileSystem (Option Tailer) Tailer
disk = record {
  stat = λ path m. elim m [ none ↦ missing | some t ↦ exists ];
  create = λ path m. (none, some (record { instances = [] }));
  read_file = λ path m. elim m [ none ↦ (record { instances = [] }, none) | some t ↦ (t, none) ];
  write_file = λ path buf mode m. (none, some buf);
  chmod = λ path mode m. (none, m);
}

abbrev codec : Gob Tailer
codec = record { encode = ok; decode = λ bytes t. (bytes, none) }

abbrev state_file : Text
state_file = codes "/home/stackato/.apptail.gob"

disk-ReadsBack : ReadsBack disk state_file
disk-ReadsBack = record {
  stat_written = λ buf m w. refl;
  read_written = λ buf m w. refl;
  stat_chmod = λ buf m w v. refl;
  read_chmod = λ buf m w v. refl;
}

codec-DecodesBack : DecodesBack codec
codec-DecodesBack = record {
  decoded = λ t bytes e.
      let same : t ≡ bytes = cc in
      rw same (record { instances = λ i. refl; offsets = λ i f. refl });
}

abbrev pub store : Storage (Option Tailer) Tailer
store = new_file_storage disk codec state_file

new_file_storage-IsPersistent_example : IsPersistent store
new_file_storage-IsPersistent_example =
    new_file_storage-IsPersistent disk codec state_file disk-ReadsBack codec-DecodesBack

pub store-IsPersistent : IsPersistent store
store-IsPersistent =
    new_file_storage-IsPersistent disk codec state_file disk-ReadsBack codec-DecodesBack

abbrev pub inst : Text
inst = codes "0123456789ab"

abbrev pub gone : Text
gone = codes "ba9876543210"

abbrev log_file : Text
log_file = codes "/app/logs/stdout.log"

abbrev pub first_calls : List Op
first_calls =
    register inst
    ∷ initialize inst log_file (pos 0)
    ∷ move inst log_file (pos 120)
    ∷ register gone
    ∷ tick
    ∷ keep_only ((inst, true) ∷ [])
    ∷ []

abbrev pub last_calls : List Op
last_calls = move gone log_file (pos 7) ∷ []

abbrev calls : List Op
calls = first_calls ++ drop_instance gone ∷ last_calls

abbrev pub start : Tracker (Option Tailer)
start = new_tracker none

abbrev pub nothing : View
nothing = record { registered = λ j. false; offset = λ j d. none }

pub start-Shows : Shows start nothing
unfolding new_tracker is_instance_registered get
start-Shows = record { registered = λ j. refl; offset = λ j d. refl }

abbrev held : Tailer
held = record { instances = (inst, (log_file, record { v = pos 120 }) ∷ []) ∷ [] }

abbrev pub after : Tracker (Option Tailer)
after = record { medium = some held; cached = held }

program : Unit {0}
unfolding apply_all apply register_instance initialize_child_node update clean_up remove on_tick
    commit new_file_storage new_tracker get put delete ◌==◌ get_invalid_instances
    get_file_cached_offset is_child_node_initialized load_tailers is_instance_registered
program = tt

pub calls_run : apply_all store calls start ≡ done after
unfolding program
calls_run = refl

apply_all-Shows_example : Shows after (spec_all calls nothing)
apply_all-Shows_example = apply_all-Shows store calls start after nothing start-Shows calls_run

resume_example :
    get_file_cached_offset
      (initialize_child_node inst log_file
        (pos 0)
        (register_instance inst (load_tailers store (new_tracker (commit store after).1.medium))))
      inst
      log_file
    ≡ done (pos 120)
unfolding program
resume_example =
    resume store store-IsPersistent after (spec_all calls nothing) inst log_file (pos 120) (pos 0)
      apply_all-Shows_example refl refl refl
