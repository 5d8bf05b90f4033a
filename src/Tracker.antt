-- ===== src/Tracker.antt =====
-- apptail/storage/tail_tracker.go: the read offsets of the tailed files of each instance.
-- Each method is one step here. Tracker/Shared has the steps of `Update`, which does not hold the
-- mutex, and Tracker/Commits those of `Commit` and `Remove`, which give it back in between.
-- `dumpState` only logs.
pub mod CleanUp
pub mod Spec
pub mod Refinement
pub mod Reads
pub mod Restart
pub mod Durable
pub mod Shared
pub mod Commits
use logyard_apps.Prelude.{Bool, true, false, Option, none, some, List, [], ◌∷◌, if◌then◌else◌}
use logyard_apps.Prelude.Text.{Text}
use logyard_apps.Prelude.Int.{ℤ, pos}
use logyard_apps.Prelude.Dict.{Dict, StringSet, get, put, delete, contains}
use logyard_apps.Prelude.Run.{Error, Result, ok, err, Run, done, crash, nil_pointer, fatal, ◌>>=◌}
use logyard_apps.Storage.{BoxedInt64, TailNode, Tailer, empty_tailer, Storage}

-- A tick, or a message of `timerStopChan`.
pub data Timer : Type 0 where
  ticked told_to_stop : Timer

pub record Tracker (M : Type 0) : Type 0 where
  pub medium : M
  pub cached : Tailer

-- The loop of `CleanUp` that collects the keys of the cache.
collect_ids : StringSet → Dict TailNode → StringSet
collect_ids ids [] = ids
collect_ids ids ((key, node) ∷ rest) = collect_ids (put ids key true) rest

-- The loop of `getInvalidInstances`.
invalid_from : StringSet → StringSet → StringSet → StringSet
invalid_from invalid [] all_instances = invalid
invalid_from invalid ((id, _) ∷ rest) all_instances =
    invalid_from (if contains all_instances id then invalid else put invalid id true) rest
      all_instances

unfoldable pub get_invalid_instances : StringSet → StringSet → StringSet
unfolding invalid_from
get_invalid_instances docker_ids all_instances = invalid_from [] docker_ids all_instances

-- The loop of `CleanUp` that deletes.
delete_all : StringSet → Dict TailNode → Dict TailNode
delete_all [] instances = instances
delete_all ((key, _) ∷ rest) instances = delete_all rest (delete instances key)

load_offset : Option BoxedInt64 → Run ℤ
load_offset none = crash nil_pointer
load_offset (some box) = done box.v

node_has : Option TailNode → Text → Bool
node_has none child_key = false
node_has (some tail_node) child_key = contains tail_node child_key

offset_of_node : Option TailNode → Text → Run ℤ
unfolding load_offset
offset_of_node none fname = done (pos 0)
offset_of_node (some tail_node) fname = load_offset (get tail_node fname)

module _ {M : Type 0} where
  abbrev pub instances_of : Tracker M → Dict TailNode
  instances_of t = t.cached.instances

  abbrev pub with_instances : Tracker M → Dict TailNode → Tracker M
  with_instances t instances = record t { cached = record { instances = instances } }

  unfoldable pub new_tracker : M → Tracker M
  new_tracker medium = record { medium = medium; cached = empty_tailer }

  unfoldable pub register_instance : Text → Tracker M → Tracker M
  register_instance inst_key t =
      if contains (instances_of t) inst_key
      then t
      else with_instances t (put (instances_of t) inst_key [])

  unfoldable pub is_instance_registered : Tracker M → Text → Bool
  is_instance_registered t inst_key = contains (instances_of t) inst_key

  unfoldable pub is_child_node_initialized : Tracker M → Text → Text → Bool
  unfolding node_has
  is_child_node_initialized t inst_key child_key =
      node_has (get (instances_of t) inst_key) child_key

  initialize_in : Option TailNode → Text → Text → ℤ → Tracker M → Tracker M
  initialize_in none inst_key child_key offset t = t
  initialize_in (some tail_node) inst_key child_key offset t =
      if contains tail_node child_key
      then t
      else with_instances t
          (put (instances_of t) inst_key (put tail_node child_key (record { v = offset })))

  unfoldable pub initialize_child_node : Text → Text → ℤ → Tracker M → Tracker M
  unfolding initialize_in
  initialize_child_node inst_key child_key offset t =
      initialize_in (get (instances_of t) inst_key) inst_key child_key offset t

  unfoldable pub get_file_cached_offset : Tracker M → Text → Text → Run ℤ
  unfolding offset_of_node
  get_file_cached_offset t inst_key fname = offset_of_node (get (instances_of t) inst_key) fname

  -- The boxed offset is written through its pointer; the maps keep their keys.
  update_in : Option TailNode → Text → Text → ℤ → Tracker M → Tracker M
  update_in none inst_key child_key child_val t = t
  update_in (some tail_node) inst_key child_key child_val t =
      if contains tail_node child_key
      then with_instances t
          (put (instances_of t) inst_key (put tail_node child_key (record { v = child_val })))
      else t

  unfoldable pub update : Text → Text → ℤ → Tracker M → Tracker M
  unfolding update_in
  update inst_key child_key child_val t =
      update_in (get (instances_of t) inst_key) inst_key child_key child_val t

  unfoldable pub clean_up : StringSet → Tracker M → Tracker M
  unfolding collect_ids delete_all
  clean_up valid_ids t =
      let cached_ids = collect_ids [] (instances_of t) in
      let to_remove = get_invalid_instances cached_ids valid_ids in
      with_instances t (delete_all to_remove (instances_of t))

  abbrev fatal_on : Option Error × Tracker M → Run (Tracker M)
  fatal_on (none, t) = done t
  fatal_on (some e, t) = crash fatal

  module _ {B : Type 0} (s : Storage M B) where
    unfoldable pub get_buffer : Tracker M → Result B
    get_buffer t = s.encode t.cached

    write_buffer : Result B → Tracker M → Option Error × Tracker M
    write_buffer (err e) t = (some e, t)
    write_buffer (ok bytes) t =
        let (error, medium) = s.write t.medium bytes in (error, record t { medium = medium })

    -- As the goroutine that calls it sees it: the mutex is free between the two, and Tracker/Commits
    -- has what other goroutines do there.
    unfoldable pub commit : Tracker M → Option Error × Tracker M
    unfolding get_buffer write_buffer
    commit t = write_buffer (get_buffer t) t

    -- The mutex is free before `Commit`, too.
    unfoldable pub remove : Text → Tracker M → Run (Tracker M)
    remove key t = fatal_on (commit (with_instances t (delete (instances_of t) key)))

    -- One tick of the loop of `StartSubmissionTimer`.
    unfoldable pub on_tick : Tracker M → Run (Tracker M)
    on_tick t = fatal_on (commit t)

    -- The goroutine of `StartSubmissionTimer`, by what it receives.
    unfoldable pub start_submission_timer : List Timer → Tracker M → Run (Tracker M)
    start_submission_timer [] t = done t
    start_submission_timer (told_to_stop ∷ rest) t = done t
    start_submission_timer (ticked ∷ rest) t = do t' ← on_tick t; start_submission_timer rest t'

    -- The error of `Load` is dropped.
    unfoldable pub load_tailers : Tracker M → Tracker M
    load_tailers t =
        let (error, cached, medium) = s.load t.medium t.cached in
        record { medium = medium; cached = cached }
