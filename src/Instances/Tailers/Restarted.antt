-- ===== src/Instances/Tailers/Restarted.antt =====
-- Where a file is read from by a second tailer, after a first that found it uninitialized.
use logyard_apps.Prelude.{◌≡◌, subst, true, Option, none, some, List, arith}
use logyard_apps.Prelude.Text.{Text, eq_refl}
use logyard_apps.Prelude.Int.{ℤ}
use logyard_apps.Prelude.Run.{Error, Result, ok, Run, done, >>=-eq-done, done-injective}
use logyard_apps.Tracker.{
  Tracker, instances_of, is_instance_registered, is_child_node_initialized, initialize_child_node,
}
use logyard_apps.Tracker.Spec.{stored, own_view, own_view-Shows}
use logyard_apps.Tracker.Refinement.{initialize-Shows}
use logyard_apps.Sieve.Event.{Published}
use logyard_apps.Instances.Limit.{Notice}
use logyard_apps.Instances.Files.{Instance}
use logyard_apps.Instances.Line.{Node}
use logyard_apps.Instances.Tail.{
  Feed, initial_offset, from_cached, from_limit, start_of, register_start, read_from_tail,
}
use logyard_apps.Instances.Tail.Resumed.{last_offset, start_of-read_from_tail}
use logyard_apps.Instances.Tailers.{Left, opened, read_tailed, tail_from, tail_file}

module _ {M : Type 0} where
  initialize_stored :
      (t : Tracker M) (id file : Text) (x : ℤ)
      → is_instance_registered t id ≡ true
      → stored (instances_of t) id file ≡ none
      → stored (instances_of (initialize_child_node id file x t)) id file ≡ some x
  initialize_stored t id file x h new =
      let made = (initialize-Shows t (own_view t) id file x (own_view-Shows t)).offset id file in
      ground (arith, made, h, new, eq_refl id, eq_refl file)

  start_of_new :
      (t : Tracker M) (id file : Text) (l : ℤ) (n : List Notice)
      → stored (instances_of t) id file ≡ none
      → start_of t id file (done (ok l, n)) ≡ done (from_limit (ok l, n))
  unfolding start_of is_child_node_initialized
  start_of_new t id file l n new = ground (arith, new)

  module _ {Time : Type 0} (node : Node Time) (i : Instance) (id name file : Text) where
    -- A registered instance's file that was not initialized and could be opened is tailed by the next
    -- tailer from the offset after its last line, and from its start where no line was read, also
    -- where the first tailer began at a read limit before its end.
    pub start_of-tail_file :
        (l : ℤ) (n : List Notice) (feed : List (Feed Time)) (end : Option Error) (t : Tracker M)
        (out : Published) (left : Left M) (limit : Run (Result ℤ × List Notice))
        → is_instance_registered t id ≡ true
        → stored (instances_of t) id file ≡ none
        → tail_file node i id name file (done (ok l, n)) (opened feed end) t out ≡ done left
        → start_of left.tracker id file limit ≡ done (from_cached (last_offset initial_offset feed))
    unfolding tail_file tail_from read_tailed register_start
    start_of-tail_file l n feed end t out left limit h new e =
        let begun = rw (start_of_new t id file l n new) at e in
        let t0 = initialize_child_node id file initial_offset t in
        let ((t', out'), first, later) =
          >>=-eq-done (read_from_tail node i id name file feed t0 out) _ begun in
        let start =
          start_of-read_from_tail node i id name file feed t0 t' out out' initial_offset limit
            (initialize_stored t id file initial_offset h new) first in
        subst
          (λ (u : Left M).
            start_of u.tracker id file limit ≡ done (from_cached (last_offset initial_offset feed)))
          (done-injective later) start
