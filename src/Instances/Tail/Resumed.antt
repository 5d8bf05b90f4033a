-- ===== src/Instances/Tail/Resumed.antt =====
-- Where a file is read from after some of its lines were read.
use logyard_apps.Prelude.{◌≡◌, subst, some, List, [], ◌∷◌, arith}
use logyard_apps.Prelude.Text.{Text, eq_refl}
use logyard_apps.Prelude.Int.{ℤ}
use logyard_apps.Prelude.Run.{Result, Run, done, >>=-eq-done, done-injective}
use logyard_apps.Tracker.{
  Tracker, instances_of, is_child_node_initialized, get_file_cached_offset, update,
}
use logyard_apps.Tracker.Spec.{own_view, own_view-Shows, stored}
use logyard_apps.Tracker.Refinement.{update-Shows}
use logyard_apps.Sieve.Event.{Published}
use logyard_apps.Instances.Limit.{Notice}
use logyard_apps.Instances.Files.{Instance}
use logyard_apps.Instances.Line.{Node, publish_line}
use logyard_apps.Instances.Tail.{
  Feed, line_read, lines_closed, stopped, from_cached, start_of, read_from_tail,
}

-- The offset after the lines of a feed, from `x`.
abbrev pub last_offset : {Time : Type 0} → ℤ → List (Feed Time) → ℤ
last_offset x [] = x
last_offset x (lines_closed ∷ rest) = x
last_offset x (stopped ∷ rest) = x
last_offset x (line_read line offset ∷ rest) = last_offset offset rest

module _ {M : Type 0} where
  start_of_stored :
      (t : Tracker M) (id file : Text) (x : ℤ) (limit : Run (Result ℤ × List Notice))
      → stored (instances_of t) id file ≡ some x
      → start_of t id file limit ≡ done (from_cached x)
  unfolding start_of is_child_node_initialized get_file_cached_offset
  start_of_stored t id file x limit h = ground (arith, h)

  update_stored :
      (t : Tracker M) (id file : Text) (x y : ℤ)
      → stored (instances_of t) id file ≡ some x
      → stored (instances_of (update id file y t)) id file ≡ some y
  update_stored t id file x y h =
      let moved = (update-Shows t (own_view t) id file y (own_view-Shows t)).offset id file in
      ground (arith, moved, h, eq_refl id, eq_refl file)

  module _ {Time : Type 0} (node : Node Time) (i : Instance) (id name file : Text) where
    read_stored :
        (feed : List (Feed Time)) (t t' : Tracker M) (out out' : Published) (x : ℤ)
        → stored (instances_of t) id file ≡ some x
        → read_from_tail node i id name file feed t out ≡ done (t', out')
        → stored (instances_of t') id file ≡ some (last_offset x feed)
    unfolding read_from_tail
    read_stored [] t t' out out' x h e =
        subst (λ p. stored (instances_of p.0) id file ≡ some x) (done-injective e) h
    read_stored (lines_closed ∷ rest) t t' out out' x h e =
        subst (λ p. stored (instances_of p.0) id file ≡ some x) (done-injective e) h
    read_stored (stopped ∷ rest) t t' out out' x h e =
        subst (λ p. stored (instances_of p.0) id file ≡ some x) (done-injective e) h
    read_stored (line_read line offset ∷ rest) t t' out out' x h e =
        let (mid, published, later) = >>=-eq-done (publish_line node i name line out) _ e in
        read_stored rest (update id file offset t) t' mid out' offset
          (update_stored t id file x offset h) later

    -- A file that is initialized in the tracker and was then read, in a run that did not stop the
    -- process, is tailed from the offset after
    -- the last line that was read, whatever its read limit is.
    pub start_of-read_from_tail :
        (feed : List (Feed Time)) (t t' : Tracker M) (out out' : Published) (x : ℤ)
        → (limit : Run (Result ℤ × List Notice)) → stored (instances_of t) id file ≡ some x
        → read_from_tail node i id name file feed t out ≡ done (t', out')
        → start_of t' id file limit ≡ done (from_cached (last_offset x feed))
    start_of-read_from_tail feed t t' out out' x limit h e =
        start_of_stored t' id file (last_offset x feed) limit (read_stored feed t t' out out' x h e)
