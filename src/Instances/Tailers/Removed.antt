-- ===== src/Instances/Tailers/Removed.antt =====
-- A tailer that is still running after the container of its instance exited.
use logyard_apps.Prelude.{◌≡◌, sym, ◌∙◌, ap, subst, false, List, [], ◌∷◌, arith}
use logyard_apps.Prelude.Text.{Text, eq_refl}
use logyard_apps.Prelude.Int.{ℤ}
use logyard_apps.Prelude.Run.{Result, ok, err, Run, done, >>=-eq-done, done-injective}
use logyard_apps.Storage.{Storage}
use logyard_apps.Tracker.{Tracker, is_instance_registered, update, initialize_child_node, remove}
use logyard_apps.Tracker.Refinement.{apply-Shows}
use logyard_apps.Tracker.Spec.{drop_instance, apply, own_view, own_view-Shows}
use logyard_apps.Sieve.Event.{Published}
use logyard_apps.Instances.Limit.{Notice}
use logyard_apps.Instances.Files.{Instance}
use logyard_apps.Instances.Line.{Node, publish_line}
use logyard_apps.Instances.Tail.{
  Feed, line_read, lines_closed, stopped, Start, start_of, register_start, read_from_tail,
  get_short_docker_id,
}
use logyard_apps.Instances.Tailers.{
  Left, Tailed, refused, opened, read_tailed, tail_from, tail_file, on_exit,
}

module _ {M : Type 0} where
  update-removed :
      (t : Tracker M) (id file : Text) (x : ℤ)
      → is_instance_registered t id ≡ false
      → update id file x t ≡ t
  unfolding update is_instance_registered
  update-removed t id file x h = ground (arith, h)

  register_start-removed :
      (t : Tracker M) (start : Start) (id file : Text)
      → is_instance_registered t id ≡ false
      → register_start start id file t ≡ t
  unfolding register_start initialize_child_node is_instance_registered
  register_start-removed t start id file h = ground (arith, h)

  module _ {Time : Type 0} (node : Node Time) (i : Instance) (id name file : Text) where
    read_from_tail-removed :
        (feed : List (Feed Time)) (t t' : Tracker M) (out out' : Published)
        → is_instance_registered t id ≡ false
        → read_from_tail node i id name file feed t out ≡ done (t', out')
        → t' ≡ t
    unfolding read_from_tail
    read_from_tail-removed [] t t' out out' h e = sym (ap (λ p. p.0) (done-injective e))
    read_from_tail-removed (lines_closed ∷ rest) t t' out out' h e =
        sym (ap (λ p. p.0) (done-injective e))
    read_from_tail-removed (stopped ∷ rest) t t' out out' h e =
        sym (ap (λ p. p.0) (done-injective e))
    read_from_tail-removed (line_read line offset ∷ rest) t t' out out' h e =
        let (mid, published, later) = >>=-eq-done (publish_line node i name line out) _ e in
        read_from_tail-removed rest t t' mid out' h (
          subst (λ u. read_from_tail node i id name file rest u mid ≡ done (t', out'))
            (update-removed t id file offset h) later)

    read_tailed-removed :
        (tailed : Tailed Time) (t : Tracker M) (out : Published) (n : List Notice) (left : Left M)
        → is_instance_registered t id ≡ false
        → read_tailed node i id name file tailed t out n ≡ done left
        → left.tracker ≡ t
    unfolding read_tailed
    read_tailed-removed (refused x) t out n left h e = sym (ap (λ l. l.tracker) (done-injective e))
    read_tailed-removed (opened feed end) t out n left h e =
        let ((t', out'), first, later) =
          >>=-eq-done (read_from_tail node i id name file feed t out) _ e in
        sym (ap (λ l. l.tracker) (done-injective later))
        ∙ read_from_tail-removed feed t t' out out' h first

    tail_from-removed :
        (start : Result Start × List Notice) (tailed : Tailed Time) (t : Tracker M)
        (out : Published)
        → (left : Left M) → is_instance_registered t id ≡ false
        → tail_from node i id name file start tailed t out ≡ done left
        → left.tracker ≡ t
    unfolding tail_from
    tail_from-removed (err x, n) tailed t out left h e =
        sym (ap (λ l. l.tracker) (done-injective e))
    tail_from-removed (ok start, n) tailed t out left h e =
        read_tailed-removed tailed t out n left h (
          subst (λ u. read_tailed node i id name file tailed u out n ≡ done left)
            (register_start-removed t start id file h) e)

    -- A tailer of an instance that is not registered leaves the tracker as it is, whatever it reads.
    pub tail_file-removed :
        (limit : Run (Result ℤ × List Notice)) (tailed : Tailed Time) (t : Tracker M)
        (out : Published) (left : Left M)
        → is_instance_registered t id ≡ false
        → tail_file node i id name file limit tailed t out ≡ done left
        → left.tracker ≡ t
    unfolding tail_file
    tail_file-removed limit tailed t out left h e =
        let (start, first, later) = >>=-eq-done (start_of t id file limit) _ e in
        tail_from-removed start tailed t out left h later

module _ {M B Time : Type 0} (s : Storage M B) (node : Node Time) (i : Instance) where
  on_exit-removed :
      (id : Text) (t t' : Tracker M)
      → get_short_docker_id i.docker_id ≡ done id
      → on_exit s i t ≡ done t'
      → is_instance_registered t' id ≡ false
  unfolding on_exit apply
  on_exit-removed id t t' short h =
      let removed : remove s id t ≡ done t' = rw short at h in
      let shown = apply-Shows s (drop_instance id) t t' (own_view t) (own_view-Shows t) removed in
      ground (arith, shown.registered id, eq_refl id)

  -- Once the container of an instance has exited and `Remove` has written the tracker, a tailer of
  -- one of its files leaves the tracker as it is, whatever it still reads.
  pub tail_file-on_exit :
      (id name file : Text) (limit : Run (Result ℤ × List Notice)) (tailed : Tailed Time)
      (t t' : Tracker M) (out : Published) (left : Left M)
      → get_short_docker_id i.docker_id ≡ done id
      → on_exit s i t ≡ done t'
      → tail_file node i id name file limit tailed t' out ≡ done left
      → (left.tracker ≡ t') × (is_instance_registered t' id ≡ false)
  tail_file-on_exit id name file limit tailed t t' out left short exited h =
      let gone = on_exit-removed id t t' short exited in
      (tail_file-removed node i id name file limit tailed t' out left gone h, gone)
