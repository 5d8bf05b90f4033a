-- ===== src/Apptail/Alone.antt =====
-- A tailer that goes on without a break, as actions of apptail (`tailFile` and `readFromTail` of
-- apptail/instance.go).
use logyard_apps.Prelude.{
  ℕ, ◌≡◌, refl, ap, ◌∙◌, subst, Bool, true, false, some, List, [], ◌∷◌, ◌++◌, Bool-cases, inl, inr,
}
use logyard_apps.Prelude.Text.{Text}
use logyard_apps.Prelude.Int.{ℤ}
use logyard_apps.Prelude.Run.{Result, ok, err, Run, done, ◌>>=◌, >>=-eq-done, done-injective}
use logyard_apps.Storage.{Storage}
use logyard_apps.Tracker.{Tracker, update}
use logyard_apps.Sieve.Event.{Published}
use logyard_apps.Instances.Limit.{Notice}
use logyard_apps.Instances.Files.{Instance}
use logyard_apps.Instances.Line.{Node, publish_line}
use logyard_apps.Instances.Tail.{
  Feed, line_read, lines_closed, stopped, Start, get_short_docker_id, initial_offset, start_of,
  register_start, read_from_tail,
}
use logyard_apps.Instances.Tailers.{
  Tailed, refused, opened, Left, tail_file, tail_from, read_tailed,
}
use logyard_apps.Apptail.{
  Apptail, Action, initializes, reads, instance_of, with_tailer, act, act_all,
}

abbrev pub reads_of : {Time : Type 0} → ℕ → Text → List (Feed Time) → List Action
reads_of k file [] = []
reads_of k file (lines_closed ∷ rest) = []
reads_of k file (stopped ∷ rest) = []
reads_of k file (line_read line offset ∷ rest) = reads k file offset ∷ reads_of k file rest

abbrev pub tailed_reads : {Time : Type 0} → ℕ → Text → Tailed Time → List Action
tailed_reads k file (refused e) = []
tailed_reads k file (opened feed end) = reads_of k file feed

abbrev pub registers : ℕ → Text → Bool → List Action
registers k file true = initializes k file initial_offset ∷ []
registers k file false = []

-- What a tailer does to the tracker, by where it starts and what package tail gives it.
abbrev pub calls_of :
    {Time : Type 0} → ℕ → Text → Result Start × List Notice → Tailed Time → List Action
calls_of k file (err e, notices) tailed = []
calls_of k file (ok start, notices) tailed =
    registers k file start.should_initialize ++ tailed_reads k file tailed

module _ {M B Time : Type 0} (st : Storage M B) (node : Node Time) (i : Instance) where
  module _ (id name file : Text) (k : ℕ) (known : get_short_docker_id i.docker_id ≡ done id) where
    read_alone :
        (feed : List (Feed Time)) (s : Apptail M) (t : Tracker M) (out out' : Published)
        → instance_of (s.waiters k) ≡ some i
        → read_from_tail node i id name file feed s.tracker out ≡ done (t, out')
        → act_all st (reads_of k file feed) s ≡ done (record s { tracker = t })
    unfolding act_all act with_tailer read_from_tail
    read_alone [] s t out out' own e =
        ap (λ p. done (record s { tracker = p.0 })) (done-injective e)
    read_alone (lines_closed ∷ rest) s t out out' own e =
        ap (λ p. done (record s { tracker = p.0 })) (done-injective e)
    read_alone (stopped ∷ rest) s t out out' own e =
        ap (λ p. done (record s { tracker = p.0 })) (done-injective e)
    read_alone (line_read line offset ∷ rest) s t out out' own e =
        let (mid, published, later) = >>=-eq-done (publish_line node i name line out) _ e in
        rw (own, known)
          (read_alone rest (record s { tracker = update id file offset s.tracker }) t mid out' own
            later)

    tailed_alone :
        (tailed : Tailed Time) (s : Apptail M) (left : Left M) (out : Published)
        → (notices : List Notice) → instance_of (s.waiters k) ≡ some i
        → read_tailed node i id name file tailed s.tracker out notices ≡ done left
        → act_all st (tailed_reads k file tailed) s ≡ done (record s { tracker = left.tracker })
    unfolding act_all read_tailed
    tailed_alone (refused e) s left out notices own h =
        ap (λ l. done (record s { tracker = l.tracker })) (done-injective h)
    tailed_alone (opened feed end) s left out notices own h =
        let ((t, out'), read, after) =
          >>=-eq-done (read_from_tail node i id name file feed s.tracker out) _ h in
        read_alone feed s t out out' own read
        ∙ ap (λ l. done (record s { tracker = l.tracker })) (done-injective after)

    registered_alone :
        (start : Start) (rest : List Action) (s : Apptail M)
        → instance_of (s.waiters k) ≡ some i
        → act_all st (registers k file start.should_initialize ++ rest) s
          ≡ act_all st rest (record s { tracker = register_start start id file s.tracker })
    unfolding act_all act with_tailer register_start
    registered_alone start rest s own = elim (Bool-cases start.should_initialize) [
      | inl new ↦ rw (new, own, known) refl
      | inr old ↦ rw old refl
    ]

    started_alone :
        (start : Result Start × List Notice) (tailed : Tailed Time) (s : Apptail M) (left : Left M)
        → (out : Published) → instance_of (s.waiters k) ≡ some i
        → tail_from node i id name file start tailed s.tracker out ≡ done left
        → act_all st (calls_of k file start tailed) s ≡ done (record s { tracker = left.tracker })
    unfolding act_all tail_from
    started_alone (err e, notices) tailed s left out own h =
        ap (λ l. done (record s { tracker = l.tracker })) (done-injective h)
    started_alone (ok start, notices) tailed s left out own h =
        registered_alone start (tailed_reads k file tailed) s own
        ∙ tailed_alone tailed (record s { tracker = register_start start id file s.tracker }) left
            out notices own h

    -- What `tailFile` does to the tracker when nothing comes between, apptail does by these actions of
    -- a tailer of the same instance: the file is initialized where the start says so, then moved to the offset after
    -- each line that is read before the end.
    pub tail_file-act_all :
        (limit : Run (Result ℤ × List Notice)) (start : Result Start × List Notice)
        → (tailed : Tailed Time) (s : Apptail M) (left : Left M) (out : Published)
        → instance_of (s.waiters k) ≡ some i
        → start_of s.tracker id file limit ≡ done start
        → tail_file node i id name file limit tailed s.tracker out ≡ done left
        → act_all st (calls_of k file start tailed) s ≡ done (record s { tracker = left.tracker })
    unfolding tail_file
    tail_file-act_all limit start tailed s left out own at h =
        started_alone start tailed s left out own (
          subst (λ r. (r >>= λ f. tail_from node i id name file f tailed s.tracker out) ≡ done left)
            at h)
