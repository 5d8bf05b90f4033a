-- ===== src/Apptail/Trace.antt =====
-- The calls that the goroutines of apptail make to the tracker.
use logyard_apps.Prelude.{
  ℕ, ◌≡◌, refl, sym, ◌∙◌, ap, Bool, true, false, Option, none, some, List, [], ◌∷◌, ◌++◌, arith,
}
use logyard_apps.Prelude.Text.{Text}
use logyard_apps.Prelude.Dict.{StringSet}
use logyard_apps.Prelude.Run.{Run, done, crash, ◌>>=◌, >>=-eq-done, done-injective}
use logyard_apps.Storage.{Storage}
use logyard_apps.DockerEvents.{id_length, get_live_docker_containers}
use logyard_apps.Listener.{
  retry, is_released, tracker_clean_up, clean_live, on_event, block_until_container_stops,
}
use logyard_apps.Tracker.{Tracker, on_tick}
use logyard_apps.Tracker.Spec.{
  Op, register, initialize, move, drop_instance, keep_only, tick, apply, apply_all,
}
use logyard_apps.Instances.Started.{StartedInstance, check_instance_and_update}
use logyard_apps.Prelude.{◌+◌}
use logyard_apps.Instances.Files.{Instance, Paths, get_log_files}
use logyard_apps.Instances.Tail.{get_short_docker_id, identifier}
use logyard_apps.Instances.Tailers.{tail, on_exit}
use logyard_apps.Apptail.{
  Apptail, Handler, to_tail, to_delete, no_handler, returned, Waiter, no_waiter, to_wait, waiting,
  exited, Action, message, tails, returns, waits, wakes, docker, initializes, reads, ticks, cleans,
  instance_of, act, act_all, run_tail, run_wait, accept, run_exit, run_wake, with_tailer,
  on_message, run_return,
}
use logyard_apps.Prelude.{take}

abbrev pub short : Instance → Text
short i = take id_length i.docker_id

abbrev pub tail_ops : Handler → List Op
tail_ops (to_tail i) = register (short i) ∷ []
tail_ops other = []

abbrev pub exit_ops : Bool → Instance → List Op
exit_ops false i = []
exit_ops true i = drop_instance (short i) ∷ []

abbrev pub wake_ops : (ℕ → Bool) → Waiter → List Op
wake_ops released (waiting i ch) = exit_ops (released ch) i
wake_ops released other = []

abbrev pub tailer_ops : (Text → Op) → Option Instance → List Op
tailer_ops op none = []
tailer_ops op (some i) = op (short i) ∷ []

abbrev pub clean_ops : Run StringSet → List Op
clean_ops (crash c) = []
clean_ops (done []) = []
clean_ops (done (id ∷ ids)) = keep_only (id ∷ ids) ∷ []

abbrev pub ops_of : {M : Type 0} → Action → Apptail M → List Op
ops_of (message i) s = []
ops_of (tails k fs) s = tail_ops (s.handlers k)
ops_of (returns k) s = []
ops_of (waits k) s = []
ops_of (wakes k) s = wake_ops (is_released s.listener) (s.waiters k)
ops_of (docker evt) s = []
ops_of (initializes k file x) s =
    tailer_ops (λ id. initialize id file x) (instance_of (s.waiters k))
ops_of (reads k file x) s = tailer_ops (λ id. move id file x) (instance_of (s.waiters k))
ops_of ticks s = tick ∷ []
ops_of (cleans replies) s = clean_ops (get_live_docker_containers replies retry)

short-done : (i : Instance) (id : Text) → get_short_docker_id i.docker_id ≡ done id → id ≡ short i
unfolding get_short_docker_id
short-done i id e = ground (arith, e)

same_tracker : {M : Type 0} {s s' : Apptail M} → done s ≡ done s' → done s.tracker ≡ done s'.tracker
same_tracker e = ap (λ u. done u.tracker) (done-injective e)

module _ {M B : Type 0} (st : Storage M B) where
  -- The calls of a whole run.
  unfoldable pub ops_of_all : List Action → Apptail M → List Op
  ops_of_all [] s = []
  ops_of_all (a ∷ rest) s =
      ops_of a s ++ elim (act st a s) [ crash c ↦ [] | done s' ↦ ops_of_all rest s' ]

  pub tail_run :
      (fs : Paths) (k : ℕ) (h : Handler) (s s' : Apptail M)
      → run_tail fs k h s ≡ done s'
      → apply_all st (tail_ops h) s.tracker ≡ done s'.tracker
  unfolding run_tail tail apply_all apply
  tail_run fs k no_handler s s' e = same_tracker e
  tail_run fs k (to_tail i) s s' e =
      let (t, tailed, after) = >>=-eq-done (tail fs i s.tracker) _ e in
      let (logged, named, entered) = >>=-eq-done (identifier i) _ tailed in
      let (files, found, more) = >>=-eq-done (get_log_files fs i) _ entered in
      let (id, known, last) = >>=-eq-done (get_short_docker_id i.docker_id) _ more in
      rw (← short-done i id known) (
        ap (λ u. done u.tracker) (done-injective last)
        ∙ ap (λ u. done u.tracker) (done-injective after))
  tail_run fs k (to_delete i) s s' e = same_tracker e
  tail_run fs k returned s s' e = same_tracker e

  pub wait_run :
      (k : ℕ) (w : Waiter) (s s' : Apptail M) → run_wait k w s ≡ done s' → s'.tracker ≡ s.tracker
  unfolding run_wait
  wait_run k no_waiter s s' e = ap (λ u. u.tracker) (sym (done-injective e))
  wait_run k (to_wait i) s s' e =
      let (b, blocked, after) =
        >>=-eq-done (block_until_container_stops i.docker_id s.listener) _ e in
      ap (λ u. u.tracker) (sym (done-injective after))
  wait_run k (waiting i ch) s s' e = ap (λ u. u.tracker) (sym (done-injective e))
  wait_run k (exited i) s s' e = ap (λ u. u.tracker) (sym (done-injective e))

  pub exit_run :
      (released : Bool) (k : ℕ) (i : Instance) (s s' : Apptail M)
      → run_exit st released k i s ≡ done s'
      → apply_all st (exit_ops released i) s.tracker ≡ done s'.tracker
  unfolding run_exit on_exit apply_all apply
  exit_run false k i s s' e = same_tracker e
  exit_run true k i s s' e =
      let (t, removed, after) = >>=-eq-done (on_exit st i s.tracker) _ e in
      let (id, known, last) = >>=-eq-done (get_short_docker_id i.docker_id) _ removed in
      rw (← short-done i id known) (rw last (same_tracker after))

  pub wake_run :
      (k : ℕ) (w : Waiter) (s s' : Apptail M)
      → run_wake st k w s ≡ done s'
      → apply_all st (wake_ops (is_released s.listener) w) s.tracker ≡ done s'.tracker
  unfolding run_wake apply_all
  wake_run k no_waiter s s' e = same_tracker e
  wake_run k (to_wait i) s s' e = same_tracker e
  wake_run k (waiting i ch) s s' e = exit_run (is_released s.listener ch) k i s s' e
  wake_run k (exited i) s s' e = same_tracker e

  pub tailer_run :
      (o : Option Instance) (f : Text → Tracker M → Tracker M) (op : Text → Op) (s s' : Apptail M)
      → ((id : Text) → apply st (op id) s.tracker ≡ done (f id s.tracker))
      → with_tailer o f s ≡ done s'
      → apply_all st (tailer_ops op o) s.tracker ≡ done s'.tracker
  unfolding with_tailer apply_all
  tailer_run none f op s s' same e = same_tracker e
  tailer_run (some i) f op s s' same e =
      let (id, known, after) = >>=-eq-done (get_short_docker_id i.docker_id) _ e in
      rw (← short-done i id known) (rw (same id) (same_tracker after))

  pub clean_run :
      (r : Run StringSet) (t : Tracker M) (t' : Tracker M)
      → (r >>= λ ids. done (clean_live ids t)) ≡ done t'
      → apply_all st (clean_ops r) t ≡ done t'
  unfolding clean_live apply_all apply
  clean_run (crash c) t t' e = absurd (ground (arith, e))
  clean_run (done []) t t' e = e
  clean_run (done (id ∷ ids)) t t' e = e

  accepted_tracker :
      (i : Instance) (answer : Bool × StartedInstance) (s s' : Apptail M)
      → done (accept i answer s) ≡ done s'
      → done s.tracker ≡ done s'.tracker
  unfolding accept
  accepted_tracker i (true, started) s s' e = same_tracker e
  accepted_tracker i (false, started) s s' e = same_tracker e

  returned_tracker :
      (k : ℕ) (h : Handler) (s s' : Apptail M)
      → done (run_return k h s) ≡ done s'
      → done s.tracker ≡ done s'.tracker
  unfolding run_return
  returned_tracker k no_handler s s' e = same_tracker e
  returned_tracker k (to_tail i) s s' e = same_tracker e
  returned_tracker k (to_delete i) s s' e = same_tracker e
  returned_tracker k returned s s' e = same_tracker e

  apply_all_through :
      (xs ys : List Op) (t u : Tracker M)
      → apply_all st xs t ≡ done u
      → apply_all st (xs ++ ys) t ≡ apply_all st ys u
  unfolding apply_all
  apply_all_through [] ys t u e = ap (apply_all st ys) (done-injective e)
  apply_all_through (op ∷ xs) ys t u e =
      let (w, first, rest) = >>=-eq-done (apply st op t) (apply_all st xs) e in
      rw first (apply_all_through xs ys w u rest)

  pub act_run :
      (a : Action) (s s' : Apptail M)
      → act st a s ≡ done s'
      → apply_all st (ops_of a s) s.tracker ≡ done s'.tracker
  unfolding act apply_all apply on_message run_return tracker_clean_up
  act_run (message i) s s' e =
      accepted_tracker i (check_instance_and_update (s.n + 1) i.docker_id s.started_instances) s s'
        e
  act_run (tails k fs) s s' e = tail_run fs k (s.handlers k) s s' e
  act_run (returns k) s s' e = returned_tracker k (s.handlers k) s s' e
  act_run (waits k) s s' e = ap done (sym (wait_run k (s.waiters k) s s' e))
  act_run (wakes k) s s' e = wake_run k (s.waiters k) s s' e
  act_run (docker evt) s s' e =
      let (l, heard, after) = >>=-eq-done (on_event evt s.listener) _ e in same_tracker after
  act_run (initializes k file x) s s' e =
      tailer_run (instance_of (s.waiters k)) _ (λ id. initialize id file x) s s' (λ id. refl) e
  act_run (reads k file x) s s' e =
      tailer_run (instance_of (s.waiters k)) _ (λ id. move id file x) s s' (λ id. refl) e
  act_run ticks s s' e =
      let (t, ticked, after) = >>=-eq-done (on_tick st s.tracker) _ e in
      rw ticked (same_tracker after)
  act_run (cleans replies) s s' e =
      let (t, cleaned, after) = >>=-eq-done (tracker_clean_up replies s.tracker) _ e in
      rw (clean_run (get_live_docker_containers replies retry) s.tracker t cleaned)
        (same_tracker after)

  -- Whatever the order in which the goroutines of apptail go on, what becomes of the tracker is what
  -- the calls do that they make to it, in that order.
  pub act_all-ops_of_all :
      (actions : List Action) (s s' : Apptail M)
      → act_all st actions s ≡ done s'
      → apply_all st (ops_of_all actions s) s.tracker ≡ done s'.tracker
  unfolding act_all apply_all ops_of_all
  act_all-ops_of_all [] s s' e = same_tracker e
  act_all-ops_of_all (a ∷ rest) s s' e =
      let (mid, first, more) = >>=-eq-done (act st a s) (act_all st rest) e in
      rw (first, ops_of_all)
        (apply_all_through (ops_of a s) (ops_of_all rest mid) s.tracker mid.tracker
            (act_run a s mid first)
          ∙ act_all-ops_of_all rest mid s' more)
