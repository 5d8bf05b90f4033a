-- ===== src/Apptail/Restart.antt =====
-- What is left when the process of apptail ends.
use logyard_apps.Prelude.{
  ◌≡◌, refl, subst, Bool, true, false, Option, none, some, All, List, [], ◌∷◌, ◌++◌, arith,
}
use logyard_apps.Prelude.Text.{Text}
use logyard_apps.Prelude.Run.{Run, done, crash, >>=-eq-done}
use logyard_apps.Storage.{Storage, IsPersistent}
use logyard_apps.DockerEvents.{get_live_docker_containers}
use logyard_apps.Prelude.Dict.{StringSet}
use logyard_apps.Listener.{retry}
use logyard_apps.Tracker.{new_tracker, load_tailers}
use logyard_apps.Tracker.Spec.{
  Op, initialize, move, tick, Shows, own_view, own_view-Shows, apply_all,
}
use logyard_apps.Tracker.Durable.{commits, NeverCommits, load-apply_all-Shows}
use logyard_apps.Instances.Files.{Instance}
use logyard_apps.Apptail.{
  Apptail, Handler, to_tail, to_delete, no_handler, returned, Action, message, tails, returns,
  waits, wakes, docker, initializes, reads, ticks, cleans, instance_of, act, act_all,
}
use logyard_apps.Apptail.Trace.{
  ops_of, ops_of_all, tail_ops, tailer_ops, clean_ops, act_all-ops_of_all,
}

-- The action is no tick of the timer, and no step of a goroutine that waits.
abbrev pub is_volatile : Action → Bool
is_volatile ticks = false
is_volatile (wakes k) = false
is_volatile other = true

never_append : (xs ys : List Op) → NeverCommits xs → NeverCommits ys → NeverCommits (xs ++ ys)
never_append [] ys p q = q
never_append (x ∷ xs) ys (h, p) q = (h, never_append xs ys p q)

tailer_never :
    (op : Text → Op) (o : Option Instance)
    → ((id : Text) → commits (op id) ≡ false)
    → NeverCommits (tailer_ops op o)
tailer_never op none h = tt
tailer_never op (some i) h = (h _, tt)

tail_never : (h : Handler) → NeverCommits (tail_ops h)
tail_never no_handler = tt
tail_never (to_tail i) = (refl, tt)
tail_never (to_delete i) = tt
tail_never returned = tt

clean_never : (r : Run StringSet) → NeverCommits (clean_ops r)
clean_never (crash c) = tt
clean_never (done []) = tt
clean_never (done (id ∷ ids)) = (refl, tt)

ops_never :
    {M : Type 0} (a : Action) (s : Apptail M) → is_volatile a ≡ true → NeverCommits (ops_of a s)
ops_never (message i) s h = tt
ops_never (tails k fs) s h = tail_never (s.handlers k)
ops_never (returns k) s h = tt
ops_never (waits k) s h = tt
ops_never (wakes k) s h = absurd (ground (arith, h))
ops_never (docker evt) s h = tt
ops_never (initializes k file x) s h =
    tailer_never (λ id. initialize id file x) (instance_of (s.waiters k)) (λ id. refl)
ops_never (reads k file x) s h =
    tailer_never (λ id. move id file x) (instance_of (s.waiters k)) (λ id. refl)
ops_never ticks s h = absurd (ground (arith, h))
ops_never (cleans replies) s h = clean_never (get_live_docker_containers replies retry)

module _ {M B : Type 0} (st : Storage M B) where
  run_never :
      (actions : List Action) (s s' : Apptail M)
      → All (λ a. is_volatile a ≡ true) actions
      → act_all st actions s ≡ done s'
      → NeverCommits (ops_of_all st actions s)
  unfolding ops_of_all act_all
  run_never [] s s' q e = tt
  run_never (a ∷ rest) s s' (q, qs) e =
      let (mid, first, more) = >>=-eq-done (act st a s) (act_all st rest) e in
      rw first (
        never_append (ops_of a s) (ops_of_all st rest mid) (ops_never a s q)
          (run_never rest mid s' qs more))

  -- Whatever the goroutines of apptail did before a tick of the timer, and whatever they do after it
  -- without a further tick and before a goroutine that waits goes on: if the process ends then, a
  -- tracker that loads the storage has the instances and offsets from before the tick, where the
  -- storage keeps what was written without an error.
  pub restarted_as_ticked :
      (persistent : IsPersistent st) (later : List Action) (s s' : Apptail M)
      → All (λ a. is_volatile a ≡ true) later
      → act_all st (ticks ∷ later) s ≡ done s'
      → Shows (load_tailers st (new_tracker s'.tracker.medium)) (own_view s.tracker)
  unfolding act_all ops_of_all
  restarted_as_ticked persistent later s s' q e =
      let (mid, first, more) = >>=-eq-done (act st ticks s) (act_all st later) e in
      let calls = act_all-ops_of_all st (ticks ∷ later) s s' e in
      let calls' =
        subst
          (λ r.
            apply_all st (tick ∷ elim r [ crash c ↦ [] | done u ↦ ops_of_all st later u ]) s.tracker
            ≡ done s'.tracker)
          first calls in
      load-apply_all-Shows st persistent [] tick (ops_of_all st later mid) s.tracker s'.tracker
        (own_view s.tracker) refl (run_never later mid s' q more) (own_view-Shows s.tracker) calls'
