-- ===== src/Tracker/Durable.antt =====
-- What a restart of apptail brings back after an end at any moment.
use logyard_apps.Prelude.{
  ◌≡◌, refl, ◌∙◌, subst, Bool, true, false, Option, none, some, List, [], ◌∷◌, ◌++◌, arith,
}
use logyard_apps.Prelude.Text.{Text}
use logyard_apps.Prelude.Run.{done, >>=-eq-done, done-injective}
use logyard_apps.Prelude.Dict.{delete}
use logyard_apps.Storage.{Storage, IsPersistent}
use logyard_apps.Tracker.{
  Tracker, instances_of, with_instances, register_instance, initialize_child_node, update, clean_up,
  remove, on_tick, commit, fatal_on, load_tailers, new_tracker,
}
use logyard_apps.Tracker.Spec.{
  View, Op, register, initialize, move, drop_instance, keep_only, tick, spec, spec_all, Shows,
  apply, apply_all,
}
use logyard_apps.Tracker.Refinement.{apply_all-Shows, delete-Shows}
use logyard_apps.Tracker.Restart.{load-commit-Shows}

-- The calls that write the tracker to the storage.
abbrev pub commits : Op → Bool
commits tick = true
commits (drop_instance k) = true
commits other = false

abbrev pub NeverCommits : List Op → Type 0
NeverCommits [] = Unit
NeverCommits (op ∷ ops) = (commits op ≡ false) × NeverCommits ops

module _ {M B : Type 0} (s : Storage M B) where
  medium-apply :
      (op : Op) (t t' : Tracker M)
      → commits op ≡ false
      → apply s op t ≡ done t'
      → t'.medium ≡ t.medium
  unfolding apply register_instance initialize_child_node update clean_up
  medium-apply (register k) t t' q e = ground (arith, e)
  medium-apply (initialize k c x) t t' q e = ground (arith, e)
  medium-apply (move k c x) t t' q e = ground (arith, e)
  medium-apply (drop_instance k) t t' q e = absurd (ground (arith, q))
  medium-apply (keep_only ids) t t' q e = ground (arith, e)
  medium-apply tick t t' q e = absurd (ground (arith, q))

  medium-apply_all :
      (ops : List Op) (t t' : Tracker M)
      → NeverCommits ops
      → apply_all s ops t ≡ done t'
      → t'.medium ≡ t.medium
  unfolding apply_all
  medium-apply_all [] t t' q e = ground (arith, e)
  medium-apply_all (op ∷ ops) t t' (q, qs) e =
      let (u, first, rest) = >>=-eq-done (apply s op t) (apply_all s ops) e in
      medium-apply_all ops u t' qs rest ∙ medium-apply op t u q first

  apply_all-append :
      (xs ys : List Op) (t t' : Tracker M)
      → apply_all s (xs ++ ys) t ≡ done t'
      → (u : Tracker M) × (apply_all s xs t ≡ done u) × (apply_all s ys u ≡ done t')
  unfolding apply_all
  apply_all-append [] ys t t' e = (t, refl, e)
  apply_all-append (op ∷ xs) ys t t' e =
      let (w, first, rest) = >>=-eq-done (apply s op t) (apply_all s (xs ++ ys)) e in
      let (u, front, back) = apply_all-append xs ys w t' rest in (u, rw first front, back)

  fatal_on-done :
      (r : Option Text × Tracker M) (t : Tracker M) → fatal_on r ≡ done t → (r.0 ≡ none) × (r.1 ≡ t)
  fatal_on-done (none, u) t e = (refl, done-injective e)
  fatal_on-done (some x, u) t e = absurd (ground (arith, e))

  -- A call that commits has written what the tracker then looks like.
  committed :
      (persistent : IsPersistent s) (op : Op) (t t' : Tracker M) (v : View)
      → commits op ≡ true
      → Shows t v
      → apply s op t ≡ done t'
      → Shows (load_tailers s (new_tracker t'.medium)) (spec op v)
  unfolding apply on_tick remove
  committed persistent tick t t' v q h e =
      let (well, same) = fatal_on-done (commit s t) t' e in
      subst (λ u. Shows (load_tailers s (new_tracker u.medium)) v) same
        (load-commit-Shows s persistent t v h well)
  committed persistent (drop_instance k) t t' v q h e =
      let gone = with_instances t (delete (instances_of t) k) in
      let (well, same) = fatal_on-done (commit s gone) t' e in
      subst (λ u. Shows (load_tailers s (new_tracker u.medium)) (spec (drop_instance k) v)) same
        (load-commit-Shows s persistent gone (spec (drop_instance k) v) (delete-Shows t v k h) well)
  committed persistent (register k) t t' v q h e = absurd (ground (arith, q))
  committed persistent (initialize k c x) t t' v q h e = absurd (ground (arith, q))
  committed persistent (move k c x) t t' v q h e = absurd (ground (arith, q))
  committed persistent (keep_only ids) t t' v q h e = absurd (ground (arith, q))

  -- Wherever the process ends, a new tracker that loads the storage looks as the old one did right
  -- after its last call that committed, a tick of the timer or the removal of an instance: of what
  -- was committed nothing is lost, and of what came later nothing is there.
  pub load-apply_all-Shows :
      (persistent : IsPersistent s) (before : List Op) (op : Op) (after : List Op)
      (t t' : Tracker M) (v : View)
      → commits op ≡ true
      → NeverCommits after
      → Shows t v
      → apply_all s (before ++ op ∷ after) t ≡ done t'
      → Shows (load_tailers s (new_tracker t'.medium)) (spec op (spec_all before v))
  unfolding apply_all
  load-apply_all-Shows persistent before op after t t' v c q h e =
      let (u, front, back) = apply_all-append before (op ∷ after) t t' e in
      let (w, commit_it, rest) = >>=-eq-done (apply s op u) (apply_all s after) back in
      rw (medium-apply_all after w t' q rest) (
        committed persistent op u w (spec_all before v) c (apply_all-Shows s before t u v h front)
          commit_it)
