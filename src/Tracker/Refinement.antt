-- ===== src/Tracker/Refinement.antt =====
-- The tracker refines its specification.
use logyard_apps.Prelude.{
  ◌≡◌, subst, Option, none, some, List, [], ◌∷◌, arith, Option-cases, inl, inr, if◌then◌else◌,
}
use logyard_apps.Prelude.Text.{Text, ◌==◌, eq_iff}
use logyard_apps.Prelude.Int.{ℤ}
use logyard_apps.Prelude.Dict.{Dict, StringSet, get, put, delete, get-put, get-delete}
use logyard_apps.Prelude.Run.{done, >>=-eq-done, done-injective, >>=-eq-done}
use logyard_apps.Storage.{TailNode, Storage}
use logyard_apps.Tracker.{
  Tracker, instances_of, register_instance, is_instance_registered, initialize_child_node, update,
  clean_up, remove, on_tick, commit, fatal_on, with_instances,
}
use logyard_apps.Tracker.CleanUp.{get-clean_up}
use logyard_apps.Tracker.Spec.{
  View, Op, register, initialize, move, drop_instance, keep_only, tick, spec, spec_all, Shows,
  apply, apply_all, stored, unbox,
}

stored-put :
    (m : Dict TailNode) (k : Text) (node : TailNode) (j d : Text)
    → stored (put m k node) j d ≡ (if k == j then unbox (get node d) else stored m j d)
stored-put m k node j d = rw get-put (ground arith)

stored_known :
    (m : Dict TailNode) (k c : Text) (node : TailNode)
    → get m k ≡ some node
    → stored m k c ≡ unbox (get node c)
stored_known m k c node e = rw e

module _ {M : Type 0} where
  pub register-Shows :
      (t : Tracker M) (v : View) (k : Text)
      → Shows t v
      → Shows (register_instance k t) (spec (register k) v)
  unfolding register_instance is_instance_registered get
  register-Shows t v k h = record {
    registered = λ j.
        ground (arith, get-put (instances_of t) k j [], h.registered j, h.registered k, eq_iff k j);
    offset = λ j d.
        ground (arith, get-put (instances_of t) k j [], h.registered k, h.offset j d, eq_iff k j);
  }

  pub initialize-Shows :
      (t : Tracker M) (v : View) (k c : Text) (x : ℤ)
      → Shows t v
      → Shows (initialize_child_node k c x t) (spec (initialize k c x) v)
  unfolding initialize_child_node is_instance_registered
  initialize-Shows t v k c x h = elim (Option-cases (get (instances_of t) k)) [
    | inl e ↦ rw e (record {
      registered = h.registered;
      offset = λ j d. ground (arith, h.offset j d, h.registered k);
    })
    | inr (node, e) ↦
        let node' = put node c (record { v = x }) in
        rw e (record {
          registered =
              λ j. ground (arith, get-put (instances_of t) k j node', h.registered j, eq_iff k j);
          offset = λ j d. ground (
            arith,
            stored-put (instances_of t) k node' j d,
            get-put node c d (record { v = x }),
            h.offset j d,
            h.offset k c,
            h.registered k,
            eq_iff k j,
            eq_iff c d,
          );
        })
  ]

  pub update-Shows :
      (t : Tracker M) (v : View) (k c : Text) (x : ℤ)
      → Shows t v
      → Shows (update k c x t) (spec (move k c x) v)
  unfolding update is_instance_registered
  update-Shows t v k c x h = elim (Option-cases (get (instances_of t) k)) [
    | inl e ↦ rw e (record {
      registered = h.registered;
      offset = λ j d. ground (arith, h.offset j d, h.offset k c);
    })
    | inr (node, e) ↦
        let node' = put node c (record { v = x }) in
        rw e (record {
          registered =
              λ j. ground (arith, get-put (instances_of t) k j node', h.registered j, eq_iff k j);
          offset = λ j d. ground (
            arith,
            stored-put (instances_of t) k node' j d,
            get-put node c d (record { v = x }),
            h.offset j d,
            h.offset k c,
            eq_iff k j,
            eq_iff c d,
          );
        })
  ]

  pub clean_up-Shows :
      (t : Tracker M) (v : View) (ids : StringSet)
      → Shows t v
      → Shows (clean_up ids t) (spec (keep_only ids) v)
  unfolding is_instance_registered
  clean_up-Shows t v ids h = record {
    registered = λ j. ground (arith, get-clean_up ids t j, h.registered j);
    offset = λ j d. ground (arith, get-clean_up ids t j, h.offset j d);
  }

  pub delete-Shows :
      (t : Tracker M) (v : View) (k : Text)
      → Shows t v
      → Shows (with_instances t (delete (instances_of t) k)) (spec (drop_instance k) v)
  unfolding is_instance_registered
  delete-Shows t v k h = record {
    registered = λ j. ground (arith, get-delete (instances_of t) k j, h.registered j);
    offset = λ j d. ground (arith, get-delete (instances_of t) k j, h.offset j d);
  }

  Shows-of_cached : (t t' : Tracker M) (v : View) → t'.cached ≡ t.cached → Shows t v → Shows t' v
  unfolding is_instance_registered
  Shows-of_cached t t' v e h = record {
    registered = λ j. rw e (h.registered j);
    offset = λ j d. rw e (h.offset j d);
  }

module _ {M B : Type 0} (s : Storage M B) where
  -- Writing the cache out leaves it as it was.
  pub cached-commit : (t : Tracker M) → (commit s t).1.cached ≡ t.cached
  unfolding commit
  cached-commit t = ground arith

  fatal_on-eq-done :
      (r : Option Text × Tracker M) (t' : Tracker M) → fatal_on r ≡ done t' → r.1 ≡ t'
  fatal_on-eq-done (none, t) t' e = cc
  fatal_on-eq-done (some x, t) t' e = cc

  cached-fatal_on-commit :
      (t t' : Tracker M) → fatal_on (commit s t) ≡ done t' → t'.cached ≡ t.cached
  cached-fatal_on-commit t t' e =
      subst (λ u. u.cached ≡ t.cached) (fatal_on-eq-done (commit s t) t' e) (cached-commit t)

  pub apply-Shows :
      (op : Op) (t t' : Tracker M) (v : View)
      → Shows t v
      → apply s op t ≡ done t'
      → Shows t' (spec op v)
  unfolding apply remove on_tick
  apply-Shows (register k) t t' v h e =
      subst (λ u. Shows u (spec (register k) v)) (done-injective e) (register-Shows t v k h)
  apply-Shows (initialize k c x) t t' v h e =
      subst (λ u. Shows u (spec (initialize k c x) v)) (done-injective e)
        (initialize-Shows t v k c x h)
  apply-Shows (move k c x) t t' v h e =
      subst (λ u. Shows u (spec (move k c x) v)) (done-injective e) (update-Shows t v k c x h)
  apply-Shows (drop_instance k) t t' v h e =
      Shows-of_cached _ t' _ (cached-fatal_on-commit _ t' e) (delete-Shows t v k h)
  apply-Shows (keep_only ids) t t' v h e =
      subst (λ u. Shows u (spec (keep_only ids) v)) (done-injective e) (clean_up-Shows t v ids h)
  apply-Shows tick t t' v h e = Shows-of_cached t t' v (cached-fatal_on-commit t t' e) h

  -- After any sequence of calls that does not stop the process, the tracker looks as the
  -- specification says: one flag for each instance, one offset for each file.
  pub apply_all-Shows :
      (ops : List Op) (t t' : Tracker M) (v : View)
      → Shows t v
      → apply_all s ops t ≡ done t'
      → Shows t' (spec_all ops v)
  unfolding apply_all
  apply_all-Shows [] t t' v h e = subst (λ u. Shows u v) (done-injective e) h
  apply_all-Shows (op ∷ ops) t t' v h e =
      let (u, first, rest) = >>=-eq-done (apply s op t) (apply_all s ops) e in
      apply_all-Shows ops u t' (spec op v) (apply-Shows op t u v h first) rest
