-- ===== src/Tracker/Restart.antt =====
-- A restart of apptail: a new tracker loads what the last commit of the old one wrote.
use logyard_apps.Prelude.{◌≡◌, ap, ◌∙◌, true, none, some, arith, inl, inr}
use logyard_apps.Prelude.Text.{Text, eq_refl}
use logyard_apps.Prelude.Int.{ℤ}
use logyard_apps.Prelude.Run.{done, Result-cases}
use logyard_apps.Storage.{Storage, IsPersistent}
use logyard_apps.Tracker.{
  Tracker, is_instance_registered, get_file_cached_offset, initialize_child_node, register_instance,
  commit, load_tailers, new_tracker,
}
use logyard_apps.Tracker.Spec.{View, Shows, unbox}
use logyard_apps.Tracker.Reads.{get_file_cached_offset-Shows}
use logyard_apps.Tracker.Refinement.{register-Shows, initialize-Shows}

module _ {M B : Type 0} (s : Storage M B) (persistent : IsPersistent s) where
  -- After a commit without an error, a new tracker that loads the medium shows the same instances
  -- and offsets as the old one.
  pub load-commit-Shows :
      (t : Tracker M) (v : View)
      → Shows t v
      → (commit s t).0 ≡ none
      → Shows (load_tailers s (new_tracker (commit s t).1.medium)) v
  unfolding commit load_tailers new_tracker is_instance_registered
  load-commit-Shows t v h written = elim (Result-cases (s.encode t.cached)) [
    | inl (bytes, e) ↦
        let same = persistent.reload t.cached bytes t.medium e (ground arith) in
        rw e (record {
          registered = λ j. same.instances j ∙ h.registered j;
          offset = λ j d. ap unbox (same.offsets j d) ∙ h.offset j d;
        })
    | inr (x, e) ↦ absurd (ground arith)
  ]

  -- A file whose offset was committed is resumed there: after the restart the registration and the
  -- initialization that run again for the instance keep the offset.
  pub resume :
      (t : Tracker M) (v : View) (k c : Text) (x y : ℤ)
      → Shows t v
      → v.registered k ≡ true
      → v.offset k c ≡ some x
      → (commit s t).0 ≡ none
      → get_file_cached_offset
          (initialize_child_node k c y
            (register_instance k (load_tailers s (new_tracker (commit s t).1.medium))))
          k
          c
        ≡ done x
  resume t v k c x y h registered offset written =
      get_file_cached_offset-Shows _ _ k c
        (initialize-Shows _ _ k c y (register-Shows _ v k (load-commit-Shows t v h written)))
      ∙ ground (arith, eq_refl k, eq_refl c)
