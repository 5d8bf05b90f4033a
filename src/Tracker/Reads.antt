-- ===== src/Tracker/Reads.antt =====
-- What the queries of a tracker return, against its specification.
use logyard_apps.Prelude.{◌≡◌, refl, Bool, true, false, Option, none, some, List, [], ◌∷◌, arith}
use logyard_apps.Prelude.Text.{Text}
use logyard_apps.Prelude.Int.{ℤ, pos}
use logyard_apps.Prelude.Dict.{is_some}
use logyard_apps.Prelude.Run.{ok, Run, done, crash, nil_pointer}
use logyard_apps.Storage.{Tailer, Storage}
use logyard_apps.Tracker.{
  fatal_on, Tracker, is_instance_registered, is_child_node_initialized, get_file_cached_offset,
  commit, remove, on_tick,
}
use logyard_apps.Tracker.Spec.{
  View, Op, register, initialize, move, drop_instance, keep_only, tick, Shows, apply, apply_all,
}

-- The offset that `GetFileCachedOffset` should return: 0 for an instance that is not registered, the
-- stored offset otherwise; there is no answer for a file that was not initialized.
abbrev pub answer : Bool → Option ℤ → Run ℤ
answer false o = done (pos 0)
answer true none = crash nil_pointer
answer true (some x) = done x

module _ {M : Type 0} where
  -- A file is initialized exactly when the specification has an offset for it.
  pub is_child_node_initialized-Shows :
      (t : Tracker M) (v : View) (k c : Text)
      → Shows t v
      → is_child_node_initialized t k c ≡ is_some (v.offset k c)
  unfolding is_child_node_initialized
  is_child_node_initialized-Shows t v k c h = ground (arith, h.offset k c)

  -- `GetFileCachedOffset` returns 0 for an unregistered instance, the stored offset for an
  -- initialized file, and dereferences nil for any other file of a registered instance.
  pub get_file_cached_offset-Shows :
      (t : Tracker M) (v : View) (k c : Text)
      → Shows t v
      → get_file_cached_offset t k c ≡ answer (v.registered k) (v.offset k c)
  unfolding get_file_cached_offset is_instance_registered
  get_file_cached_offset-Shows t v k c h = ground (arith, h.registered k, h.offset k c)

-- A storage that neither fails to encode nor to write.
record NeverFails {M B : Type 0} (s : Storage M B) : Type 0 where
  pub encodes : (t : Tailer) → (bytes : B) × (s.encode t ≡ ok bytes)
  pub writes : (m : M) (bytes : B) → (s.write m bytes).0 ≡ none

module _ {M B : Type 0} (s : Storage M B) where
  commit_total :
      NeverFails s → (t : Tracker M) → (t' : Tracker M) × (fatal_on (commit s t) ≡ done t')
  unfolding commit
  commit_total n t =
      let (bytes, e) = n.encodes t.cached in
      (record t { medium = (s.write t.medium bytes).1 }, ground (arith, n.writes t.medium bytes))

  apply_total :
      NeverFails s → (op : Op) (t : Tracker M) → (t' : Tracker M) × (apply s op t ≡ done t')
  unfolding apply remove on_tick
  apply_total n (register k) t = (_, refl)
  apply_total n (initialize k c x) t = (_, refl)
  apply_total n (move k c x) t = (_, refl)
  apply_total n (keep_only ids) t = (_, refl)
  apply_total n (drop_instance k) t = commit_total n _
  apply_total n tick t = commit_total n t

  -- With a storage that never fails no sequence of calls stops the process.
  apply_all_total :
      NeverFails s
      → (ops : List Op) (t : Tracker M) → (t' : Tracker M) × (apply_all s ops t ≡ done t')
  unfolding apply_all
  apply_all_total n [] t = (t, refl)
  apply_all_total n (op ∷ ops) t =
      let (u, first) = apply_total n op t in
      let (t', rest) = apply_all_total n ops u in (t', rw first rest)
