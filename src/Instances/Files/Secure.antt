-- ===== src/Instances/Files/Secure.antt =====
-- The paths that are tailed stay below the root of the instance, and are few.
use logyard_apps.Prelude.{
  ◌+◌, ◌≤◌, ◌≡◌, refl, subst, ap, inl, inr, true, Bool-cases, List, [], ◌∷◌, arith, length, All,
}
use logyard_apps.Prelude.Text.{Text, ◌==◌, has_prefix}
use logyard_apps.Prelude.Dict.{Dict, put}
use logyard_apps.Prelude.Run.{Result, ok, err, done, >>=-eq-done, done-injective}
use logyard_apps.Instances.Limit.{Notice}
use logyard_apps.Instances.Files.{
  Paths, Instance, get_log_files, listed_files, secured, secure_each, add_absolute, add_resolved,
}

-- The path lies below the root by its text, and is what the file system resolved another path to.
abbrev pub IsBelow : Paths → Text → Text × Text → Type 0
IsBelow fs root entry =
    (has_prefix entry.1 root ≡ true) × ((p : Text) × (fs.eval_symlinks p ≡ ok entry.1))

put-All {κ} :
    {V : Type 0} (P : Text × V → Type κ) (m : Dict V) (k : Text) (v : V)
    → P (k, v)
    → All P m
    → All P (put m k v)
unfolding put
put-All P [] k v p h = (p, tt)
put-All P ((j, w) ∷ m) k v p (first, h) = elim (Bool-cases (j == k)) [
  | inl same ↦ rw (same, put) (p, h)
  | inr other ↦ rw (other, put) (first, put-All P m k v p h)
]

pub length-put : {V : Type 0} (m : Dict V) (k : Text) (v : V) → length (put m k v) ≤ length m + 1
unfolding put
length-put [] k v = omega arith
length-put ((j, w) ∷ m) k v = ground (arith, length-put m k v)

module _ (fs : Paths) (root : Text) where
  add_resolved-All :
      (name path fullpath : Text) (r : Result Text) (secure : Dict Text)
      → fs.eval_symlinks fullpath ≡ r
      → All (IsBelow fs root) secure
      → All (IsBelow fs root) (add_resolved root name path r secure).0
  unfolding add_resolved
  add_resolved-All name path fullpath (err e) secure found h = h
  add_resolved-All name path fullpath (ok p) secure found h =
      elim (Bool-cases (has_prefix p root)) [
        | inl below ↦
            rw (below, add_resolved)
              (put-All (IsBelow fs root) secure name p (below, (fullpath, found)) h)
        | inr out ↦ rw (out, add_resolved) h
      ]

  add_absolute-All :
      (name path : Text) (r : Result Text) (secure : Dict Text)
      → All (IsBelow fs root) secure
      → All (IsBelow fs root) (add_absolute fs root name path r secure).0
  unfolding add_absolute
  add_absolute-All name path (err e) secure h = h
  add_absolute-All name path (ok p) secure h = add_resolved-All name path p _ secure refl h

  secure_each-All :
      (logfiles secure : Dict Text)
      → All (IsBelow fs root) secure
      → All (IsBelow fs root) (secure_each fs root logfiles secure).0
  unfolding secure_each
  secure_each-All [] secure h = h
  secure_each-All ((name, path) ∷ rest) secure h =
      secure_each-All rest _ (add_absolute-All name path _ secure h)

-- Whatever the files of an instance are called, each path that is tailed was resolved by the file
-- system and begins with the root of the instance.
pub get_log_files-IsBelow :
    (fs : Paths) (i : Instance) (files : Dict Text) (notices : List Notice)
    → get_log_files fs i ≡ done (files, notices)
    → All (IsBelow fs i.root_path) files
unfolding get_log_files secured
get_log_files-IsBelow fs i files notices h =
    let ((logfiles, n), listed, same) = >>=-eq-done (listed_files fs i) _ h in
    let files_eq : (secure_each fs i.root_path logfiles []).0 ≡ files =
      ap (λ p. p.0) (done-injective same) in
    subst (All (IsBelow fs i.root_path)) files_eq (secure_each-All fs i.root_path logfiles [] tt)
