-- ===== src/Instances/Files/Few.antt =====
-- How many files an application can have tailed by its environment.
use logyard_apps.Prelude.{
  ◌+◌, ◌-◌, ◌≤◌, ◌≡◌, ap, subst, inl, inr, Bool-cases, Option, none, some, List, [], ◌∷◌, arith,
  length, length-drop, drop, ltb,
}
use logyard_apps.Prelude.Text.{Text}
use logyard_apps.Prelude.Dict.{Dict}
use logyard_apps.Prelude.Run.{Result, ok, err, done, >>=-eq-done, done-injective}
use logyard_apps.Instances.Limit.{Notice, many_logs}
use logyard_apps.Instances.Files.{
  Paths, Instance, get_log_files, get_docker_app_env, listed_files, secured, secure_each,
  add_absolute, add_resolved, add_entries, add_entry, from_parts, from_env, from_variable,
  with_notices, max_logs, split, split_two,
}
use logyard_apps.Instances.Files.Secure.{length-put}

length-add_resolved :
    (root name path : Text) (r : Result Text) (secure : Dict Text)
    → length (add_resolved root name path r secure).0 ≤ length secure + 1
unfolding add_resolved
length-add_resolved root name path (err e) secure = omega arith
length-add_resolved root name path (ok p) secure = ground (arith, length-put secure name p)

length-add_absolute :
    (fs : Paths) (root name path : Text) (r : Result Text) (secure : Dict Text)
    → length (add_absolute fs root name path r secure).0 ≤ length secure + 1
unfolding add_absolute
length-add_absolute fs root name path (err e) secure = omega arith
length-add_absolute fs root name path (ok p) secure = length-add_resolved root name path _ secure

length-secure_each :
    (fs : Paths) (root : Text) (logfiles secure : Dict Text)
    → length (secure_each fs root logfiles secure).0 ≤ length logfiles + length secure
unfolding secure_each
length-secure_each fs root [] secure = omega arith
length-secure_each fs root ((name, path) ∷ rest) secure = omega (
  arith,
  length-secure_each fs root rest (add_absolute fs root name path _ secure).0,
  length-add_absolute fs root name path _ secure,
)

length-add_entry :
    (e : Text × Option Text) (l l' : Dict Text) → add_entry e l ≡ done l' → length l' ≤ length l + 1
unfolding add_entry
length-add_entry (name, none) l l' h = absurd (ground (arith, h))
length-add_entry (name, some path) l l' h =
    subst (λ m. length m ≤ length l + 1) (done-injective h) (length-put l name path)

length-add_entries :
    (parts : List Text) (l l' : Dict Text)
    → add_entries parts l ≡ done l'
    → length l' ≤ length parts + length l
unfolding add_entries
length-add_entries [] l l' h = subst (λ m. length m ≤ 0 + length l) (done-injective h) (omega arith)
length-add_entries (f ∷ rest) l l' h =
    let (m, first, later) = >>=-eq-done (add_entry (split_two 61 f) l) _ h in
    omega (arith, length-add_entry (split_two 61 f) l m first, length-add_entries rest m l' later)

length-with_notices :
    (n n' : List Notice) (parts : List Text) (l : Dict Text)
    → length parts ≤ max_logs
    → with_notices n (add_entries parts []) ≡ done (l, n')
    → length l ≤ max_logs
unfolding with_notices
length-with_notices n n' parts l small h =
    let (m, first, same) = >>=-eq-done (add_entries parts []) _ h in
    let bound = length-add_entries parts [] m first in
    subst (λ d. length d ≤ max_logs) (ap (λ p. p.0) (done-injective same)) (omega (arith, bound))

length-from_parts :
    (parts : List Text) (l : Dict Text) (n : List Notice)
    → from_parts parts ≡ done (l, n)
    → length l ≤ max_logs
unfolding from_parts
length-from_parts parts l n h = elim (Bool-cases (ltb max_logs (length parts))) [
  | inl many ↦
      let kept = drop (length parts - max_logs) parts in
      let small = length-drop (length parts - max_logs) parts in
      length-with_notices (many_logs kept ∷ []) n kept l (ground (arith, many, small))
        (ground (arith, many, h))
  | inr few ↦ length-with_notices [] n parts l (ground (arith, few)) (ground (arith, few, h))
]

length-from_variable :
    (s : Option Text) (l : Dict Text) (n : List Notice)
    → from_variable s ≡ done (l, n)
    → length l ≤ max_logs
unfolding from_variable
length-from_variable none l n h =
    subst (λ d. length d ≤ max_logs) (ap (λ p. p.0) (done-injective h)) (omega arith)
length-from_variable (some s) l n h = length-from_parts (split 58 s) l n h

length-from_env :
    (env : Result (Dict Text)) (l : Dict Text) (n : List Notice)
    → from_env env ≡ done (l, n)
    → length l ≤ max_logs
unfolding from_env
length-from_env (err e) l n h =
    subst (λ d. length d ≤ max_logs) (ap (λ p. p.0) (done-injective h)) (omega arith)
length-from_env (ok env) l n h = length-from_variable _ l n h

-- An instance that was sent without a list of files has at most seven of them tailed, whatever its
-- environment says.
length-get_log_files :
    (fs : Paths) (i : Instance) (files : Dict Text) (notices : List Notice)
    → i.log_files ≡ []
    → get_log_files fs i ≡ done (files, notices)
    → length files ≤ max_logs
unfolding get_log_files secured listed_files
length-get_log_files fs i files notices empty h =
    let ((logfiles, n), listed, same) = >>=-eq-done (listed_files fs i) _ h in
    let env_files : from_env (get_docker_app_env fs i.root_path) ≡ done (logfiles, n) =
      ground (arith, empty, listed) in
    let few = length-from_env (get_docker_app_env fs i.root_path) logfiles n env_files in
    let kept = length-secure_each fs i.root_path logfiles [] in
    subst (λ d. length d ≤ max_logs) (ap (λ p. p.0) (done-injective same))
      (omega (arith, few, kept))
