-- ===== src/Instances/Files.antt =====
-- apptail/instance.go, `getLogFiles`, and docker/env.go: the files of an instance that are tailed.
-- The file system, with package path/filepath, and the JSON decoder are parameters.
pub mod Secure
pub mod Few
use logyard_apps.Prelude.{
  ℕ, zero, suc, ◌+◌, ◌-◌, ◌≡◌, Bool, true, false, not, ◌&&◌, Option, none, some, List, [], ◌∷◌,
  ◌++◌, map, ltb, nat_eq, length, take, drop, if◌then◌else◌,
}
use logyard_apps.Prelude.Int.{ℤ}
use logyard_apps.Prelude.Text.{Text, codes, ◌==◌, has_prefix}
use logyard_apps.Prelude.Dict.{Dict, get, put}
use logyard_apps.Prelude.Run.{Error, Result, ok, err, Run, done, crash, out_of_range, ◌>>=◌}
use logyard_apps.Instances.Limit.{Notice, many_logs, not_absolute, ignoring_path, no_log_files}

-- What opening a file and reading it to its end gives.
pub data Opened : Type 0 where
  contents : Text → Opened
  path_error : Error → Opened
  other_error : Error → Opened

pub record Paths : Type 0 where
  pub open_and_read : Text → Opened
  pub join : List Text → Text
  pub abs : Text → Result Text
  pub eval_symlinks : Text → Result Text
  pub unmarshal : Text → Result (Dict Text)

pub record Instance : Type 0 where
  pub app_guid : Text
  pub app_name : Text
  pub app_space : Text
  pub type : Text
  pub index : ℤ
  pub docker_id : Text
  pub root_path : Text
  pub log_files : Dict Text
  pub docker_streams : Bool

cons_first : ℕ → List Text → List Text
cons_first c [] = (c ∷ []) ∷ []
cons_first c (part ∷ rest) = (c ∷ part) ∷ rest

-- strings.Split(s, sep), where `sep` is one byte.
unfoldable pub split : ℕ → Text → List Text
unfolding cons_first
split sep [] = [] ∷ []
split sep (c ∷ s) = let rest = split sep s in if nat_eq c sep then [] ∷ rest else cons_first c rest

-- strings.SplitN(s, sep, 2): the part before the first `sep`, and the part after it if there is one.
unfoldable pub split_two : ℕ → Text → Text × Option Text
split_two sep [] = ([], none)
split_two sep (c ∷ s) =
    let (before, after) = split_two sep s in
    if nat_eq c sep then ([], some s) else (c ∷ before, after)

abbrev max_env_size : ℕ
max_env_size = 50000

env_of : Paths → Opened → Result (Dict Text)
env_of fs (contents bytes) = fs.unmarshal (take max_env_size bytes)
env_of fs (path_error e) = ok []
env_of fs (other_error e) = err e

unfoldable pub get_docker_app_env : Paths → Text → Result (Dict Text)
unfolding env_of
get_docker_app_env fs root_path =
    env_of fs
      (fs.open_and_read (fs.join (root_path ∷ codes "/home/stackato/etc/droplet.env.json" ∷ [])))

add_entry : Text × Option Text → Dict Text → Run (Dict Text)
add_entry (name, none) logfiles = crash out_of_range
add_entry (name, some path) logfiles = done (put logfiles name path)

unfoldable pub add_entries : List Text → Dict Text → Run (Dict Text)
unfolding add_entry
add_entries [] logfiles = done logfiles
add_entries (f ∷ rest) logfiles = do l ← add_entry (split_two 61 f) logfiles; add_entries rest l

abbrev pub max_logs : ℕ
max_logs = 7

with_notices : List Notice → Run (Dict Text) → Run (Dict Text × List Notice)
with_notices notices r = r >>= λ logfiles. done (logfiles, notices)

unfoldable pub from_parts : List Text → Run (Dict Text × List Notice)
unfolding with_notices
from_parts parts =
    let kept = drop (length parts - max_logs) parts in
    if ltb max_logs (length parts)
    then with_notices (many_logs kept ∷ []) (add_entries kept [])
    else with_notices [] (add_entries parts [])

from_variable : Option Text → Run (Dict Text × List Notice)
from_variable none = done ([], [])
from_variable (some s) = from_parts (split 58 s)

from_env : Result (Dict Text) → Run (Dict Text × List Notice)
unfolding from_variable
from_env (err e) = done ([], [])
from_env (ok env) = from_variable (get env (codes "STACKATO_LOG_FILES"))

unfoldable pub listed_files : Paths → Instance → Run (Dict Text × List Notice)
unfolding from_env
listed_files fs i =
    if ltb 0 (length i.log_files)
    then done (i.log_files, [])
    else from_env (get_docker_app_env fs i.root_path)

abbrev is_abs : Text → Bool
is_abs path = has_prefix path (codes "/")

full_path : Paths → Text → Text → Text
full_path fs root path =
    if not (is_abs path)
    then fs.join (root ∷ codes "/home/stackato/" ∷ path ∷ [])
    else fs.join (root ∷ path ∷ [])

-- The body of the loop that secures the paths.
add_resolved : Text → Text → Text → Result Text → Dict Text → Dict Text × List Notice
add_resolved root name path (err e) secure = (secure, ignoring_path path ∷ [])
add_resolved root name path (ok fullpath) secure =
    if not (has_prefix fullpath root)
    then (secure, ignoring_path path ∷ [])
    else (put secure name fullpath, [])

add_absolute : Paths → Text → Text → Text → Result Text → Dict Text → Dict Text × List Notice
unfolding add_resolved
add_absolute fs root name path (err e) secure = (secure, not_absolute path ∷ [])
add_absolute fs root name path (ok fullpath) secure =
    add_resolved root name path (fs.eval_symlinks fullpath) secure

unfoldable pub secure_each : Paths → Text → Dict Text → Dict Text → Dict Text × List Notice
unfolding full_path add_absolute
secure_each fs root [] secure = (secure, [])
secure_each fs root ((name, path) ∷ rest) secure =
    let (s, first) = add_absolute fs root name path (fs.abs (full_path fs root path)) secure in
    let (final, later) = secure_each fs root rest s in (final, first ++ later)

abbrev none_left : Instance → Dict Text → List Notice
none_left i secure =
    if nat_eq (length secure) 0 && not i.docker_streams then no_log_files ∷ [] else []

secured : Paths → Instance → Dict Text × List Notice → Dict Text × List Notice
secured fs i (logfiles, notices) =
    let (secure, more) = secure_each fs i.root_path logfiles [] in
    (secure, notices ++ more ++ none_left i secure)

unfoldable pub get_log_files : Paths → Instance → Run (Dict Text × List Notice)
unfolding secured
get_log_files fs i = do listed ← listed_files fs i; done (secured fs i listed)
