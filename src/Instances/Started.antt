-- ===== src/Instances/Started.antt =====
-- apptail/cmd/apptail/main.go: which messages about new instances start a tailer. The mutex makes
-- each operation atomic.
use logyard_apps.Prelude.{◌&&◌, ℕ, ◌+◌, ◌≤◌, Bool, true, false, List, [], ◌∷◌, if◌then◌else◌, arith}
use logyard_apps.Prelude.Text.{Text, ◌==◌, eq_iff}
use logyard_apps.Prelude.Dict.{Dict, get, put, delete, contains, get-put, get-delete}

abbrev pub StartedInstance : Type 0
StartedInstance = Dict ℕ

unfoldable pub check_instance_and_update : ℕ → Text → StartedInstance → Bool × StartedInstance
check_instance_and_update n docker_id s =
    if contains s docker_id then (false, s) else (true, put s docker_id n)

unfoldable pub delete_instance : Text → StartedInstance → StartedInstance
delete_instance docker_id s = delete s docker_id

-- A message about an instance, and the return of `Tail` for one.
pub data Moment : Type 0 where
  new_instance : Text → Moment
  tail_returned : Text → Moment

-- The messages that start a tailer of the container, for the counter and the map of `main`.
unfoldable pub starts : Text → List Moment → ℕ → StartedInstance → ℕ
starts id [] n s = 0
starts id (new_instance docker_id ∷ rest) n s =
    let (accepted, s') = check_instance_and_update (n + 1) docker_id s in
    (if accepted && (docker_id == id) then 1 else 0) + starts id rest (n + 1) s'
starts id (tail_returned docker_id ∷ rest) n s = starts id rest n (delete_instance docker_id s)

-- The returns of `Tail` for the container.
abbrev pub returns : Text → List Moment → ℕ
returns id [] = 0
returns id (new_instance docker_id ∷ rest) = returns id rest
returns id (tail_returned docker_id ∷ rest) = (if docker_id == id then 1 else 0) + returns id rest

starts_from :
    (id : Text) (moments : List Moment) (n : ℕ) (s : StartedInstance)
    → starts id moments n s + (if contains s id then 1 else 0) ≤ returns id moments + 1
unfolding starts check_instance_and_update delete_instance
starts_from id [] n s = ground arith
starts_from id (new_instance j ∷ rest) n s = ground (
  arith,
  starts_from id rest (n + 1) s,
  starts_from id rest (n + 1) (put s j (n + 1)),
  get-put s j id (n + 1),
  eq_iff j id,
)
starts_from id (tail_returned j ∷ rest) n s =
    ground (arith, starts_from id rest n (delete s j), get-delete s j id, eq_iff j id)

-- However the messages and the returns are interleaved, a container is started at most once more
-- than `Tail` has returned for it.
pub starts_lem :
    (id : Text) (moments : List Moment) → starts id moments 0 [] ≤ returns id moments + 1
unfolding get
starts_lem id moments = ground (arith, starts_from id moments 0 [])
