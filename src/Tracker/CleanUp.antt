-- ===== src/Tracker/CleanUp.antt =====
-- `CleanUp` and `getInvalidInstances`, key by key.
use logyard_apps.Prelude.{◌≡◌, refl, true, not, ◌&&◌, ◌||◌, none, [], ◌∷◌, arith, if◌then◌else◌}
use logyard_apps.Prelude.Text.{Text, ◌==◌, eq_iff}
use logyard_apps.Prelude.Dict.{Dict, StringSet, get, put, delete, contains, get-put, get-delete}
use logyard_apps.Storage.{TailNode}
use logyard_apps.Tracker.{
  Tracker, instances_of, collect_ids, invalid_from, delete_all, get_invalid_instances, clean_up,
}

contains-put :
    {V : Type 0} (m : Dict V) (k j : Text) (v : V)
    → contains (put m k v) j ≡ (k == j) || contains m j
contains-put m k j v = rw get-put (ground arith)

contains-collect_ids :
    (ids : StringSet) (m : Dict TailNode) (k : Text)
    → contains (collect_ids ids m) k ≡ contains ids k || contains m k
unfolding collect_ids get
contains-collect_ids ids [] k = ground arith
contains-collect_ids ids ((j, node) ∷ m) k =
    rw (contains-collect_ids (put ids j true) m k) (rw contains-put (ground arith))

contains-invalid_from :
    (invalid ids valid : StringSet) (k : Text)
    → contains (invalid_from invalid ids valid) k
      ≡ contains invalid k || (contains ids k && not (contains valid k))
unfolding invalid_from get
contains-invalid_from invalid [] valid k = ground arith
contains-invalid_from invalid ((j, b) ∷ ids) valid k =
    rw
      (contains-invalid_from (if contains valid j then invalid else put invalid j true) ids valid k)
      (ground (arith, contains-put invalid j k true, eq_iff j k))

-- `getInvalidInstances` returns exactly the given ids that are not among all instances.
pub contains-get_invalid_instances :
    (docker_ids all_instances : StringSet) (k : Text)
    → contains (get_invalid_instances docker_ids all_instances) k
      ≡ contains docker_ids k && not (contains all_instances k)
unfolding get_invalid_instances get
contains-get_invalid_instances ids valid k = contains-invalid_from [] ids valid k

get-delete_all :
    (ids : StringSet) (m : Dict TailNode) (k : Text)
    → get (delete_all ids m) k ≡ (if contains ids k then none else get m k)
unfolding delete_all get
get-delete_all [] m k = refl
get-delete_all ((j, b) ∷ ids) m k =
    rw (get-delete_all ids (delete m j) k) (rw get-delete (ground arith))

pub get-clean_up :
    {M : Type 0} (valid_ids : StringSet) (t : Tracker M) (k : Text)
    → get (instances_of (clean_up valid_ids t)) k
      ≡ (if contains valid_ids k then get (instances_of t) k else none)
unfolding clean_up
get-clean_up valid_ids t k =
    rw get-delete_all
      (rw (contains-get_invalid_instances, contains-collect_ids) (unfold get in ground arith))
