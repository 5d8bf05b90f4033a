-- ===== src/Instances/Identity.antt =====
-- `getUID` of apptail/cmd/apptail/main.go, and apptail/util/nodeid.go: names that are found once.
use logyard_apps.Prelude.{
  ◌≡◌, Bool, true, false, Option, none, some, arith, ap, subst, Bool-cases, inl, inr,
}
use logyard_apps.Prelude.Text.{Text}
use logyard_apps.Prelude.Run.{
  Error, Result, ok, err, Run, done, crash, fatal, or_fatal, ◌>>=◌, done-injective,
}

-- The file of the identifier, in a file system of type `F`, and package gouuid.
pub record UidFile (F : Type 0) : Type 0 where
  pub is_missing : F → Bool
  pub read_file : F → Result Text
  pub write_file : Text → F → Option Error × F
  pub new_v4 : F → Result Text

-- What is written without an error is there, and is what is read.
pub record IsKept {F : Type 0} (u : UidFile F) : Type 0 where
  pub there :
      (uid : Text) (f : F)
      → (u.write_file uid f).0 ≡ none
      → u.is_missing (u.write_file uid f).1 ≡ false
  pub same :
      (uid : Text) (f : F)
      → (u.write_file uid f).0 ≡ none
      → u.read_file (u.write_file uid f).1 ≡ ok uid

module _ {F : Type 0} (u : UidFile F) where
  written : Text → Option Error × F → Run (Text × F)
  written uid (none, f) = done (uid, f)
  written uid (some e, f) = crash fatal

  unfoldable pub get_uid : F → Run (Text × F)
  unfolding written
  get_uid f = elim (u.is_missing f) [
    | true ↦ or_fatal (u.new_v4 f) >>= (λ uid. written uid (u.write_file uid f))
    | false ↦ or_fatal (u.read_file f) >>= (λ uid. done (uid, f))
  ]

  written_done :
      (id uid : Text) (r : Option Error × F) (f' : F)
      → written id r ≡ done (uid, f')
      → (id ≡ uid) × (r ≡ (none, f'))
  unfolding written
  written_done id uid (none, f) f' h =
      let same = done-injective h in (ap (λ p. p.0) same, ap (λ p. (none, p.1)) same)
  written_done id uid (some e, f) f' h = absurd (ground (arith, h))

  made_done :
      (r : Result Text) (uid : Text) (f f' : F)
      → (or_fatal r >>= (λ id. written id (u.write_file id f))) ≡ done (uid, f')
      → u.write_file uid f ≡ (none, f')
  made_done (err e) uid f f' h = absurd (ground (arith, h))
  made_done (ok id) uid f f' h =
      let (same, put) = written_done id uid (u.write_file id f) f' h in rw same at put

  found_done :
      (r : Result Text) (uid : Text) (f f' : F)
      → ◌>>=◌ {B = Text × F} (or_fatal r) (λ id. done (id, f)) ≡ done (uid, f')
      → (r ≡ ok uid) × (f ≡ f')
  found_done (err e) uid f f' h = absurd (ground (arith, h))
  found_done (ok id) uid f f' h =
      let same = done-injective h in (ap (λ p. ok p.0) same, ap (λ p. p.1) same)

  read_again :
      (uid : Text) (f : F)
      → u.is_missing f ≡ false
      → u.read_file f ≡ ok uid
      → get_uid f ≡ done (uid, f)
  unfolding get_uid
  read_again uid f there same = ground (arith, there, same)

  -- Once `getUID` has returned, it returns the same identifier again, and leaves the file alone.
  get_uid_again :
      IsKept u → (uid : Text) (f f' : F) → get_uid f ≡ done (uid, f') → get_uid f' ≡ done (uid, f')
  unfolding get_uid
  get_uid_again kept uid f f' h = elim (Bool-cases (u.is_missing f)) [
    | inl missing ↦
        let put = made_done (u.new_v4 f) uid f f' (rw (missing, get_uid) at h) in
        let well = ap (λ p. p.0) put in
        let file = ap (λ p. p.1) put in
        read_again uid f' (subst (λ g. u.is_missing g ≡ false) file (kept.there uid f well))
          (subst (λ g. u.read_file g ≡ ok uid) file (kept.same uid f well))
    | inr there ↦
        let (same, kept_file) = found_done (u.read_file f) uid f f' (rw (there, get_uid) at h) in
        subst (λ g. get_uid g ≡ done (uid, g)) kept_file (read_again uid f there same)
  ]

-- `once.Do`: the state is the node, once it is found.
unfoldable pub local_node_id : Result Text → Option Text → Run (Text × Option Text)
local_node_id local_ip (some nodeid) = done (nodeid, some nodeid)
local_node_id local_ip none = or_fatal local_ip >>= (λ nodeid. done (nodeid, some nodeid))
