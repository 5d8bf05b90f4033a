-- ===== src/Storage/Fake.antt =====
-- apptail/storage/fake_gob_handler.go: the storage of the tests, which notes which method was called.
use logyard_apps.Prelude.{Bool, true, false, Option, none, some, List, [], ℕ, if◌then◌else◌}
use logyard_apps.Prelude.Text.{Text, codes}
use logyard_apps.Prelude.Run.{Error, Result, ok, err}
use logyard_apps.Storage.Data.{Storage}

-- The variables of the package; a test sets `throw_error`.
pub record Fake : Type 0 where
  pub is_encode_called : Bool
  pub is_load_called : Bool
  pub is_write_called : Bool
  pub throw_error : Bool

abbrev pub new_fake : Fake
new_fake = record {
  is_encode_called = false;
  is_load_called = false;
  is_write_called = false;
  throw_error = false;
}

abbrev thrown : Text → Bool → Option Error
thrown text throw_error = if throw_error then some text else none

-- No bytes come out.
unfoldable pub fake_encode : {A : Type 0} → A → Fake → Result (List ℕ) × Fake
fake_encode value f = (
  if f.throw_error then err (codes "something went wrong while trying to Encode") else ok [],
  record f { is_encode_called = true },
)

unfoldable pub fake_write : List ℕ → Fake → Option Error × Fake
fake_write bytes f = (
  thrown (codes "something went wrong while trying to Write to the file") f.throw_error,
  record f { is_write_called = true },
)

-- The data stays as it is.
unfoldable pub fake_load : {A : Type 0} → A → Fake → Option Error × A × Fake
fake_load value f = (
  thrown (codes "something went wrong while trying to Load data") f.throw_error,
  value,
  record f { is_load_called = true },
)

-- The fake as a storage, for tests that set `throw_error` once. What `Encode` notes is not in the
-- storage's state.
abbrev pub fake_storage : Bool → Storage Fake (List ℕ)
fake_storage throw_error = record {
  encode = λ t. (fake_encode t (record new_fake { throw_error = throw_error })).0;
  load = λ m t. fake_load t m;
  write = λ m bytes. fake_write bytes m;
}
