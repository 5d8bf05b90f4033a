-- ===== src/Storage/FileHandler.antt =====
-- apptail/storage/gob_handler.go: a tailer kept in one file, in the gob format. The file system and
-- the gob codec are parameters; the mutex of `Write` only orders writers.
use logyard_apps.Prelude.{ℕ, ◌≡◌, Option, none, some, arith}
use logyard_apps.Prelude.Text.{Text}
use logyard_apps.Prelude.Run.{Error, Result, ok}
use logyard_apps.Storage.Data.{Tailer, empty_tailer, SameTailer, Storage, IsPersistent}

pub data Stat : Type 0 where
  exists missing : Stat
  failed : Error → Stat

-- What the handler uses of `os` and `ioutil`, over the state `M` of the file system.
pub record FileSystem (M B : Type 0) : Type 0 where
  pub stat : Text → M → Stat
  pub create : Text → M → Option Error × M
  pub read_file : Text → M → B × Option Error
  pub write_file : Text → B → ℕ → M → Option Error × M
  pub chmod : Text → ℕ → M → Option Error × M

-- `encoding/gob`: `decode` fills a tailer, in part where it fails.
pub record Gob (B : Type 0) : Type 0 where
  pub encode : Tailer → Result B
  pub decode : B → Tailer → Tailer × Option Error

abbrev pub file_mode : ℕ
file_mode = 0o666

module _ {M B : Type 0} (fs : FileSystem M B) where
  chmod_after : Text → Option Error × M → Option Error × M
  chmod_after path (some e, m) = (some e, m)
  chmod_after path (none, m) = fs.chmod path file_mode m

  unfoldable pub write_file_storage : Text → M → B → Option Error × M
  unfolding chmod_after
  write_file_storage path m buf = chmod_after path (fs.write_file path buf file_mode m)

  module _ (gob : Gob B) where
    -- `n, err :=` and the `err` of `Decode` live in the inner block: the error that is returned is
    -- that of `Stat`.
    decode_file : Text → Option Error → M → Tailer → Option Error × Tailer × M
    decode_file path err m e =
        let (n, read_err) = fs.read_file path m in
        let (e', decode_err) = gob.decode n e in (err, e', m)

    create_file : Tailer → Option Error × M → Option Error × Tailer × M
    create_file e (err, m) = (err, e, m)

    load_by_stat : Stat → Text → M → Tailer → Option Error × Tailer × M
    unfolding create_file decode_file
    load_by_stat missing path m e = create_file e (fs.create path m)
    load_by_stat exists path m e = decode_file path none m e
    load_by_stat (failed err) path m e = decode_file path (some err) m e

    unfoldable pub load_file_storage : Text → M → Tailer → Option Error × Tailer × M
    unfolding load_by_stat
    load_file_storage path m e = load_by_stat (fs.stat path m) path m e

    -- `NewFileStorage(path)`, as the interface.
    unfoldable pub new_file_storage : Text → Storage M B
    unfolding write_file_storage load_file_storage
    new_file_storage path = record {
      encode = gob.encode;
      load = λ m e. load_file_storage path m e;
      write = λ m buf. write_file_storage path m buf;
    }

-- Documented behaviour of the file system: a file that was written with the mode of the handler,
-- which lets its owner read and write, is there with what was written, and the change to that mode
-- leaves it there with its content.
pub record ReadsBack {M B : Type 0} (fs : FileSystem M B) (path : Text) : Type 0 where
  pub stat_written :
      (buf : B) (m : M)
      → (fs.write_file path buf file_mode m).0 ≡ none
      → fs.stat path (fs.write_file path buf file_mode m).1 ≡ exists
  pub read_written :
      (buf : B) (m : M)
      → (fs.write_file path buf file_mode m).0 ≡ none
      → (fs.read_file path (fs.write_file path buf file_mode m).1).0 ≡ buf
  pub stat_chmod :
      (buf : B) (m : M)
      → let m' = (fs.write_file path buf file_mode m).1 in
        (fs.write_file path buf file_mode m).0 ≡ none
        → (fs.chmod path file_mode m').0 ≡ none
        → fs.stat path (fs.chmod path file_mode m').1 ≡ fs.stat path m'
  pub read_chmod :
      (buf : B) (m : M)
      → let m' = (fs.write_file path buf file_mode m).1 in
        (fs.write_file path buf file_mode m).0 ≡ none
        → (fs.chmod path file_mode m').0 ≡ none
        → fs.read_file path (fs.chmod path file_mode m').1 ≡ fs.read_file path m'

-- Documented behaviour of gob: decoding into an empty value gives what was encoded.
pub record DecodesBack {B : Type 0} (gob : Gob B) : Type 0 where
  pub decoded :
      (t : Tailer) (bytes : B)
      → gob.encode t ≡ ok bytes
      → SameTailer (gob.decode bytes empty_tailer).0 t

module _ {M B : Type 0} (fs : FileSystem M B) (path : Text) (back : ReadsBack fs path) where
  stat-write :
      (m : M) (buf : B)
      → (write_file_storage fs path m buf).0 ≡ none
      → fs.stat path (write_file_storage fs path m buf).1 ≡ exists
  unfolding write_file_storage
  stat-write m buf w = ground (arith, back.stat_written buf m, back.stat_chmod buf m)

  read-write :
      (m : M) (buf : B)
      → (write_file_storage fs path m buf).0 ≡ none
      → (fs.read_file path (write_file_storage fs path m buf).1).0 ≡ buf
  unfolding write_file_storage
  read-write m buf w = ground (arith, back.read_written buf m, back.read_chmod buf m)

module _ {M B : Type 0} (fs : FileSystem M B) (gob : Gob B) where
  -- The file storage keeps the promise of its interface: what it wrote without an error is loaded
  -- again into an empty tailer, if the file system gives back what was written with the handler's mode
  -- and gob decodes what it encoded.
  pub new_file_storage-IsPersistent :
      (path : Text)
      → ReadsBack fs path
      → DecodesBack gob
      → IsPersistent (new_file_storage fs gob path)
  unfolding new_file_storage
  new_file_storage-IsPersistent path back codec = record {
    reload = λ t bytes m e w.
        rw (stat-write fs path back m bytes w)
          (rw (read-write fs path back m bytes w) (codec.decoded t bytes e));
  }
