-- ===== src/Storage/Data.antt =====
-- apptail/storage/tail_tracker.go, the tracked data, and the interface `Storage` of gob_handler.go.
use logyard_apps.Prelude.{◌≡◌, Option, none, []}
use logyard_apps.Prelude.Text.{Text}
use logyard_apps.Prelude.Int.{ℤ}
use logyard_apps.Prelude.Dict.{Dict, get, contains}
use logyard_apps.Prelude.Run.{Error, Result, ok}

pub record BoxedInt64 : Type 0 where
  pub v : ℤ

-- From the name of a tailed file to the offset that was read.
abbrev pub TailNode : Type 0
TailNode = Dict BoxedInt64

-- From the short docker id of an instance to its files.
pub record Tailer : Type 0 where
  pub instances : Dict TailNode

abbrev pub empty_tailer : Tailer
empty_tailer = record { instances = [] }

abbrev pub offset_in : Option TailNode → Text → Option BoxedInt64
offset_in none file = none
offset_in (Option.some node) file = get node file

-- Two tailers hold the same instances and offsets, in whatever order.
pub record SameTailer (a b : Tailer) : Type 0 where
  pub instances : (i : Text) → contains a.instances i ≡ contains b.instances i
  pub offsets : (i f : Text) → offset_in (get a.instances i) f ≡ offset_in (get b.instances i) f

-- The interface `Storage`. `M` is the state of the medium and `B` the type of the encoded bytes,
-- which the program only hands over; `load` decodes into a tailer.
pub record Storage (M B : Type 0) : Type 0 where
  pub encode : Tailer → Result B
  pub load : M → Tailer → Option Error × Tailer × M
  pub write : M → B → Option Error × M

-- What is written without an error is loaded again into an empty tailer.
pub record IsPersistent {M B : Type 0} (s : Storage M B) : Type 0 where
  pub reload :
      (t : Tailer) (bytes : B) (m : M)
      → s.encode t ≡ ok bytes
      → (s.write m bytes).0 ≡ none
      → SameTailer (s.load (s.write m bytes).1 empty_tailer).1 t
