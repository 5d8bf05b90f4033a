-- ===== src/Tracker/Commits/Snapshots.antt =====
-- What the storage holds when several goroutines commit.
use logyard_apps.Prelude.{ℕ, ◌≡◌, Option, some, ◌⊎◌}
use logyard_apps.Prelude.Run.{ok}
use logyard_apps.Storage.{Tailer, Storage, IsPersistent, SameTailer, empty_tailer}
use logyard_apps.Tracker.{Tracker}
use logyard_apps.Tracker.Commits.{Committing}

module _ {M B : Type 0} (st : Storage M B) (persistent : IsPersistent st) where
  abbrev pub Loads : M → Tailer → Type 0
  Loads m t = SameTailer (st.load m empty_tailer).1 t

  -- Every buffer is the encoding of a tailer from the past.
  abbrev AllFrom : (Tailer → Type 0) → (ℕ → Option B) → Type 0
  AllFrom past buffers =
      (k : ℕ) (bytes : B)
      → buffers k ≡ some bytes
      → (t : Tailer) × past t × (st.encode t ≡ ok bytes)

  abbrev IsKept : (Tailer → Type 0) → Committing M B → Committing M B → Type 0
  IsKept past s s' =
      AllFrom (λ t. past t ⊎ (s.tracker.cached ≡ t)) s'.buffers
      × ((s'.tracker.medium ≡ s.tracker.medium)
          ⊎ ((t : Tailer) × past t × Loads s'.tracker.medium t))
