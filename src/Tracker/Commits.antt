-- ===== src/Tracker/Commits.antt =====
-- apptail/storage/tail_tracker.go, `Commit` and `Remove` by their critical sections: the mutex is free
-- between `getBuffer` and `Write`, and between the `delete` of `Remove` and its `Commit`. `Write` has
-- a lock of its own (gob_handler.go).
pub mod Snapshots
use logyard_apps.Prelude.{ℕ, ◌≡◌, ◌⊎◌, Option, none, some, List, [], ◌∷◌}
use logyard_apps.Prelude.Text.{Text}
use logyard_apps.Prelude.Int.{ℤ}
use logyard_apps.Prelude.Dict.{StringSet, delete}
use logyard_apps.Prelude.Run.{Error, Result, ok, err, Run, done, crash, fatal, ◌>>=◌}
use logyard_apps.Storage.{Tailer, Storage}
use logyard_apps.Tracker.{
  Tracker, instances_of, with_instances, register_instance, initialize_child_node, update, clean_up,
  get_buffer,
}
use logyard_apps.Tracker.Shared.{set}

-- `buffers` has what a goroutine got from `getBuffer` and has not written.
pub record Committing (M B : Type 0) : Type 0 where
  pub tracker : Tracker M
  pub buffers : ℕ → Option B

pub data Section : Type 0 where
  registers : Text → Section
  initializes : Text → Text → ℤ → Section
  updates : Text → Text → ℤ → Section
  cleans : StringSet → Section
  deletes : Text → Section  -- by `Remove`
  encodes : ℕ → Section  -- in `Commit`
  writes : ℕ → Section

module _ {M B : Type 0} where
  abbrev pub changed : (Tracker M → Tracker M) → Committing M B → Run (Committing M B)
  changed f s = done (record s { tracker = f s.tracker })

  -- The timer and `Remove`, which alone commit here, end the process on an error.
  unfoldable pub buffered : ℕ → Result B → Committing M B → Run (Committing M B)
  buffered k (err e) s = crash fatal
  buffered k (ok bytes) s = done (record s { buffers = set s.buffers k (some bytes) })

  unfoldable pub stored_in : ℕ → Option Error × M → Committing M B → Run (Committing M B)
  stored_in k (some e, m) s = crash fatal
  stored_in k (none, m) s =
      done (record s { tracker = record s.tracker { medium = m }; buffers = set s.buffers k none })

  module _ (st : Storage M B) where
    unfoldable pub write_out : ℕ → Option B → Committing M B → Run (Committing M B)
    unfolding stored_in
    write_out k none s = done s
    write_out k (some bytes) s = stored_in k (st.write s.tracker.medium bytes) s

    unfoldable pub enter : Section → Committing M B → Run (Committing M B)
    unfolding buffered write_out
    enter (registers key) s = changed (register_instance key) s
    enter (initializes key file x) s = changed (initialize_child_node key file x) s
    enter (updates key file x) s = changed (update key file x) s
    enter (cleans ids) s = changed (clean_up ids) s
    enter (deletes key) s = changed (λ t. with_instances t (delete (instances_of t) key)) s
    enter (encodes k) s = buffered k (get_buffer st s.tracker) s
    enter (writes k) s = write_out k (s.buffers k) s

    unfoldable pub enter_all : List Section → Committing M B → Run (Committing M B)
    enter_all [] s = done s
    enter_all (c ∷ rest) s = do s' ← enter c s; enter_all rest s'

    -- The tracker had the tailer at the start, after one of the steps, or at the end.
    abbrev pub Had : List Section → Committing M B → Tailer → Type 0
    Had [] s t = s.tracker.cached ≡ t
    Had (c ∷ rest) s t =
        (s.tracker.cached ≡ t) ⊎ ((s' : Committing M B) × (enter c s ≡ done s') × Had rest s' t)
