-- ===== src/Examples/CommitRuns.antt =====
-- The timer writes an older state after `Remove` has written a newer one.
use logyard_apps.Prelude.{some, none, List, [], ◌∷◌}
use logyard_apps.Storage.{Tailer}
use logyard_apps.Tracker.Shared.{set}
use logyard_apps.Tracker.Commits.{Committing, Section, registers, deletes, encodes, writes}
use logyard_apps.Examples.LifeRuns.{key}

abbrev idle : Committing Tailer Tailer
idle = record {
  tracker = record { medium = record { instances = [] }; cached = record { instances = [] } };
  buffers = λ k. none;
}

abbrev sections : List Section
sections = registers key ∷ encodes 0 ∷ deletes key ∷ encodes 1 ∷ writes 1 ∷ writes 0 ∷ []

abbrev overtaken : Committing Tailer Tailer
overtaken = record {
  tracker = record {
    medium = record { instances = (key, []) ∷ [] };
    cached = record { instances = [] };
  };
  buffers =
      set
        (set
          (set (set idle.buffers 0 (some (record { instances = (key, []) ∷ [] }))) 1
            (some (record { instances = [] })))
          1 none)
        0 none;
}
