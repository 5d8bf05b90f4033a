-- ===== src/Examples/FakeRuns.antt =====
-- The repository's tests of the tracker (apptail/storage/tail_tracker_test.go) that look at the fake.
use logyard_apps.Prelude.{◌≡◌, refl, true, false, some, [], ◌∷◌}
use logyard_apps.Prelude.Text.{Text, codes, ◌==◌}
use logyard_apps.Prelude.Dict.{get, put, delete}
use logyard_apps.Prelude.Run.{done, crash, fatal}
use logyard_apps.Storage.Fake.{Fake, new_fake, fake_storage, fake_encode, fake_write, fake_load}
use logyard_apps.Tracker.{
  new_tracker, register_instance, remove, commit, load_tailers, start_submission_timer, on_tick,
  ticked, told_to_stop,
}

abbrev id : Text
id = codes "fakeDockerId12345"

abbrev written : Fake
written = record new_fake { is_write_called = true }

program : Unit {0}
unfolding new_tracker register_instance remove commit load_tailers start_submission_timer on_tick
    fake_encode fake_write fake_load get put delete ◌==◌
program = tt

-- TestRemove_CalledWithCorrectKey_ItShouldAlsoRemoveFromFile
removed :
    remove (fake_storage false) id (register_instance id (new_tracker new_fake))
    ≡ done (new_tracker written)
unfolding program
removed = refl

-- TestLoadTailers_WhenCalled_ItLoadsFromGobFile
loaded : (load_tailers (fake_storage false) (new_tracker new_fake)).medium.is_load_called ≡ true
unfolding program
loaded = refl

-- TestCommit_UnderlyingCallReturnsError_CommitBubbleUpTheError
not_committed :
    (commit (fake_storage true) (new_tracker new_fake)).0
    ≡ some (codes "something went wrong while trying to Encode")
unfolding program
not_committed = refl

-- The goroutine of the timer stops the process at the first error, and ends when it is told to.
timer_stops :
    start_submission_timer (fake_storage true) (told_to_stop ∷ ticked ∷ []) (new_tracker new_fake)
    ≡ done (new_tracker new_fake)
unfolding program
timer_stops = refl

timer_fails :
    start_submission_timer (fake_storage true) (ticked ∷ []) (new_tracker new_fake) ≡ crash fatal
unfolding program
timer_fails = refl
