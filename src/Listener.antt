-- ===== src/Listener.antt =====
-- apptail/docker/listener.go: goroutines that wait until the container of an instance stops, and
-- the loop that wakes them. Channels are numbers; a goroutine that waits on a channel goes on
-- exactly when the channel is closed. The mutex makes each action below atomic.
pub mod CleanUp
pub mod Waiting
pub mod Release
use logyard_apps.Prelude.{
  ℕ, zero, suc, ◌+◌, ◌<◌, ◌≡◌, Bool, true, false, ◌||◌, not, Option, none, some, List, [], ◌∷◌, ltb,
  nat_eq, length, take, if◌then◌else◌,
}
use logyard_apps.Prelude.Text.{Text, codes, ◌==◌}
use logyard_apps.Prelude.Dict.{Dict, StringSet, get, put, delete, contains}
use logyard_apps.Prelude.Run.{Run, done, crash, fatal, closed_twice, ◌>>=◌, ◌>>◌}
use logyard_apps.DockerEvents.{Event, id_length, short_id, Got, Body, get_live_docker_containers}
use logyard_apps.Tracker.{Tracker, clean_up}

pub record DockerListener : Type 0 where
  pub waiters : Dict ℕ
  pub closed : List ℕ  -- the channels that were closed
  pub fresh : ℕ  -- the next channel that `make` returns

abbrev pub new_listener : DockerListener
new_listener = record { waiters = []; closed = []; fresh = 0 }

unfoldable pub elem : ℕ → List ℕ → Bool
elem c [] = false
elem c (d ∷ ds) = nat_eq d c || elem c ds

abbrev check_length : Text → Run (Unit {0})
check_length id = if nat_eq (length id) id_length then done tt else crash fatal

add_waiter : Text → ℕ → DockerListener → DockerListener
add_waiter id ch l = if contains l.waiters id then l else record l { waiters = put l.waiters id ch }

-- `BlockUntilContainerStops` up to its wait `<-ch`; the channel is returned.
unfoldable pub block_until_container_stops : Text → DockerListener → Run (ℕ × DockerListener)
unfolding short_id add_waiter
block_until_container_stops id l = do
  id' ← short_id id
  check_length id'
  done (l.fresh, add_waiter id' l.fresh (record l { fresh = l.fresh + 1 }))

-- The wait is over.
abbrev pub is_released : DockerListener → ℕ → Bool
is_released l ch = elem ch l.closed

close : ℕ → DockerListener → Run DockerListener
close ch l =
    if elem ch l.closed then crash closed_twice else done (record l { closed = ch ∷ l.closed })

wake : Option ℕ → Text → DockerListener → Run DockerListener
wake none id l = done l
wake (some ch) id l = do l' ← close ch l; done (record l' { waiters = delete l'.waiters id })

abbrev pub is_stop : Text → Bool
is_stop status = status == codes "die" || status == codes "kill"

-- One round of the loop of `Listen`.
unfoldable pub on_event : Event → DockerListener → Run DockerListener
unfolding short_id close wake
on_event evt l = do
  id ← short_id evt.id
  check_length id
  if not (is_stop evt.status) then done l else wake (get l.waiters id) id l

unfoldable pub clean_live : {M : Type 0} → StringSet → Tracker M → Tracker M
clean_live [] tracker = tracker
clean_live (live ∷ rest) tracker = clean_up (live ∷ rest) tracker

abbrev pub retry : ℕ
retry = 3

unfoldable pub tracker_clean_up : {M : Type 0} → (ℕ → Got Body) → Tracker M → Run (Tracker M)
unfolding clean_live
tracker_clean_up replies tracker = do
  all_containers ← get_live_docker_containers replies retry
  done (clean_live all_containers tracker)

-- What the goroutines of apptail do to the listener, in the order of the mutex.
pub data Action : Type 0 where
  wait : Text → Action
  event : Event → Action

abbrev forget : Run (ℕ × DockerListener) → Run DockerListener
forget r = r >>= λ p. done p.1

unfoldable pub act : Action → DockerListener → Run DockerListener
act (wait id) l = forget (block_until_container_stops id l)
act (event evt) l = on_event evt l

unfoldable pub act_all : List Action → DockerListener → Run DockerListener
act_all [] l = done l
act_all (a ∷ rest) l = do l' ← act a l; act_all rest l'
