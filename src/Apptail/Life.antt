-- ===== src/Apptail/Life.antt =====
-- The life of one container in apptail, where one message names it.
pub mod Handling
pub mod Waking
pub mod Whole
pub mod Until
pub mod Over
use logyard_apps.Prelude.{
  ℕ, ◌+◌, ◌<◌, ◌≡◌, refl, sym, ◌∙◌, ap, subst, Bool, true, false, Bool-cases, Option-cases, Option,
  none, some, List, [], ◌∷◌, arith, inl, inr, nat_eq, ◌⊎◌,
}
use logyard_apps.Prelude.Text.{Text, ◌==◌, eq_iff, eq_refl}
use logyard_apps.Prelude.Dict.{get}
use logyard_apps.Prelude.Run.{Run, done, >>=-eq-done, done-injective}
use logyard_apps.Storage.{Storage}
use logyard_apps.DockerEvents.Attempts.{any_reply_lists}
use logyard_apps.Listener.{DockerListener, elem, retry, block_until_container_stops, on_event}
use logyard_apps.Listener.Waiting.{IsSound, block-IsSound}
use logyard_apps.Tracker.{is_instance_registered}
use logyard_apps.Instances.Files.{Instance, Paths}
use logyard_apps.Apptail.{
  Apptail, Handler, to_tail, to_delete, no_handler, returned, Waiter, no_waiter, to_wait, waiting,
  exited, Action, message, tails, returns, waits, wakes, docker, initializes, reads, ticks, cleans,
  act, act_all,
}
use logyard_apps.Apptail.Trace.{short}

abbrev pub handler_names : Text → Handler → Bool
handler_names key (to_tail i) = short i == key
handler_names key (to_delete i) = short i == key
handler_names key other = false

abbrev pub waiter_names : Text → Waiter → Bool
waiter_names key (to_wait i) = short i == key
waiter_names key (waiting i ch) = short i == key
waiter_names key (exited i) = short i == key
waiter_names key no_waiter = false

-- A goroutine that has an instance has that of the container.
abbrev pub OwnHandler : Text → Handler → Type 0
OwnHandler key (to_tail i) = (short i == key) ≡ true
OwnHandler key (to_delete i) = (short i == key) ≡ true
OwnHandler key other = Unit

abbrev pub OwnWaiter : Text → Waiter → Type 0
OwnWaiter key (to_wait i) = (short i == key) ≡ true
OwnWaiter key (waiting i ch) = (short i == key) ≡ true
OwnWaiter key (exited i) = (short i == key) ≡ true
OwnWaiter key no_waiter = Unit

-- Before `Tail` there is no waiter.
abbrev pub InOrder : Handler → Waiter → Type 0
InOrder no_handler w = w ≡ no_waiter
InOrder (to_tail i) w = w ≡ no_waiter
InOrder other w = Unit

-- From `RegisterInstance` by `Tail` until `Remove`; before that, as the storage was loaded.
abbrev pub is_tailed : Bool → Waiter → Bool
is_tailed loaded no_waiter = loaded
is_tailed loaded (to_wait i) = true
is_tailed loaded (waiting i ch) = true
is_tailed loaded (exited i) = false

-- The container has a waiter in the listener, or its channel is closed.
abbrev pub InListener : Text → Waiter → DockerListener → Type 0
InListener key (waiting i ch) l =
    (get l.waiters key ≡ some ch) ⊎ ((get l.waiters key ≡ none) × (elem ch l.closed ≡ true))
InListener key other l = get l.waiters key ≡ none

module _ {M : Type 0} where
  -- `k` is the number of the message that names the container.
  pub record Lives (loaded : Bool) (key : Text) (k : ℕ) (s : Apptail M) : Type 0 where
    pub sound : IsSound s.listener
    pub fresh : (j : ℕ) → s.n < j → (s.handlers j ≡ no_handler) × (s.waiters j ≡ no_waiter)
    pub others :
        (j : ℕ)
        → nat_eq j k ≡ false
        → (handler_names key (s.handlers j) ≡ false) × (waiter_names key (s.waiters j) ≡ false)
    pub own_handler : OwnHandler key (s.handlers k)
    pub own_waiter : OwnWaiter key (s.waiters k)
    pub in_order : InOrder (s.handlers k) (s.waiters k)
    pub in_listener : InListener key (s.waiters k) s.listener
    pub registered : is_instance_registered s.tracker key ≡ is_tailed loaded (s.waiters k)

-- Of all messages the one with the number `k` names the container, and the clean-up runs when
-- docker lists it.
abbrev pub Allows : Text → ℕ → Action → ℕ → Type 0
Allows key k (message i) n = (short i == key) ≡ nat_eq (n + 1) k
Allows key k (cleans replies) n = any_reply_lists replies retry 0 key ≡ true
Allows key k other n = Unit

abbrev pub counted : Action → ℕ → ℕ
counted (message i) n = n + 1
counted other n = n

abbrev pub AllowsAll : Text → ℕ → List Action → ℕ → Type 0
AllowsAll key k [] n = Unit
AllowsAll key k (a ∷ rest) n = Allows key k a n × AllowsAll key k rest (counted a n)
