-- ===== src/Apptail.antt =====
-- apptail as one process: the handler of new instances and the goroutines that it starts
-- (apptail/cmd/apptail/main.go, `Tail` of apptail/instance.go), the docker listener, the timer and the
-- tracker that they share. Each action is one goroutine's work between two waits or locks, so a
-- list of actions is an interleaving.
pub mod Moves
pub mod Trace
pub mod Alone
pub mod Restart
pub mod Life
use logyard_apps.Prelude.{
  ℕ, ◌+◌, ◌≡◌, Bool, true, false, Option, none, some, List, [], ◌∷◌, ◌++◌, nat_eq, take,
  if◌then◌else◌,
}
use logyard_apps.Prelude.Text.{Text}
use logyard_apps.Prelude.Int.{ℤ}
use logyard_apps.Prelude.Dict.{StringSet}
use logyard_apps.Prelude.Run.{Run, done, crash, ◌>>=◌}
use logyard_apps.Storage.{Storage}
use logyard_apps.DockerEvents.{Event, Got, Body, id_length}
use logyard_apps.Listener.{
  DockerListener, new_listener, block_until_container_stops, on_event, is_released,
  tracker_clean_up,
}
use logyard_apps.Tracker.{Tracker, initialize_child_node, update, on_tick}
use logyard_apps.Tracker.Shared.{set}
use logyard_apps.Instances.Started.{StartedInstance, check_instance_and_update, delete_instance}
use logyard_apps.Instances.Files.{Instance, Paths}
use logyard_apps.Instances.Tail.{get_short_docker_id}
use logyard_apps.Instances.Tailers.{Tailing, tail, on_exit}

-- Where the goroutine of a message stands, in the handler's `go func()`.
pub data Handler : Type 0 where
  no_handler : Handler
  to_tail : Instance → Handler
  to_delete : Instance → Handler
  returned : Handler

-- Where the goroutine stands that waits for the container, with its channel.
pub data Waiter : Type 0 where
  no_waiter : Waiter
  to_wait : Instance → Waiter
  waiting : Instance → ℕ → Waiter
  exited : Instance → Waiter

-- `n` counts the messages, and numbers the goroutines that they start.
pub record Apptail (M : Type 0) : Type 0 where
  pub n : ℕ
  pub started_instances : StartedInstance
  pub tracker : Tracker M
  pub listener : DockerListener
  pub handlers : ℕ → Handler
  pub waiters : ℕ → Waiter

-- When the subscription begins: the tracker is loaded.
abbrev pub new_apptail : {M : Type 0} → Tracker M → Apptail M
new_apptail tracker = record {
  n = 0;
  started_instances = [];
  tracker = tracker;
  listener = new_listener;
  handlers = λ k. no_handler;
  waiters = λ k. no_waiter;
}

pub data Action : Type 0 where
  message : Instance → Action  -- `logyard.<uid>.newinstance`
  tails : ℕ → Paths → Action
  returns : ℕ → Action
  waits : ℕ → Action
  wakes : ℕ → Action
  docker : Event → Action
  initializes : ℕ → Text → ℤ → Action  -- by a tailer of the instance
  reads : ℕ → Text → ℤ → Action
  ticks : Action
  cleans : (ℕ → Got Body) → Action

abbrev pub instance_of : Waiter → Option Instance
instance_of no_waiter = none
instance_of (to_wait i) = some i
instance_of (waiting i ch) = some i
instance_of (exited i) = some i

module _ {M : Type 0} where
  pub accept : Instance → Bool × StartedInstance → Apptail M → Apptail M
  accept i (true, started) s = record s {
    n = s.n + 1;
    started_instances = started;
    handlers = set s.handlers (s.n + 1) (to_tail i);
  }
  accept i (false, started) s = record s { n = s.n + 1; started_instances = started }

  pub on_message : Instance → Apptail M → Apptail M
  unfolding accept
  on_message i s = accept i (check_instance_and_update (s.n + 1) i.docker_id s.started_instances) s

  pub run_tail : Paths → ℕ → Handler → Apptail M → Run (Apptail M)
  run_tail fs k (to_tail i) s = do
    t ← tail fs i s.tracker
    done (record s {
      tracker = t.tracker;
      handlers = set s.handlers k (to_delete i);
      waiters = set s.waiters k (to_wait i);
    })
  run_tail fs k other s = done s

  pub run_return : ℕ → Handler → Apptail M → Apptail M
  run_return k (to_delete i) s = record s {
    started_instances = delete_instance i.docker_id s.started_instances;
    handlers = set s.handlers k returned;
  }
  run_return k other s = s

  pub run_wait : ℕ → Waiter → Apptail M → Run (Apptail M)
  run_wait k (to_wait i) s = do
    (ch, listener) ← block_until_container_stops i.docker_id s.listener
    done (record s { listener = listener; waiters = set s.waiters k (waiting i ch) })
  run_wait k other s = done s

  -- The operations of the tailers, which are started when the waiter is.
  pub with_tailer : Option Instance → (Text → Tracker M → Tracker M) → Apptail M → Run (Apptail M)
  with_tailer none f s = done s
  with_tailer (some i) f s = do
    id ← get_short_docker_id i.docker_id
    done (record s { tracker = f id s.tracker })

  module _ {B : Type 0} (st : Storage M B) where
    -- A goroutine whose channel is open does not go on.
    pub run_exit : Bool → ℕ → Instance → Apptail M → Run (Apptail M)
    run_exit false k i s = done s
    run_exit true k i s = do
      tracker ← on_exit st i s.tracker
      done (record s { tracker = tracker; waiters = set s.waiters k (exited i) })

    pub run_wake : ℕ → Waiter → Apptail M → Run (Apptail M)
    unfolding run_exit
    run_wake k (waiting i ch) s = run_exit (is_released s.listener ch) k i s
    run_wake k other s = done s

    unfoldable pub act : Action → Apptail M → Run (Apptail M)
    unfolding on_message run_tail run_return run_wait run_wake with_tailer
    act (message i) s = done (on_message i s)
    act (tails k fs) s = run_tail fs k (s.handlers k) s
    act (returns k) s = done (run_return k (s.handlers k) s)
    act (waits k) s = run_wait k (s.waiters k) s
    act (wakes k) s = run_wake k (s.waiters k) s
    act (docker evt) s = do
      listener ← on_event evt s.listener
      done (record s { listener = listener })
    act (initializes k file offset) s =
        with_tailer (instance_of (s.waiters k)) (λ id. initialize_child_node id file offset) s
    act (reads k file offset) s =
        with_tailer (instance_of (s.waiters k)) (λ id. update id file offset) s
    act ticks s = do tracker ← on_tick st s.tracker; done (record s { tracker = tracker })
    act (cleans replies) s = do
      tracker ← tracker_clean_up replies s.tracker
      done (record s { tracker = tracker })

    unfoldable pub act_all : List Action → Apptail M → Run (Apptail M)
    act_all [] s = done s
    act_all (a ∷ rest) s = do s' ← act a s; act_all rest s'
