-- ===== src/Apptail/Moves.antt =====
-- What an action of apptail that did not stop the process has done.
use logyard_apps.Prelude.{ℕ, ◌+◌, ◌≡◌, refl, sym, Bool, true, false, Option, none, some}
use logyard_apps.Prelude.Text.{Text}
use logyard_apps.Prelude.Run.{done, >>=-eq-done, done-injective}
use logyard_apps.Storage.{Storage}
use logyard_apps.DockerEvents.{Event}
use logyard_apps.Listener.{
  DockerListener, block_until_container_stops, on_event, is_released, tracker_clean_up,
}
use logyard_apps.Tracker.{Tracker, on_tick}
use logyard_apps.Tracker.Shared.{set}
use logyard_apps.Instances.Started.{StartedInstance, delete_instance}
use logyard_apps.Instances.Files.{Instance, Paths}
use logyard_apps.Instances.Tail.{get_short_docker_id}
use logyard_apps.Instances.Tailers.{tail, on_exit}
use logyard_apps.Apptail.{
  Apptail, Handler, to_tail, to_delete, no_handler, returned, Waiter, no_waiter, to_wait, waiting,
  exited, Action, message, tails, returns, waits, wakes, docker, initializes, reads, ticks, cleans,
  instance_of, act, accept, run_tail, run_return, run_wait, run_exit, run_wake, with_tailer,
  on_message,
}

abbrev pub is_message : Action → Bool
is_message (message i) = true
is_message other = false

-- Actions that call the tracker and do nothing else.
abbrev pub calls_tracker : Action → Bool
calls_tracker (initializes k file x) = true
calls_tracker (reads k file x) = true
calls_tracker ticks = true
calls_tracker (cleans replies) = true
calls_tracker other = false

module _ {M : Type 0} where
  pub data Move (s s' : Apptail M) : Action → Type 0 where
    idles : (a : Action) → is_message a ≡ false → s' ≡ s → Move s s' a
    refuses :
        (i : Instance) (started : StartedInstance)
        → s' ≡ record s { n = s.n + 1; started_instances = started }
        → Move s s' (message i)
    accepts :
        (i : Instance) (started : StartedInstance)
        → s' ≡ record s {
          n = s.n + 1;
          started_instances = started;
          handlers = set s.handlers (s.n + 1) (to_tail i);
        }
        → Move s s' (message i)
    tailed :
        (j : ℕ) (fs : Paths) (i : Instance) (t : Tracker M)
        → s.handlers j ≡ to_tail i
        → s' ≡ record s {
          tracker = t;
          handlers = set s.handlers j (to_delete i);
          waiters = set s.waiters j (to_wait i);
        }
        → Move s s' (tails j fs)
    deleted :
        (j : ℕ) (i : Instance)
        → s.handlers j ≡ to_delete i
        → s' ≡ record s {
          started_instances = delete_instance i.docker_id s.started_instances;
          handlers = set s.handlers j returned;
        }
        → Move s s' (returns j)
    blocked :
        (j : ℕ) (i : Instance) (ch : ℕ) (l : DockerListener)
        → s.waiters j ≡ to_wait i
        → block_until_container_stops i.docker_id s.listener ≡ done (ch, l)
        → s' ≡ record s { listener = l; waiters = set s.waiters j (waiting i ch) }
        → Move s s' (waits j)
    leaves :
        (j : ℕ) (i : Instance) (ch : ℕ) (t : Tracker M)
        → s.waiters j ≡ waiting i ch
        → is_released s.listener ch ≡ true
        → s' ≡ record s { tracker = t; waiters = set s.waiters j (exited i) }
        → Move s s' (wakes j)
    hears :
        (evt : Event) (l : DockerListener)
        → on_event evt s.listener ≡ done l
        → s' ≡ record s { listener = l }
        → Move s s' (docker evt)
    calls :
        (a : Action) (t : Tracker M)
        → calls_tracker a ≡ true
        → s' ≡ record s { tracker = t }
        → Move s s' a

  accept-Move :
      (i : Instance) (answer : Bool × StartedInstance) (s s' : Apptail M)
      → done (accept i answer s) ≡ done s'
      → Move s s' (message i)
  unfolding accept
  accept-Move i (true, started) s s' e = accepts i started (sym (done-injective e))
  accept-Move i (false, started) s s' e = refuses i started (sym (done-injective e))

  tail-Move :
      (fs : Paths) (j : ℕ) (g : Handler) (s s' : Apptail M)
      → s.handlers j ≡ g
      → run_tail fs j g s ≡ done s'
      → Move s s' (tails j fs)
  unfolding run_tail
  tail-Move fs j no_handler s s' h e = idles _ refl (sym (done-injective e))
  tail-Move fs j (to_delete i) s s' h e = idles _ refl (sym (done-injective e))
  tail-Move fs j returned s s' h e = idles _ refl (sym (done-injective e))
  tail-Move fs j (to_tail i) s s' h e =
      let (t, run, after) = >>=-eq-done (tail fs i s.tracker) _ e in
      tailed j fs i t.tracker h (sym (done-injective after))

  return-Move :
      (j : ℕ) (g : Handler) (s s' : Apptail M)
      → s.handlers j ≡ g
      → done (run_return j g s) ≡ done s'
      → Move s s' (returns j)
  unfolding run_return
  return-Move j no_handler s s' h e = idles _ refl (sym (done-injective e))
  return-Move j (to_tail i) s s' h e = idles _ refl (sym (done-injective e))
  return-Move j returned s s' h e = idles _ refl (sym (done-injective e))
  return-Move j (to_delete i) s s' h e = deleted j i h (sym (done-injective e))

  wait-Move :
      (j : ℕ) (w : Waiter) (s s' : Apptail M)
      → s.waiters j ≡ w
      → run_wait j w s ≡ done s'
      → Move s s' (waits j)
  unfolding run_wait
  wait-Move j no_waiter s s' h e = idles _ refl (sym (done-injective e))
  wait-Move j (waiting i ch) s s' h e = idles _ refl (sym (done-injective e))
  wait-Move j (exited i) s s' h e = idles _ refl (sym (done-injective e))
  wait-Move j (to_wait i) s s' h e =
      let ((ch, l), run, after) =
        >>=-eq-done (block_until_container_stops i.docker_id s.listener) _ e in
      blocked j i ch l h run (sym (done-injective after))

  tailer-Move :
      (a : Action) (o : Option Instance) (f : Text → Tracker M → Tracker M) (s s' : Apptail M)
      → is_message a ≡ false
      → calls_tracker a ≡ true
      → with_tailer o f s ≡ done s'
      → Move s s' a
  unfolding with_tailer
  tailer-Move a none f s s' q c e = idles a q (sym (done-injective e))
  tailer-Move a (some i) f s s' q c e =
      let (id, run, after) = >>=-eq-done (get_short_docker_id i.docker_id) _ e in
      calls a (f id s.tracker) c (sym (done-injective after))

  module _ {B : Type 0} (st : Storage M B) where
    exit-Move :
        (released : Bool) (j : ℕ) (i : Instance) (ch : ℕ) (s s' : Apptail M)
        → s.waiters j ≡ waiting i ch
        → is_released s.listener ch ≡ released
        → run_exit st released j i s ≡ done s'
        → Move s s' (wakes j)
    unfolding run_exit
    exit-Move false j i ch s s' h c e = idles _ refl (sym (done-injective e))
    exit-Move true j i ch s s' h c e =
        let (t, run, after) = >>=-eq-done (on_exit st i s.tracker) _ e in
        leaves j i ch t h c (sym (done-injective after))

    wake-Move :
        (j : ℕ) (w : Waiter) (s s' : Apptail M)
        → s.waiters j ≡ w
        → run_wake st j w s ≡ done s'
        → Move s s' (wakes j)
    unfolding run_wake
    wake-Move j no_waiter s s' h e = idles _ refl (sym (done-injective e))
    wake-Move j (to_wait i) s s' h e = idles _ refl (sym (done-injective e))
    wake-Move j (exited i) s s' h e = idles _ refl (sym (done-injective e))
    wake-Move j (waiting i ch) s s' h e = exit-Move (is_released s.listener ch) j i ch s s' h refl e

    pub act-Move : (a : Action) (s s' : Apptail M) → act st a s ≡ done s' → Move s s' a
    unfolding act on_message
    act-Move (message i) s s' e = accept-Move i _ s s' e
    act-Move (tails j fs) s s' e = tail-Move fs j (s.handlers j) s s' refl e
    act-Move (returns j) s s' e = return-Move j (s.handlers j) s s' refl e
    act-Move (waits j) s s' e = wait-Move j (s.waiters j) s s' refl e
    act-Move (wakes j) s s' e = wake-Move j (s.waiters j) s s' refl e
    act-Move (docker evt) s s' e =
        let (l, run, after) = >>=-eq-done (on_event evt s.listener) _ e in
        hears evt l run (sym (done-injective after))
    act-Move (initializes j file x) s s' e =
        tailer-Move _ (instance_of (s.waiters j)) _ s s' refl refl e
    act-Move (reads j file x) s s' e = tailer-Move _ (instance_of (s.waiters j)) _ s s' refl refl e
    act-Move ticks s s' e =
        let (t, run, after) = >>=-eq-done (on_tick st s.tracker) _ e in
        calls ticks t refl (sym (done-injective after))
    act-Move (cleans replies) s s' e =
        let (t, run, after) = >>=-eq-done (tracker_clean_up replies s.tracker) _ e in
        calls (cleans replies) t refl (sym (done-injective after))
