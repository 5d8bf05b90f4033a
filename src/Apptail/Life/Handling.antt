-- ===== src/Apptail/Life/Handling.antt =====
-- The handler's goroutines keep the life of a container.
use logyard_apps.Prelude.{
  ℕ, ◌+◌, ◌≡◌, ◌∙◌, subst, Bool, true, false, ◌||◌, Bool-cases, arith, inl, inr, nat_eq, nat_eq_iff,
}
use logyard_apps.Prelude.Text.{Text, ◌==◌}
use logyard_apps.Tracker.{Tracker, is_instance_registered}
use logyard_apps.Tracker.Shared.{set}
use logyard_apps.Instances.Started.{StartedInstance}
use logyard_apps.Instances.Files.{Instance}
use logyard_apps.Apptail.{
  Apptail, Handler, to_tail, to_delete, no_handler, returned, to_wait, accept, run_return,
}
use logyard_apps.Apptail.Trace.{short}
use logyard_apps.Apptail.Life.{Lives, handler_names, OwnHandler, InOrder, InListener}

module _ {M : Type 0} where
  pub accept-Lives :
      (loaded : Bool) (key : Text) (k : ℕ) (i : Instance) (answer : Bool × StartedInstance)
      (s : Apptail M)
      → (short i == key) ≡ nat_eq (s.n + 1) k
      → Lives loaded key k s
      → Lives loaded key k (accept i answer s)
  unfolding accept
  accept-Lives loaded key k i (false, started) s a h = record {
    sound = h.sound;
    fresh = λ j l. h.fresh j (omega arith);
    others = h.others;
    own_handler = h.own_handler;
    own_waiter = h.own_waiter;
    in_order = h.in_order;
    in_listener = h.in_listener;
    registered = h.registered;
  }
  accept-Lives loaded key k i (true, started) s a h = record {
    sound = h.sound;
    fresh = λ j l. ground (arith, h.fresh j, l);
    others = λ j o. ground (arith, h.others j, a, nat_eq_iff j k, o);
    own_handler = elim (Bool-cases (nat_eq (s.n + 1) k)) [
      | inl same ↦ rw same (a ∙ same)
      | inr other ↦ rw other h.own_handler
    ];
    own_waiter = h.own_waiter;
    in_order = elim (Bool-cases (nat_eq (s.n + 1) k)) [
      | inl same ↦ rw same (h.fresh k (ground (arith, same))).1
      | inr other ↦ rw other h.in_order
    ];
    in_listener = h.in_listener;
    registered = h.registered;
  }

  pub return-Lives :
      (loaded : Bool) (key : Text) (k j : ℕ) (g : Handler) (s : Apptail M)
      → s.handlers j ≡ g
      → Lives loaded key k s
      → Lives loaded key k (run_return j g s)
  unfolding run_return
  return-Lives loaded key k j no_handler s e h = h
  return-Lives loaded key k j (to_tail i) s e h = h
  return-Lives loaded key k j returned s e h = h
  return-Lives loaded key k j (to_delete i) s e h = record {
    sound = h.sound;
    fresh = λ m l. ground (arith, h.fresh m, l, e);
    others = λ m o. ground (arith, h.others m, o);
    own_handler = elim (Bool-cases (nat_eq j k)) [
      | inl same ↦ rw same tt
      | inr other ↦ rw other h.own_handler
    ];
    own_waiter = h.own_waiter;
    in_order = elim (Bool-cases (nat_eq j k)) [
      | inl same ↦ rw same tt
      | inr other ↦ rw other h.in_order
    ];
    in_listener = h.in_listener;
    registered = h.registered;
  }

  -- A goroutine that comes to `RegisterInstance` is a new tailer.
  pub tailing-Lives :
      (loaded : Bool) (key : Text) (k j : ℕ) (i : Instance) (t : Tracker M) (s : Apptail M)
      → s.handlers j ≡ to_tail i
      → is_instance_registered t key ≡ (short i == key) || is_instance_registered s.tracker key
      → Lives loaded key k s
      → Lives loaded key k (record s {
        tracker = t;
        handlers = set s.handlers j (to_delete i);
        waiters = set s.waiters j (to_wait i);
      })
  tailing-Lives loaded key k j i t s e r h = elim (Bool-cases (nat_eq j k)) [
    | inl same ↦
        let here : s.handlers k ≡ to_tail i =
          subst (λ m. s.handlers m ≡ to_tail i) ((nat_eq_iff j k).0 same) e in
        let mine = subst (OwnHandler key) here h.own_handler in
        let before = subst (λ g. InOrder g (s.waiters k)) here h.in_order in
        record {
          sound = h.sound;
          fresh = λ m l. ground (arith, h.fresh m, l, e);
          others = λ m o. ground (arith, h.others m, o, nat_eq_iff j m, nat_eq_iff j k);
          own_handler = rw same mine;
          own_waiter = rw same mine;
          in_order = rw same tt;
          in_listener = rw same (subst (λ w. InListener key w s.listener) before h.in_listener);
          registered = rw same (r ∙ ground (arith, mine));
        }
    | inr other ↦
        let theirs = (h.others j other).0 in
        let not_named = subst (λ g. handler_names key g ≡ false) e theirs in
        record {
          sound = h.sound;
          fresh = λ m l. ground (arith, h.fresh m, l, e);
          others = λ m o. ground (arith, h.others m, o, not_named);
          own_handler = rw other h.own_handler;
          own_waiter = rw other h.own_waiter;
          in_order = rw other h.in_order;
          in_listener = rw other h.in_listener;
          registered = rw other (r ∙ ground (arith, not_named, h.registered));
        }
  ]
