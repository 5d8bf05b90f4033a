-- ===== src/Apptail/Life/Waking.antt =====
-- The goroutines that wait, and the docker listener, keep the life of a container.
use logyard_apps.Prelude.{
  ℕ, ◌≡◌, refl, ◌∙◌, ap, subst, Bool, true, false, ◌&&◌, not, Bool-cases, none, arith, inl, inr,
  nat_eq, nat_eq_iff, take,
}
use logyard_apps.Prelude.Text.{Text, ◌==◌, eq_iff, eq_of_==}
use logyard_apps.Prelude.Dict.{get, get-put, get-delete}
use logyard_apps.Prelude.Run.{done}
use logyard_apps.DockerEvents.{Event, id_length}
use logyard_apps.Listener.{
  DockerListener, elem, event, act, block_until_container_stops, on_event, is_released,
}
use logyard_apps.Listener.Waiting.{IsSound, block-IsSound, act-after, act-IsSound, after_event}
use logyard_apps.Listener.Release.{registered}
use logyard_apps.Tracker.{Tracker, is_instance_registered}
use logyard_apps.Tracker.Shared.{set}
use logyard_apps.Instances.Files.{Instance}
use logyard_apps.Apptail.{
  Apptail, Handler, to_tail, to_delete, no_handler, returned, Waiter, no_waiter, to_wait, waiting,
  exited,
}
use logyard_apps.Apptail.Trace.{short}
use logyard_apps.Apptail.Life.{Lives, waiter_names, OwnWaiter, InOrder, InListener, is_tailed}

-- The listener keeps the waiter of the container, and closed channels stay closed.
InListener-same :
    (key : Text) (w : Waiter) (l l' : DockerListener)
    → get l'.waiters key ≡ get l.waiters key
    → l'.closed ≡ l.closed
    → InListener key w l
    → InListener key w l'
InListener-same key no_waiter l l' e c h = e ∙ h
InListener-same key (to_wait i) l l' e c h = e ∙ h
InListener-same key (exited i) l l' e c h = e ∙ h
InListener-same key (waiting i ch) l l' e c (inl h) = inl (e ∙ h)
InListener-same key (waiting i ch) l l' e c (inr (h, x)) = inr (e ∙ h, ap (elem ch) c ∙ x)

pub block_elsewhere :
    (id key : Text) (l l' : DockerListener) (ch : ℕ)
    → (take id_length id == key) ≡ false
    → block_until_container_stops id l ≡ done (ch, l')
    → (get l'.waiters key ≡ get l.waiters key) × (l'.closed ≡ l.closed)
unfolding block_until_container_stops
block_elsewhere id key l l' ch other e =
    (ground (arith, get-put l.waiters (take id_length id) key l.fresh, e), ground (arith, e))

event-InListener :
    (key : Text) (w : Waiter) (evt : Event) (l : DockerListener)
    → InListener key w l
    → InListener key w (after_event evt l)
unfolding elem
event-InListener key no_waiter evt l h =
    ground (arith, get-delete l.waiters (take id_length evt.id) key, h)
event-InListener key (to_wait i) evt l h =
    ground (arith, get-delete l.waiters (take id_length evt.id) key, h)
event-InListener key (exited i) evt l h =
    ground (arith, get-delete l.waiters (take id_length evt.id) key, h)
event-InListener key (waiting i ch) evt l (inl h) =
    ground (
      arith,
      get-delete l.waiters (take id_length evt.id) key,
      h,
      eq_iff (take id_length evt.id) key,
    )
event-InListener key (waiting i ch) evt l (inr (h, x)) =
    inr (ground (arith, get-delete l.waiters (take id_length evt.id) key, h), ground (arith, x))

-- A waiter stands for a `Tail` that was run.
order_later : (g : Handler) (w w' : Waiter) → is_tailed false w ≡ true → InOrder g w → InOrder g w'
order_later no_handler w w' t h = absurd (ground (arith, t, h))
order_later (to_tail i) w w' t h = absurd (ground (arith, t, h))
order_later (to_delete i) w w' t h = tt
order_later returned w w' t h = tt

-- A channel that is closed is no longer in the listener.
gone_of_closed :
    (key : Text) (i : Instance) (ch : ℕ) (l : DockerListener)
    → IsSound l
    → elem ch l.closed ≡ true
    → InListener key (waiting i ch) l
    → get l.waiters key ≡ none
gone_of_closed key i ch l s c (inl h) = absurd (ground (arith, s.shut key ch h, c))
gone_of_closed key i ch l s c (inr (h, x)) = h

module _ {M : Type 0} where
  pub tracker-Lives :
      (loaded : Bool) (key : Text) (k : ℕ) (t : Tracker M) (s : Apptail M)
      → is_instance_registered t key ≡ is_instance_registered s.tracker key
      → Lives loaded key k s
      → Lives loaded key k (record s { tracker = t })
  tracker-Lives loaded key k t s r h = record {
    sound = h.sound;
    fresh = h.fresh;
    others = h.others;
    own_handler = h.own_handler;
    own_waiter = h.own_waiter;
    in_order = h.in_order;
    in_listener = h.in_listener;
    registered = r ∙ h.registered;
  }

  pub event-Lives :
      (loaded : Bool) (key : Text) (k : ℕ) (evt : Event) (l : DockerListener) (s : Apptail M)
      → on_event evt s.listener ≡ done l
      → Lives loaded key k s
      → Lives loaded key k (record s { listener = l })
  event-Lives loaded key k evt l s e h =
      let same : l ≡ after_event evt s.listener =
        act-after (event evt) s.listener l h.sound (unfold act in e) in
      record {
        sound = act-IsSound (event evt) s.listener l h.sound (unfold act in e);
        fresh = h.fresh;
        others = h.others;
        own_handler = h.own_handler;
        own_waiter = h.own_waiter;
        in_order = h.in_order;
        in_listener = rw same (event-InListener key (s.waiters k) evt s.listener h.in_listener);
        registered = h.registered;
      }

  pub wait-Lives :
      (loaded : Bool) (key : Text) (k j : ℕ) (i : Instance) (ch : ℕ) (l : DockerListener)
      (s : Apptail M)
      → s.waiters j ≡ to_wait i
      → block_until_container_stops i.docker_id s.listener ≡ done (ch, l)
      → Lives loaded key k s
      → Lives loaded key k (record s { listener = l; waiters = set s.waiters j (waiting i ch) })
  wait-Lives loaded key k j i ch l s e b h = elim (Bool-cases (nat_eq j k)) [
    | inl same ↦
        let here : s.waiters k ≡ to_wait i =
          subst (λ m. s.waiters m ≡ to_wait i) ((nat_eq_iff j k).0 same) e in
        let mine = subst (OwnWaiter key) here h.own_waiter in
        let free = subst (λ w. InListener key w s.listener) here h.in_listener in
        let name : take id_length i.docker_id ≡ key = eq_of_== _ _ mine in
        record {
          sound = block-IsSound i.docker_id s.listener l ch h.sound b;
          fresh = λ m n. ground (arith, h.fresh m, n, e);
          others = λ m o. ground (arith, h.others m, o, nat_eq_iff j m, nat_eq_iff j k);
          own_handler = h.own_handler;
          own_waiter = rw same mine;
          in_order = rw same (
              order_later (s.handlers k) (to_wait i) _ refl
                (subst (InOrder (s.handlers k)) here h.in_order));
          in_listener =
              rw same (inl (rw (← name) (registered i.docker_id s.listener l ch (rw name free) b)));
          registered = rw same (h.registered ∙ ap (is_tailed loaded) here);
        }
    | inr other ↦
        let theirs = (h.others j other).1 in
        let not_named = subst (λ w. waiter_names key w ≡ false) e theirs in
        let (kept, closed) = block_elsewhere i.docker_id key s.listener l ch not_named b in
        record {
          sound = block-IsSound i.docker_id s.listener l ch h.sound b;
          fresh = λ m n. ground (arith, h.fresh m, n, e);
          others = λ m o. ground (arith, h.others m, o, not_named);
          own_handler = h.own_handler;
          own_waiter = rw other h.own_waiter;
          in_order = rw other h.in_order;
          in_listener =
              rw other (InListener-same key (s.waiters k) s.listener l kept closed h.in_listener);
          registered = rw other h.registered;
        }
  ]

  pub exit-Lives :
      (loaded : Bool) (key : Text) (k j : ℕ) (i : Instance) (ch : ℕ) (t : Tracker M) (s : Apptail M)
      → s.waiters j ≡ waiting i ch
      → is_released s.listener ch ≡ true
      → is_instance_registered t key ≡ not (short i == key) && is_instance_registered s.tracker key
      → Lives loaded key k s
      → Lives loaded key k (record s { tracker = t; waiters = set s.waiters j (exited i) })
  exit-Lives loaded key k j i ch t s e c r h = elim (Bool-cases (nat_eq j k)) [
    | inl same ↦
        let here : s.waiters k ≡ waiting i ch =
          subst (λ m. s.waiters m ≡ waiting i ch) ((nat_eq_iff j k).0 same) e in
        let mine = subst (OwnWaiter key) here h.own_waiter in
        let held = subst (λ w. InListener key w s.listener) here h.in_listener in
        record {
          sound = h.sound;
          fresh = λ m n. ground (arith, h.fresh m, n, e);
          others = λ m o. ground (arith, h.others m, o, nat_eq_iff j m, nat_eq_iff j k);
          own_handler = h.own_handler;
          own_waiter = rw same mine;
          in_order = rw same (
              order_later (s.handlers k) (waiting i ch) _ refl
                (subst (InOrder (s.handlers k)) here h.in_order));
          in_listener = rw same (gone_of_closed key i ch s.listener h.sound c held);
          registered = rw same (r ∙ ground (arith, mine));
        }
    | inr other ↦
        let theirs = (h.others j other).1 in
        let not_named = subst (λ w. waiter_names key w ≡ false) e theirs in
        record {
          sound = h.sound;
          fresh = λ m n. ground (arith, h.fresh m, n, e);
          others = λ m o. ground (arith, h.others m, o, not_named);
          own_handler = h.own_handler;
          own_waiter = rw other h.own_waiter;
          in_order = rw other h.in_order;
          in_listener = rw other h.in_listener;
          registered = rw other (r ∙ ground (arith, not_named, h.registered));
        }
  ]
