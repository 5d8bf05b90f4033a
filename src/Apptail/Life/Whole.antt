-- ===== src/Apptail/Life/Whole.antt =====
-- A container's life in a whole run of apptail.
use logyard_apps.Prelude.{
  All, ℕ, ◌<◌, ◌≡◌, refl, sym, ◌∙◌, ap, subst, Bool, true, false, Option, none, some, List, [], ◌∷◌,
  arith,
}
use logyard_apps.Prelude.Text.{Text}
use logyard_apps.Prelude.Int.{ℤ}
use logyard_apps.Prelude.Dict.{get, contains, StringSet}
use logyard_apps.Prelude.Run.{Run, done, crash, >>=-eq-done, done-injective}
use logyard_apps.Storage.{Storage}
use logyard_apps.DockerEvents.{get_live_docker_containers}
use logyard_apps.DockerEvents.Attempts.{get_live_docker_containers_lem}
use logyard_apps.Listener.{is_released, retry}
use logyard_apps.Tracker.{Tracker, is_instance_registered}
use logyard_apps.Tracker.Spec.{
  Op, View, spec_all, apply_all, own_view, own_view-Shows, initialize, move,
}
use logyard_apps.Tracker.Refinement.{apply_all-Shows}
use logyard_apps.Instances.Files.{Instance}
use logyard_apps.Apptail.{
  new_apptail, Apptail, to_delete, Action, message, tails, initializes, reads, ticks, cleans,
  instance_of, act, act_all, accept, run_return,
}
use logyard_apps.Apptail.Trace.{
  ops_of, tail_ops, exit_ops, wake_ops, tailer_ops, clean_ops, act_run,
}
use logyard_apps.Apptail.Moves.{
  Move, idles, refuses, accepts, tailed, deleted, blocked, leaves, hears, calls, act-Move,
  is_message, calls_tracker,
}
use logyard_apps.Listener.Waiting.{new_listener-IsSound}
use logyard_apps.Apptail.Life.{is_tailed, Lives, Allows, AllowsAll, counted}
use logyard_apps.Apptail.Life.Handling.{accept-Lives, return-Lives, tailing-Lives}
use logyard_apps.Apptail.Life.Waking.{tracker-Lives, event-Lives, wait-Lives, exit-Lives}

clean_named :
    (r : Run StringSet) (v : View) (key : Text)
    → ((ids : StringSet) → r ≡ done ids → contains ids key ≡ true)
    → (spec_all (clean_ops r) v).registered key ≡ v.registered key
clean_named (crash c) v key h = refl
clean_named (done []) v key h = refl
clean_named (done (id ∷ ids)) v key h = ground (arith, h (id ∷ ids) refl)

initialize_named :
    (o : Option Instance) (file : Text) (x : ℤ) (v : View) (key : Text)
    → (spec_all (tailer_ops (λ id. initialize id file x) o) v).registered key ≡ v.registered key
initialize_named none file x v key = refl
initialize_named (some i) file x v key = refl

move_named :
    (o : Option Instance) (file : Text) (x : ℤ) (v : View) (key : Text)
    → (spec_all (tailer_ops (λ id. move id file x) o) v).registered key ≡ v.registered key
move_named none file x v key = refl
move_named (some i) file x v key = refl

pub unit_each : {A : Type 0} (xs : List A) → All (λ x. Unit {0}) xs
unit_each [] = tt
unit_each (x ∷ xs) = (tt, unit_each xs)

counted_other : (a : Action) (n : ℕ) → is_message a ≡ false → counted a n ≡ n
counted_other (message i) n q = absurd (ground (arith, q))
counted_other (tails k fs) n q = refl
counted_other _ n q = refl

no_message : (a : Action) → calls_tracker a ≡ true → is_message a ≡ false
no_message (message i) c = absurd (ground (arith, c))
no_message _ c = refl

module _ {M B : Type 0} (st : Storage M B) (loaded : Bool) (key : Text) (k : ℕ) where
  -- What some calls do to the registration of the container.
  named :
      (ops : List Op) (t t' : Tracker M)
      → apply_all st ops t ≡ done t'
      → is_instance_registered t' key ≡ (spec_all ops (own_view t)).registered key
  named ops t t' e = (apply_all-Shows st ops t t' (own_view t) (own_view-Shows t) e).registered key

  after_act :
      (a : Action) (s s' : Apptail M)
      → act st a s ≡ done s'
      → is_instance_registered s'.tracker key
        ≡ (spec_all (ops_of a s) (own_view s.tracker)).registered key
  after_act a s s' e = named (ops_of a s) s.tracker s'.tracker (act_run st a s s' e)

  -- But for the goroutines of its message and the clean-up no action changes the registration.
  calls_keep :
      (a : Action) (s : Apptail M)
      → calls_tracker a ≡ true
      → Allows key k a s.n
      → (spec_all (ops_of a s) (own_view s.tracker)).registered key
        ≡ is_instance_registered s.tracker key
  calls_keep (initializes j file x) s c a =
      initialize_named (instance_of (s.waiters j)) file x (own_view s.tracker) key
  calls_keep (reads j file x) s c a =
      move_named (instance_of (s.waiters j)) file x (own_view s.tracker) key
  calls_keep ticks s c a = refl
  calls_keep (cleans replies) s c a =
      clean_named (get_live_docker_containers replies retry) (own_view s.tracker) key
        (λ ids r. get_live_docker_containers_lem replies retry ids key r ∙ a)
  calls_keep _ s c a = absurd (ground (arith, c))

  -- The registration in the tracker that an equation gives.
  r_at :
      {s' r : Apptail M} {b : Bool}
      → s' ≡ r
      → is_instance_registered s'.tracker key ≡ b
      → is_instance_registered r.tracker key ≡ b
  r_at e h = rw (← e) h

  Move-Lives :
      (a : Action) (s s' : Apptail M)
      → Allows key k a s.n
      → is_instance_registered s'.tracker key
        ≡ (spec_all (ops_of a s) (own_view s.tracker)).registered key
      → Move s s' a
      → Lives loaded key k s
      → Lives loaded key k s'
  unfolding accept run_return
  Move-Lives a s s' p r (idles _ q e) l = rw e l
  Move-Lives (message _) s s' p r (refuses i started e) l =
      rw e (accept-Lives loaded key k i (false, started) s p l)
  Move-Lives (message _) s s' p r (accepts i started e) l =
      rw e (accept-Lives loaded key k i (true, started) s p l)
  Move-Lives _ s s' p r (tailed j fs i t h e) l = rw e (
      tailing-Lives loaded key k j i t s h
        (r_at e (r ∙ ap (λ g. (spec_all (tail_ops g) (own_view s.tracker)).registered key) h)) l)
  Move-Lives _ s s' p r (deleted j i h e) l = rw e (return-Lives loaded key k j (to_delete i) s h l)
  Move-Lives _ s s' p r (blocked j i ch m h b e) l = rw e (wait-Lives loaded key k j i ch m s h b l)
  Move-Lives _ s s' p r (leaves j i ch t h c e) l = rw e (
      exit-Lives loaded key k j i ch t s h c
        (r_at e (
          r
          ∙ ap
              (λ w.
                (spec_all (wake_ops (is_released s.listener) w) (own_view s.tracker)).registered
                  key)
              h
          ∙ ap (λ b. (spec_all (exit_ops b i) (own_view s.tracker)).registered key) c))
        l)
  Move-Lives _ s s' p r (hears evt m b e) l = rw e (event-Lives loaded key k evt m s b l)
  Move-Lives a s s' p r (calls _ t c e) l =
      rw e (tracker-Lives loaded key k t s (r_at e (r ∙ calls_keep a s c p)) l)

  n-Move : (a : Action) (s s' : Apptail M) → Move s s' a → s'.n ≡ counted a s.n
  n-Move a s s' (idles _ q e) = ap (λ u. u.n) e ∙ sym (counted_other a s.n q)
  n-Move _ s s' (refuses i started e) = ap (λ u. u.n) e
  n-Move _ s s' (accepts i started e) = ap (λ u. u.n) e
  n-Move _ s s' (tailed j fs i t h e) = ap (λ u. u.n) e
  n-Move _ s s' (deleted j i h e) = ap (λ u. u.n) e
  n-Move _ s s' (blocked j i ch l h b e) = ap (λ u. u.n) e
  n-Move _ s s' (leaves j i ch t h c e) = ap (λ u. u.n) e
  n-Move _ s s' (hears evt l b e) = ap (λ u. u.n) e
  n-Move a s s' (calls _ t c e) = ap (λ u. u.n) e ∙ sym (counted_other a s.n (no_message a c))

  pub act-Lives :
      (a : Action) (s s' : Apptail M)
      → Allows key k a s.n
      → act st a s ≡ done s'
      → Lives loaded key k s
      → Lives loaded key k s'
  act-Lives a s s' p e l = Move-Lives a s s' p (after_act a s s' e) (act-Move st a s s' e) l

  pub n-act : (a : Action) (s s' : Apptail M) → act st a s ≡ done s' → s'.n ≡ counted a s.n
  n-act a s s' e = n-Move a s s' (act-Move st a s s' e)

  -- What each step keeps, a run keeps.
  pub act_all-keeps :
      (P : Apptail M → Type 0) (Q : Action → Type 0)
      → ((a : Action) (s s' : Apptail M) → Q a → Lives loaded key k s → Move s s' a → P s → P s')
      → (actions : List Action) (s s' : Apptail M) → AllowsAll key k actions s.n
      → All Q actions
      → act_all st actions s ≡ done s'
      → Lives loaded key k s
      → P s
      → P s' × Lives loaded key k s'
  unfolding act_all
  act_all-keeps P Q keep [] s s' p q e l w =
      subst (λ u. P u × Lives loaded key k u) (done-injective e) (w, l)
  act_all-keeps P Q keep (a ∷ rest) s s' (p, ps) (q, qs) e l w =
      let (mid, first, more) = >>=-eq-done (act st a s) (act_all st rest) e in
      act_all-keeps P Q keep rest mid s' (rw (n-act a s mid first) ps) qs more
        (act-Lives a s mid p first l) (keep a s mid q l (act-Move st a s mid first) w)

pub new_apptail-Lives :
    {M : Type 0} (key : Text) (k : ℕ) (t : Tracker M)
    → 0 < k
    → Lives (is_instance_registered t key) key k (new_apptail t)
unfolding get
new_apptail-Lives key k t h = record {
  sound = new_listener-IsSound;
  fresh = λ j l. (refl, refl);
  others = λ j o. (refl, refl);
  own_handler = tt;
  own_waiter = tt;
  in_order = refl;
  in_listener = refl;
  registered = refl;
}

module _ {M B : Type 0} (st : Storage M B) where
  -- Where one message of all names a container, the container is in the tracker exactly from the
  -- time when Tail registers it until the goroutine that waits for it has left, and before that if
  -- the storage had it: no other instance, event, tick or clean-up changes that, if docker lists the
  -- container when the tracker is cleaned.
  pub registered_while_tailed :
      (key : Text) (k : ℕ) (t : Tracker M) (actions : List Action) (s : Apptail M)
      → 0 < k
      → AllowsAll key k actions 0
      → act_all st actions (new_apptail t) ≡ done s
      → is_instance_registered s.tracker key
        ≡ is_tailed (is_instance_registered t key) (s.waiters k)
  registered_while_tailed key k t actions s h p e =
      (act_all-keeps st (is_instance_registered t key) key k (λ u. Unit) (λ a. Unit)
        (λ a u u' q l m w. tt) actions (new_apptail t) s p (unit_each actions) e
        (new_apptail-Lives key k t h) tt).1.registered
