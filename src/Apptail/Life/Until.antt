-- ===== src/Apptail/Life/Until.antt =====
-- A container that is waited for, until it stops and after.
use logyard_apps.Prelude.{
  All, not, ℕ, ◌≡◌, sym, ◌∙◌, ap, subst, Bool, true, false, Bool-cases, some, List, arith, inl, inr,
  nat_eq, nat_eq_iff,
}
use logyard_apps.Prelude.Text.{Text}
use logyard_apps.Prelude.Dict.{get}
use logyard_apps.Prelude.Run.{done}
use logyard_apps.Storage.{Storage}
use logyard_apps.Listener
use logyard_apps.Listener.{DockerListener, event, elem, is_released, on_event}
use logyard_apps.Listener.Waiting.{act-after}
use logyard_apps.Listener.Release.{stops, waiting-after}
use logyard_apps.Tracker.{is_instance_registered}
use logyard_apps.Instances.Files.{Instance}
use logyard_apps.Apptail.{
  Apptail, to_tail, Waiter, no_waiter, to_wait, waiting, Action, docker, act_all,
}
use logyard_apps.Apptail.Moves.{
  Move, idles, refuses, accepts, tailed, deleted, blocked, leaves, hears, calls,
}
use logyard_apps.Apptail.Life.{Lives, AllowsAll, InOrder, waiter_names, is_tailed}
use logyard_apps.Apptail.Life.Waking.{block_elsewhere}
use logyard_apps.Apptail.Life.Whole.{act_all-keeps}

-- The action is no die or kill event of the container.
abbrev pub is_quiet : Text → Action → Bool
is_quiet key (docker evt) = not (stops key (event evt))
is_quiet key other = true

-- `Tail` is not run a second time for the message.
pub not_tailed_again :
    {M : Type 0} (loaded : Bool) (key : Text) (k : ℕ) (s : Apptail M) (j : ℕ) (g : Instance)
    → Lives loaded key k s
    → s.handlers j ≡ to_tail g
    → (s.waiters k ≡ no_waiter → false ≡ true)
    → nat_eq j k ≡ false
not_tailed_again loaded key k s j g l h present = elim (Bool-cases (nat_eq j k)) [
  | inl same ↦
      let here : s.handlers k ≡ to_tail g =
        subst (λ m. s.handlers m ≡ to_tail g) ((nat_eq_iff j k).0 same) h in
      let before = subst (λ f. InOrder f (s.waiters k)) here l.in_order in
      absurd (ground (arith, present before))
  | inr other ↦ other
]

-- A goroutine that stands elsewhere is another.
pub stands_elsewhere :
    {M : Type 0} (k : ℕ) (s : Apptail M) (j : ℕ) (v w : Waiter)
    → s.waiters j ≡ v
    → s.waiters k ≡ w
    → (v ≡ w → false ≡ true)
    → nat_eq j k ≡ false
stands_elsewhere k s j v w h here apart = elim (Bool-cases (nat_eq j k)) [
  | inl same ↦
      let moved : s.waiters k ≡ v = subst (λ m. s.waiters m ≡ v) ((nat_eq_iff j k).0 same) h in
      absurd (ground (arith, apart (sym moved ∙ here)))
  | inr other ↦ other
]

module _ {M : Type 0} (loaded : Bool) (key : Text) (k : ℕ) (i : Instance) (ch : ℕ) where
  -- The goroutine waits, and the listener knows its channel.
  pub record Waits (s : Apptail M) : Type 0 where
    pub here : s.waiters k ≡ waiting i ch
    pub there : get s.listener.waiters key ≡ some ch

  Move-Waits :
      (a : Action) (s s' : Apptail M)
      → is_quiet key a ≡ true
      → Lives loaded key k s
      → Move s s' a
      → Waits s
      → Waits s'
  Move-Waits a s s' q l (idles _ m e) w = rw e w
  Move-Waits _ s s' q l (refuses g started e) w = rw e (record { here = w.here; there = w.there })
  Move-Waits _ s s' q l (accepts g started e) w = rw e (record { here = w.here; there = w.there })
  Move-Waits _ s s' q l (deleted j g h e) w = rw e (record { here = w.here; there = w.there })
  Move-Waits a s s' q l (calls _ t c e) w = rw e (record { here = w.here; there = w.there })
  Move-Waits _ s s' q l (tailed j fs g t h e) w = rw e (record {
    here =
        rw (not_tailed_again loaded key k s j g l h (λ p. absurd (ground (arith, p, w.here))))
          w.here;
    there = w.there;
  })
  Move-Waits _ s s' q l (blocked j g c m h b e) w =
      let other =
        stands_elsewhere k s j (to_wait g) (waiting i ch) h w.here
          (λ p. absurd (ground (arith, p))) in
      let not_named = subst (λ v. waiter_names key v ≡ false) h (l.others j other).1 in
      rw e (record {
        here = rw other w.here;
        there = (block_elsewhere g.docker_id key s.listener m c not_named b).0 ∙ w.there;
      })
  Move-Waits _ s s' q l (leaves j g c t h r e) w =
      let other =
        stands_elsewhere k s j (waiting g c) (waiting i ch) h w.here
          (λ p. absurd (ground (arith, p, r, l.sound.shut key ch w.there))) in
      rw e (record { here = rw other w.here; there = w.there })
  Move-Waits _ s s' q l (hears evt m b e) w =
      let same = act-after (event evt) s.listener m l.sound (unfold Listener.act in b) in
      rw e (record {
        here = w.here;
        there = rw same (waiting-after (event evt) s.listener key ch w.there (ground (arith, q)));
      })

  module _ {B : Type 0} (st : Storage M B) where
    -- While no die or kill event of its container comes, an instance that is waited for stays in the
    -- tracker and is waited for, whatever the other instances, the tailers and the timer do, where
    -- one message of all names the container and docker lists it when the tracker is cleaned.
    pub waits_until_stopped :
        (actions : List Action) (s s' : Apptail M)
        → AllowsAll key k actions s.n
        → All (λ a. is_quiet key a ≡ true) actions
        → act_all st actions s ≡ done s'
        → Lives loaded key k s
        → s.waiters k ≡ waiting i ch
        → get s.listener.waiters key ≡ some ch
        → (s'.waiters k ≡ waiting i ch) × (is_instance_registered s'.tracker key ≡ true)
    waits_until_stopped actions s s' p q e l here there =
        let (w, l') =
          act_all-keeps st loaded key k Waits (λ a. is_quiet key a ≡ true) Move-Waits actions s s' p
            q e l (record { here = here; there = there }) in
        (w.here, l'.registered ∙ ap (is_tailed loaded) w.here)
