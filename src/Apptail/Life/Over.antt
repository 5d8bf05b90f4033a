-- ===== src/Apptail/Life/Over.antt =====
-- A container that has stopped while its goroutine waited.
use logyard_apps.Prelude.{
  ℕ, ◌≡◌, ◌∙◌, ap, subst, Bool, true, false, Bool-cases, some, List, arith, inl, inr, nat_eq,
  nat_eq_iff, ◌⊎◌,
}
use logyard_apps.Prelude.Text.{Text}
use logyard_apps.Prelude.Dict.{get}
use logyard_apps.Prelude.Run.{done, >>=-eq-done, done-injective}
use logyard_apps.Storage.{Storage}
use logyard_apps.DockerEvents.{Event}
use logyard_apps.Listener
use logyard_apps.Listener.{
  DockerListener, event, elem, is_released, on_event, block_until_container_stops,
}
use logyard_apps.Listener.Waiting.{act-after}
use logyard_apps.Listener.Release.{stops, closed-after, woken-after}
use logyard_apps.Tracker.{is_instance_registered}
use logyard_apps.Instances.Files.{Instance}
use logyard_apps.Instances.Tailers.{on_exit}
use logyard_apps.Apptail.{
  Apptail, to_wait, waiting, exited, Action, wakes, docker, act, act_all, run_wake, run_exit,
}
use logyard_apps.Apptail.Moves.{
  Move, idles, refuses, accepts, tailed, deleted, blocked, leaves, hears, calls,
}
use logyard_apps.Apptail.Life.{Lives, AllowsAll, is_tailed}
use logyard_apps.Apptail.Life.Whole.{act-Lives, act_all-keeps, unit_each}
use logyard_apps.Apptail.Life.Until.{not_tailed_again, stands_elsewhere}

closed-block :
    (id : Text) (l l' : DockerListener) (ch : ℕ)
    → block_until_container_stops id l ≡ done (ch, l')
    → l'.closed ≡ l.closed
unfolding block_until_container_stops
closed-block id l l' ch e = ground (arith, e)

module _ {M : Type 0} (loaded : Bool) (key : Text) (k : ℕ) (i : Instance) (ch : ℕ) where
  -- The goroutine may go on, or it has removed the instance.
  abbrev pub IsFreed : Apptail M → Type 0
  IsFreed s =
      ((s.waiters k ≡ waiting i ch) × (elem ch s.listener.closed ≡ true)) ⊎ (s.waiters k ≡ exited i)

  Move-exited :
      (a : Action) (s s' : Apptail M)
      → Lives loaded key k s
      → Move s s' a
      → s.waiters k ≡ exited i
      → s'.waiters k ≡ exited i
  Move-exited a s s' l (idles _ m e) here = rw e here
  Move-exited _ s s' l (refuses g started e) here = rw e here
  Move-exited _ s s' l (accepts g started e) here = rw e here
  Move-exited _ s s' l (deleted j g h e) here = rw e here
  Move-exited _ s s' l (hears evt m b e) here = rw e here
  Move-exited a s s' l (calls _ t c e) here = rw e here
  Move-exited _ s s' l (tailed j fs g t h e) here =
      let again = not_tailed_again loaded key k s j g l h (λ p. absurd (ground (arith, p, here))) in
      rw e (rw again here)
  Move-exited _ s s' l (blocked j g d m h b e) here =
      let other =
        stands_elsewhere k s j (to_wait g) (exited i) h here (λ p. absurd (ground (arith, p))) in
      rw e (rw other here)
  Move-exited _ s s' l (leaves j g d t h r e) here =
      let other =
        stands_elsewhere k s j (waiting g d) (exited i) h here (λ p. absurd (ground (arith, p))) in
      rw e (rw other here)

  Move-IsFreed :
      (a : Action) (s s' : Apptail M) → Lives loaded key k s → Move s s' a → IsFreed s → IsFreed s'
  Move-IsFreed a s s' l m (inr here) = inr (Move-exited a s s' l m here)
  Move-IsFreed a s s' l (idles _ m e) (inl w) = rw e (inl w)
  Move-IsFreed _ s s' l (refuses g started e) (inl w) = rw e (inl w)
  Move-IsFreed _ s s' l (accepts g started e) (inl w) = rw e (inl w)
  Move-IsFreed _ s s' l (deleted j g h e) (inl w) = rw e (inl w)
  Move-IsFreed a s s' l (calls _ t c e) (inl w) = rw e (inl w)
  Move-IsFreed _ s s' l (tailed j fs g t h e) (inl (here, c)) =
      let again = not_tailed_again loaded key k s j g l h (λ p. absurd (ground (arith, p, here))) in
      rw e (inl (rw again here, c))
  Move-IsFreed _ s s' l (blocked j g d m h b e) (inl (here, c)) =
      let other =
        stands_elsewhere k s j (to_wait g) (waiting i ch) h here
          (λ p. absurd (ground (arith, p))) in
      rw e (inl (rw other here, rw (closed-block g.docker_id s.listener m d b) c))
  Move-IsFreed _ s s' l (leaves j g d t h r e) (inl (here, c)) = elim (Bool-cases (nat_eq j k)) [
    | inl same ↦
        let moved : s.waiters k ≡ waiting g d =
          subst (λ m. s.waiters m ≡ waiting g d) ((nat_eq_iff j k).0 same) h in
        rw e (inr (rw same (ground (arith, moved, here))))
    | inr other ↦ rw e (inl (rw other here, c))
  ]
  Move-IsFreed _ s s' l (hears evt m b e) (inl (here, c)) =
      let same = act-after (event evt) s.listener m l.sound (unfold Listener.act in b) in
      rw e (inl (here, rw same (closed-after (event evt) s.listener ch c)))

  module _ {B : Type 0} (st : Storage M B) where
    run_exit-exited :
        (s s' : Apptail M) → run_exit st true k i s ≡ done s' → s'.waiters k ≡ exited i
    unfolding run_exit
    run_exit-exited s s' e =
        let (t, run, after) = >>=-eq-done (on_exit st i s.tracker) _ e in
        rw (← done-injective after) (ground arith)

    wakes-exited :
        (s s' : Apptail M) → IsFreed s → act st (wakes k) s ≡ done s' → s'.waiters k ≡ exited i
    unfolding act run_wake
    wakes-exited s s' (inl (here, c)) e =
        let run : run_exit st (is_released s.listener ch) k i s ≡ done s' =
          subst (λ w. run_wake st k w s ≡ done s') here e in
        run_exit-exited s s' (subst (λ b. run_exit st b k i s ≡ done s') c run)
    wakes-exited s s' (inr here) e =
        let run : done s ≡ done s' = subst (λ w. run_wake st k w s ≡ done s') here e in
        rw (← done-injective run) here

    -- A die or kill event of a container that is waited for, then anything, then a step of the
    -- goroutine that waits: the instance is out of the tracker, and stays so whatever comes later,
    -- where one message of all names the container and docker lists it when the tracker is cleaned.
    pub removed_once_stopped :
        (evt : Event) (between later : List Action) (s s₁ s₂ s₃ s₄ : Apptail M)
        → Lives loaded key k s
        → s.waiters k ≡ waiting i ch
        → get s.listener.waiters key ≡ some ch
        → stops key (event evt) ≡ true
        → act st (docker evt) s ≡ done s₁
        → AllowsAll key k between s₁.n
        → act_all st between s₁ ≡ done s₂
        → act st (wakes k) s₂ ≡ done s₃
        → AllowsAll key k later s₃.n
        → act_all st later s₃ ≡ done s₄
        → is_instance_registered s₄.tracker key ≡ false
    unfolding act
    removed_once_stopped evt between later s s₁ s₂ s₃ s₄ l here there stop e₁ p₂ e₂ e₃ p₄ e₄ =
        let (m, heard, after) = >>=-eq-done (on_event evt s.listener) _ e₁ in
        let same = act-after (event evt) s.listener m l.sound (unfold Listener.act in heard) in
        let freed : IsFreed s₁ =
          rw (← done-injective after)
            (inl (here, rw same (woken-after (event evt) s.listener key ch there stop))) in
        let l₁ = act-Lives st loaded key k (docker evt) s s₁ tt e₁ l in
        let (freed₂, l₂) =
          act_all-keeps st loaded key k IsFreed (λ a. Unit) (λ a u u' q. Move-IsFreed a u u')
            between s₁ s₂ p₂ (unit_each between) e₂ l₁ freed in
        let over = wakes-exited s₂ s₃ freed₂ e₃ in
        let l₃ = act-Lives st loaded key k (wakes k) s₂ s₃ tt e₃ l₂ in
        let (over₄, l₄) =
          act_all-keeps st loaded key k (λ u. u.waiters k ≡ exited i) (λ a. Unit)
            (λ a u u' q. Move-exited a u u') later s₃ s₄ p₄ (unit_each later) e₄ l₃ over in
        l₄.registered ∙ ap (is_tailed loaded) over₄
