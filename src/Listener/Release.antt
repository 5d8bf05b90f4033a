-- ===== src/Listener/Release.antt =====
-- When the wait of a goroutine ends.
use logyard_apps.Prelude.{
  inr, inl, Bool-cases, ℕ, ◌<◌, ◌≡◌, ◌≢◌, refl, Bool, true, false, ◌&&◌, ◌||◌, none, some, List, [],
  ◌∷◌, arith, nat_eq, take,
}
use logyard_apps.Prelude.Text.{Text, ◌==◌, eq_iff}
use logyard_apps.Prelude.Dict.{get-put_self, get, get-put, get-delete}
use logyard_apps.Prelude.Run.{done, >>=-eq-done, done-injective}
use logyard_apps.DockerEvents.{id_length}
use logyard_apps.Listener.{
  DockerListener, Action, wait, event, act, act_all, block_until_container_stops, is_released,
  is_stop, elem,
}
use logyard_apps.Listener.Waiting.{block-IsSound, IsSound, act-IsSound, act-after, after}

-- The action is a "die" or "kill" event of the container with this short id.
abbrev pub stops : Text → Action → Bool
stops key (wait id) = false
stops key (event evt) = is_stop evt.status && (take id_length evt.id == key)

abbrev pub any_stops : Text → List Action → Bool
any_stops key [] = false
any_stops key (a ∷ rest) = stops key a || any_stops key rest

elem_cons : (c d : ℕ) (ds : List ℕ) → elem c (d ∷ ds) ≡ nat_eq d c || elem c ds
unfolding elem
elem_cons c d ds = refl

-- A wait that is over stays over.
pub closed-after :
    (a : Action) (l : DockerListener) (ch : ℕ)
    → elem ch l.closed ≡ true
    → elem ch (after a l).closed ≡ true
unfolding elem
closed-after (wait id) l ch h = ground arith
closed-after (event evt) l ch h = ground arith

-- The registered waiter of a container is woken by its stop event, and by no other action.
pub woken-after :
    (a : Action) (l : DockerListener) (key : Text) (ch : ℕ)
    → get l.waiters key ≡ some ch
    → stops key a ≡ true
    → elem ch (after a l).closed ≡ true
unfolding elem
woken-after (wait id) l key ch e s = cc
woken-after (event evt) l key ch e s = ground (arith, eq_iff (take id_length evt.id) key)

pub waiting-after :
    (a : Action) (l : DockerListener) (key : Text) (ch : ℕ)
    → get l.waiters key ≡ some ch
    → stops key a ≡ false
    → get (after a l).waiters key ≡ some ch
waiting-after (wait id) l key ch e s =
    ground
      (arith, get-put l.waiters (take id_length id) key l.fresh, eq_iff (take id_length id) key)
waiting-after (event evt) l key ch e s =
    ground
      (arith, get-delete l.waiters (take id_length evt.id) key, eq_iff (take id_length evt.id) key)

closed_stays :
    (rest : List Action) (l l' : DockerListener) (ch : ℕ)
    → IsSound l
    → act_all rest l ≡ done l'
    → elem ch l.closed ≡ true
    → elem ch l'.closed ≡ true
unfolding act_all
closed_stays [] l l' ch h e c = rw (← done-injective e) c
closed_stays (a ∷ rest) l l' ch h e c =
    let (mid, first, more) = >>=-eq-done (act a l) (act_all rest) e in
    closed_stays rest mid l' ch (act-IsSound a l mid h first) more
      (rw (act-after a l mid h first) (closed-after a l ch c))

waiting_until_stop :
    (rest : List Action) (l l' : DockerListener) (key : Text) (ch : ℕ)
    → IsSound l
    → get l.waiters key ≡ some ch
    → act_all rest l ≡ done l'
    → elem ch l'.closed ≡ any_stops key rest
unfolding act_all
waiting_until_stop [] l l' key ch h w e = rw (← done-injective e) (h.shut key ch w)
waiting_until_stop (a ∷ rest) l l' key ch h w e =
    let (mid, first, more) = >>=-eq-done (act a l) (act_all rest) e in
    let sound = act-IsSound a l mid h first in
    let same = act-after a l mid h first in
    elim (Bool-cases (stops key a)) [
      | inl stop ↦
          rw stop (closed_stays rest mid l' ch sound more (rw same (woken-after a l key ch w stop)))
      | inr other ↦ rw other (
          waiting_until_stop rest mid l' key ch sound (rw same (waiting-after a l key ch w other))
            more)
    ]

pub registered :
    (id : Text) (l l₁ : DockerListener) (ch : ℕ)
    → get l.waiters (take id_length id) ≡ none
    → block_until_container_stops id l ≡ done (ch, l₁)
    → get l₁.waiters (take id_length id) ≡ some ch
unfolding block_until_container_stops
registered id l l₁ ch free e = ground (arith, get-put_self l.waiters (take id_length id) l.fresh)

-- The first goroutine that waits for a container is released exactly when a "die" or "kill" event
-- of that container follows, whatever else happens.
pub released_iff_stopped :
    (id : Text) (ch : ℕ) (rest : List Action) (l l₁ l₂ : DockerListener)
    → IsSound l
    → get l.waiters (take id_length id) ≡ none
    → block_until_container_stops id l ≡ done (ch, l₁)
    → act_all rest l₁ ≡ done l₂
    → is_released l₂ ch ≡ any_stops (take id_length id) rest
released_iff_stopped id ch rest l l₁ l₂ h free blocked run =
    waiting_until_stop rest l₁ l₂ (take id_length id) ch (block-IsSound id l l₁ ch h blocked)
      (registered id l l₁ ch free blocked) run

-- No container is registered with the channel, and it is open.
record IsOrphan (ch : ℕ) (l : DockerListener) : Type 0 where
  made : ch < l.fresh
  open_still : elem ch l.closed ≡ false
  unknown : (id : Text) → get l.waiters id ≢ some ch

IsOrphan-after :
    (a : Action) (l : DockerListener) (ch : ℕ) → IsOrphan ch l → IsOrphan ch (after a l)
unfolding elem
IsOrphan-after (wait id) l ch o = record {
  made = ground (arith, o.made);
  open_still = ground (arith, o.open_still);
  unknown =
      λ j p. ground (arith, get-put l.waiters (take id_length id) j l.fresh, o.made, o.unknown j);
}
IsOrphan-after (event evt) l ch o = record {
  made = ground (arith, o.made);
  open_still = ground (arith, o.open_still, o.unknown (take id_length evt.id));
  unknown = λ j p. ground (arith, get-delete l.waiters (take id_length evt.id) j, o.unknown j);
}

orphan_stays :
    (rest : List Action) (l l' : DockerListener) (ch : ℕ)
    → IsSound l
    → IsOrphan ch l
    → act_all rest l ≡ done l'
    → elem ch l'.closed ≡ false
unfolding act_all
orphan_stays [] l l' ch h o e = rw (← done-injective e) o.open_still
orphan_stays (a ∷ rest) l l' ch h o e =
    let (mid, first, more) = >>=-eq-done (act a l) (act_all rest) e in
    orphan_stays rest mid l' ch (act-IsSound a l mid h first)
      (rw (act-after a l mid h first) (IsOrphan-after a l ch o)) more

orphaned :
    (id : Text) (l l₁ : DockerListener) (ch other : ℕ)
    → IsSound l
    → get l.waiters (take id_length id) ≡ some other
    → block_until_container_stops id l ≡ done (ch, l₁)
    → IsOrphan ch l₁
unfolding block_until_container_stops
orphaned id l l₁ ch other h taken e = record {
  made = ground arith;
  open_still = elim (Bool-cases (elem ch l₁.closed)) [
    | inl c ↦ absurd (ground (arith, h.old ch))
    | inr c ↦ c
  ];
  unknown = λ j p. ground (arith, h.made j ch);
}

-- A second goroutine that waits for a container which already has a waiter is never released, not
-- even by a "die" or "kill" event of the container.
pub second_waiter_stuck :
    (id : Text) (ch other : ℕ) (rest : List Action) (l l₁ l₂ : DockerListener)
    → IsSound l
    → get l.waiters (take id_length id) ≡ some other
    → block_until_container_stops id l ≡ done (ch, l₁)
    → act_all rest l₁ ≡ done l₂
    → is_released l₂ ch ≡ false
second_waiter_stuck id ch other rest l l₁ l₂ h taken blocked run =
    orphan_stays rest l₁ l₂ ch (block-IsSound id l l₁ ch h blocked)
      (orphaned id l l₁ ch other h taken blocked) run
