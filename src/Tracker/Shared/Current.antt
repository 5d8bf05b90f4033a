-- ===== src/Tracker/Shared/Current.antt =====
-- While no instance is removed, what a goroutine in `Update` has looked up stays current.
use logyard_apps.Prelude.{
  ℕ, ◌≡◌, subst, Bool, true, false, some, List, [], ◌∷◌, nat_eq, arith, inl, inr, Option-cases,
  Bool-cases, if◌then◌else◌, ◌&&◌, refl, ◌∙◌,
}
use logyard_apps.Prelude.Text.{Text, eq_iff, ◌==◌}
use logyard_apps.Prelude.Int.{ℤ}
use logyard_apps.Prelude.Dict.{Dict, get, contains, get-put}
use logyard_apps.Tracker.Spec.{View, spec_all}
use logyard_apps.Tracker.Shared.Sound.{Holds, act_all-IsSound, new_shared-IsSound}
use logyard_apps.Tracker.Shared.Looks.{file_in, act-Looks}
use logyard_apps.Tracker.Shared.{
  Heap, set, register_locked, initialize_locked, Phase, idle, called, has_node, has_child, has_box,
  nil_box, advance, Shared, Action, registers, initializes, deletes, calls_update, advances, begin,
  act, act_all, new_shared, effect_of,
}

abbrev heap_view : Heap → View
heap_view h = record {
  registered = λ j. contains h.instances j;
  offset = λ j d. file_in h (get h.instances j) d;
}

abbrev pub is_delete : Action → Bool
is_delete (deletes k) = true
is_delete other = false

abbrev pub NeverDeletes : List Action → Type 0
NeverDeletes [] = Unit
NeverDeletes (a ∷ rest) = (is_delete a ≡ false) × NeverDeletes rest

abbrev IsCurrent : Dict ℕ → Phase → Type 0
IsCurrent instances (has_node k c x n) = get instances k ≡ some n
IsCurrent instances (has_child k c x n) = get instances k ≡ some n
IsCurrent instances (has_box k c x n b) = get instances k ≡ some n
IsCurrent instances other = Unit

-- The instances keep their maps.
abbrev Grows : Dict ℕ → Dict ℕ → Type 0
Grows m m' = (k : Text) (n : ℕ) → get m k ≡ some n → get m' k ≡ some n

IsCurrent-grown : (m m' : Dict ℕ) (p : Phase) → Grows m m' → IsCurrent m p → IsCurrent m' p
IsCurrent-grown m m' idle g w = tt
IsCurrent-grown m m' (called k c x) g w = tt
IsCurrent-grown m m' (has_node k c x n) g w = g k n w
IsCurrent-grown m m' (has_child k c x n) g w = g k n w
IsCurrent-grown m m' (has_box k c x n b) g w = g k n w
IsCurrent-grown m m' nil_box g w = tt

register-Grows : (h : Heap) (k : Text) → Grows h.instances (register_locked k h).instances
unfolding register_locked
register-Grows h k j n e = ground (arith, e, get-put h.instances k j h.next_node, eq_iff k j)

instances-initialize_locked :
    (h : Heap) (k c : Text) (x : ℤ) → (initialize_locked k c x h).instances ≡ h.instances
unfolding initialize_locked
instances-initialize_locked h k c x = ground arith

instances-advance : (h : Heap) (p : Phase) → (advance h p).0.instances ≡ h.instances
unfolding advance
instances-advance h p = ground arith

advance-IsCurrent :
    (h : Heap) (p : Phase) → IsCurrent h.instances p → IsCurrent h.instances (advance h p).1
unfolding advance
advance-IsCurrent h idle w = tt
advance-IsCurrent h (called k c x) w = elim (Option-cases (get h.instances k)) [
  | inl e ↦ rw (advance, IsCurrent, e) tt
  | inr (n, e) ↦ rw (advance, IsCurrent, e) e
]
advance-IsCurrent h (has_node k c x n) w = elim (Bool-cases (contains (h.nodes n) c)) [
  | inl e ↦ rw (advance, IsCurrent, e) w
  | inr e ↦ rw (advance, IsCurrent, e) tt
]
advance-IsCurrent h (has_child k c x n) w = elim (Option-cases (get (h.nodes n) c)) [
  | inl e ↦ rw (advance, IsCurrent, e) tt
  | inr (b, e) ↦ rw (advance, IsCurrent, e) w
]
advance-IsCurrent h (has_box k c x n b) w = tt
advance-IsCurrent h nil_box w = tt

IsCurrent-begin :
    (m : Dict ℕ) (p : Phase) (k c : Text) (x : ℤ) → IsCurrent m p → IsCurrent m (begin p k c x)
IsCurrent-begin m idle k c x w = tt
IsCurrent-begin m (called k' c' x') k c x w = w
IsCurrent-begin m (has_node k' c' x' n) k c x w = w
IsCurrent-begin m (has_child k' c' x' n) k c x w = w
IsCurrent-begin m (has_box k' c' x' n b) k c x w = w
IsCurrent-begin m nil_box k c x w = w

IsCurrent-set :
    (m : Dict ℕ) (f : ℕ → Phase) (i : ℕ) (p : Phase)
    → IsCurrent m p
    → ((j : ℕ) → IsCurrent m (f j))
    → (j : ℕ) → IsCurrent m (set f i p j)
IsCurrent-set m f i p w ws j = elim (Bool-cases (nat_eq i j)) [
  | inl same ↦ rw same w
  | inr other ↦ rw other (ws j)
]

abbrev AllCurrent : Shared → Type 0
AllCurrent s = (i : ℕ) → IsCurrent s.heap.instances (s.phases i)

act-AllCurrent :
    (a : Action) (s : Shared) → is_delete a ≡ false → AllCurrent s → AllCurrent (act a s)
unfolding act
act-AllCurrent (registers k) s d w i =
    IsCurrent-grown _ _ (s.phases i) (register-Grows s.heap k) (w i)
act-AllCurrent (initializes k c x) s d w i = rw instances-initialize_locked (w i)
act-AllCurrent (deletes k) s d w i = absurd (ground (arith, d))
act-AllCurrent (calls_update g k c x) s d w i =
    IsCurrent-set _ s.phases g _ (IsCurrent-begin _ (s.phases g) k c x (w g)) w i
act-AllCurrent (advances g) s d w i =
    rw instances-advance
      (IsCurrent-set _ s.phases g _ (advance-IsCurrent s.heap (s.phases g) (w g)) w i)

act_all-AllCurrent :
    (acts : List Action) (s : Shared)
    → NeverDeletes acts
    → AllCurrent s
    → AllCurrent (act_all acts s)
unfolding act_all
act_all-AllCurrent [] s d w = w
act_all-AllCurrent (a ∷ rest) s (d, ds) w =
    act_all-AllCurrent rest (act a s) ds (act-AllCurrent a s d w)

-- While no instance is removed, the store of a call of Update that has found the boxed offset of a
-- file is there for its file, and changes no other, whatever the other goroutines did.
pub update_counts :
    (acts : List Action) (i : ℕ) (k c : Text) (x : ℤ) (n b : ℕ)
    → NeverDeletes acts
    → (act_all acts new_shared).phases i ≡ has_box k c x n b
    → (j d : Text)
    → file_in
        (act (advances i) (act_all acts new_shared)).heap
        (get (act (advances i) (act_all acts new_shared)).heap.instances j)
        d
      ≡ (if (k == j) && (c == d)
          then some x
          else file_in
              (act_all acts new_shared).heap
              (get (act_all acts new_shared).heap.instances j)
              d)
update_counts acts i k c x n b d e j f =
    let s = act_all acts new_shared in
    let current =
      subst (IsCurrent s.heap.instances) e (act_all-AllCurrent acts new_shared d (λ g. tt) i) in
    let sound = act_all-IsSound acts new_shared new_shared-IsSound in
    let (was, found) = subst (Holds s.heap) e (sound.holds i) in
    let looked =
      act-Looks (advances i) s (heap_view s.heap) sound
        (record { registered = λ g. refl; offset = λ g h. refl }) in
    let moved =
      subst
        (λ p.
          file_in (act (advances i) s).heap (get (act (advances i) s).heap.instances j) f
          ≡ (spec_all (effect_of s.heap p) (heap_view s.heap)).offset j f)
        e (looked.offset j f) in
    moved ∙ ground (arith, current, found)
