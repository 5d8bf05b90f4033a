-- ===== src/Tracker/Shared/Sound.antt =====
-- What a goroutine in `Update` has looked up it may use, whatever the others do in between.
use logyard_apps.Prelude.{
  ℕ, ◌<◌, ◌≡◌, ◌≢◌, subst, refl, true, false, some, List, [], ◌∷◌, nat_eq, arith, inl, inr,
  Option-cases, Bool-cases,
}
use logyard_apps.Prelude.Text.{Text, eq_iff}
use logyard_apps.Prelude.Int.{ℤ}
use logyard_apps.Prelude.Dict.{get, contains, get-put, get-delete}
use logyard_apps.Tracker.Shared.{
  Heap, set, register_locked, initialize_locked, delete_locked, Phase, idle, called, has_node,
  has_child, has_box, nil_box, advance, Shared, Action, registers, initializes, deletes,
  calls_update, advances, begin, act, act_all, new_shared,
}
use logyard_apps.Tracker.Shared.Separate.{
  IsSeparate, registered-IsSeparate, initialized-IsSeparate, deleted-IsSeparate, advance-IsSeparate,
}

-- A map that was that of instance `k`, and is that of no other.
pub record Was (h : Heap) (k : Text) (n : ℕ) : Type 0 where
  pub below : n < h.next_node
  pub only : (j : Text) → get h.instances j ≡ some n → j ≡ k

abbrev pub Holds : Heap → Phase → Type 0
Holds h idle = Unit
Holds h (called k c x) = Unit
Holds h (has_node k c x n) = Was h k n
Holds h (has_child k c x n) = Was h k n × (contains (h.nodes n) c ≡ true)
Holds h (has_box k c x n b) = Was h k n × (get (h.nodes n) c ≡ some b)
Holds h nil_box = false ≡ true

-- A locked method leaves what the goroutines hold: their maps lose no file, and are given to no
-- other instance.
record Keeps (h h' : Heap) : Type 0 where
  was : (k : Text) (n : ℕ) → Was h k n → Was h' k n
  found :
      (n : ℕ) (c : Text) (b : ℕ)
      → n < h.next_node
      → get (h.nodes n) c ≡ some b
      → get (h'.nodes n) c ≡ some b

registered-Keeps : (h : Heap) (k : Text) → IsSeparate h → Keeps h (register_locked k h)
unfolding register_locked
registered-Keeps h k s = record {
  was = λ j n w. record {
    below = ground (arith, w.below);
    only = λ i e. ground (arith, w.below, w.only i, get-put h.instances k i h.next_node, e);
  };
  found = λ n c b l e. ground (arith, e, l);
}

initialized-Keeps :
    (h : Heap) (k c : Text) (x : ℤ) → IsSeparate h → Keeps h (initialize_locked k c x h)
unfolding initialize_locked
initialized-Keeps h k c x s = elim (Option-cases (get h.instances k)) [
  | inl e ↦ rw e (record { was = λ j n w. w; found = λ n d b l u. u })
  | inr (m, e) ↦ rw e (record {
    was = λ j n w. record {
      below = ground (arith, w.below);
      only = λ i u. ground (arith, w.only i, u);
    };
    found = λ n d b l u. ground (arith, u, get-put (h.nodes m) c d h.next_box, eq_iff c d);
  })
]

deleted-Keeps : (h : Heap) (k : Text) → Keeps h (delete_locked k h)
unfolding delete_locked
deleted-Keeps h k = record {
  was = λ j n w. record {
    below = w.below;
    only = λ i e. ground (arith, w.only i, get-delete h.instances k i, e);
  };
  found = λ n c b l e. e;
}

Holds-kept : {h h' : Heap} (p : Phase) → Keeps h h' → Holds h p → Holds h' p
Holds-kept idle q w = tt
Holds-kept (called k c x) q w = tt
Holds-kept (has_node k c x n) q w = q.was k n w
Holds-kept {h} (has_child k c x n) q (w, e) = elim (Option-cases (get (h.nodes n) c)) [
  | inl none_there ↦ absurd (ground (arith, e, none_there))
  | inr (b, there) ↦ (q.was k n w, rw (q.found n c b w.below there) refl)
]
Holds-kept (has_box k c x n b) q (w, e) = (q.was k n w, q.found n c b w.below e)
Holds-kept nil_box q w = w

-- A step of `Update` leaves the maps alone, and what it has looked up then it may use.
advance-Holds :
    (h : Heap) (p : Phase) → IsSeparate h → Holds h p → Holds (advance h p).0 (advance h p).1
unfolding advance
advance-Holds h idle s w = tt
advance-Holds h (called k c x) s w = elim (Option-cases (get h.instances k)) [
  | inl e ↦ rw (advance, Holds, e) tt
  | inr (n, e) ↦
      rw (advance, Holds, e)
        (rw (advance, e)
          (record { below = s.node_below k n e; only = λ j u. s.node_once j k n u e }))
]
advance-Holds h (has_node k c x n) s w = elim (Bool-cases (contains (h.nodes n) c)) [
  | inl e ↦ rw (advance, Holds, e) (rw (advance, e) (w, e))
  | inr e ↦ rw (advance, Holds, e) tt
]
advance-Holds h (has_child k c x n) s (w, e) = elim (Option-cases (get (h.nodes n) c)) [
  | inl none_there ↦ absurd (ground (arith, e, none_there))
  | inr (b, there) ↦ rw (advance, Holds, there) (rw (advance, there) (w, there))
]
advance-Holds h (has_box k c x n b) s w = tt
advance-Holds h nil_box s w = w

kept : (h : Heap) → Keeps h h
kept h = record { was = λ j m w. w; found = λ m d y l u. u }

advance-Keeps : (h : Heap) (p : Phase) → Keeps h (advance h p).0
unfolding advance
advance-Keeps h idle = kept h
advance-Keeps h (called k c x) = elim (Option-cases (get h.instances k)) [
  | inl e ↦ rw (advance, e) (kept h)
  | inr (n, e) ↦ rw (advance, e) (kept h)
]
advance-Keeps h (has_node k c x n) = elim (Bool-cases (contains (h.nodes n) c)) [
  | inl e ↦ rw (advance, e) (kept h)
  | inr e ↦ rw (advance, e) (kept h)
]
advance-Keeps h (has_child k c x n) = elim (Option-cases (get (h.nodes n) c)) [
  | inl e ↦ rw (advance, e) (kept h)
  | inr (b, e) ↦ rw (advance, e) (kept h)
]
advance-Keeps h (has_box k c x n b) = record {
  was = λ j m w. record { below = w.below; only = w.only };
  found = λ m d y l u. u;
}
advance-Keeps h nil_box = kept h

Holds-set :
    (h : Heap) (f : ℕ → Phase) (i : ℕ) (p : Phase)
    → Holds h p
    → ((j : ℕ) → Holds h (f j))
    → (j : ℕ) → Holds h (set f i p j)
Holds-set h f i p w ws j = elim (Bool-cases (nat_eq i j)) [
  | inl same ↦ rw same w
  | inr other ↦ rw other (ws j)
]

Holds-begin : (h : Heap) (p : Phase) (k c : Text) (x : ℤ) → Holds h p → Holds h (begin p k c x)
Holds-begin h idle k c x w = tt
Holds-begin h (called k' c' x') k c x w = w
Holds-begin h (has_node k' c' x' n) k c x w = w
Holds-begin h (has_child k' c' x' n) k c x w = w
Holds-begin h (has_box k' c' x' n b) k c x w = w
Holds-begin h nil_box k c x w = w

-- In every state that is reached the maps are separate, and no goroutine in `Update` has met a nil.
pub record IsSound (s : Shared) : Type 0 where
  pub separate : IsSeparate s.heap
  pub holds : (i : ℕ) → Holds s.heap (s.phases i)

pub act-IsSound : (a : Action) (s : Shared) → IsSound s → IsSound (act a s)
unfolding act
act-IsSound (registers k) s w = record {
  separate = registered-IsSeparate s.heap k w.separate;
  holds = λ i. Holds-kept (s.phases i) (registered-Keeps s.heap k w.separate) (w.holds i);
}
act-IsSound (initializes k c x) s w = record {
  separate = initialized-IsSeparate s.heap k c x w.separate;
  holds = λ i. Holds-kept (s.phases i) (initialized-Keeps s.heap k c x w.separate) (w.holds i);
}
act-IsSound (deletes k) s w = record {
  separate = deleted-IsSeparate s.heap k w.separate;
  holds = λ i. Holds-kept (s.phases i) (deleted-Keeps s.heap k) (w.holds i);
}
act-IsSound (calls_update i k c x) s w = record {
  separate = w.separate;
  holds = λ j.
      Holds-set s.heap s.phases i _ (Holds-begin s.heap (s.phases i) k c x (w.holds i)) w.holds j;
}
act-IsSound (advances i) s w = record {
  separate = advance-IsSeparate s.heap (s.phases i) w.separate;
  holds = λ j.
      Holds-set _ s.phases i _ (advance-Holds s.heap (s.phases i) w.separate (w.holds i))
        (λ l. Holds-kept (s.phases l) (advance-Keeps s.heap (s.phases i)) (w.holds l)) j;
}

pub new_shared-IsSound : IsSound new_shared
unfolding get
new_shared-IsSound = record {
  separate = record {
    node_below = λ j n e. absurd (ground (arith, e));
    node_once = λ j k n e. absurd (ground (arith, e));
    box_below = λ n c b e. absurd (ground (arith, e));
    box_once = λ n m c d b e. absurd (ground (arith, e));
  };
  holds = λ i. tt;
}

pub act_all-IsSound : (acts : List Action) (s : Shared) → IsSound s → IsSound (act_all acts s)
unfolding act_all
act_all-IsSound [] s w = w
act_all-IsSound (a ∷ rest) s w = act_all-IsSound rest (act a s) (act-IsSound a s w)

-- Update looks a file up twice without the mutex, and nothing that other goroutines do in between
-- makes the second lookup fail: no call dereferences a nil.
pub update_never_nil : (acts : List Action) (i : ℕ) → (act_all acts new_shared).phases i ≢ nil_box
update_never_nil acts i e = absurd (
    ground (
      arith,
      subst (Holds (act_all acts new_shared).heap) e
          ((act_all-IsSound acts new_shared new_shared-IsSound).holds i),
    ))
