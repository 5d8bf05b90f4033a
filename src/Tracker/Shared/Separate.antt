-- ===== src/Tracker/Shared/Separate.antt =====
-- No two instances share a map, and no two files share a boxed offset.
use logyard_apps.Prelude.{
  ℕ, ◌<◌, ◌≡◌, some, nat_eq, if◌then◌else◌, arith, inl, inr, Option-cases, Bool-cases,
}
use logyard_apps.Prelude.Text.{Text, ◌==◌, eq_iff}
use logyard_apps.Prelude.Int.{ℤ}
use logyard_apps.Prelude.Dict.{Dict, get, put, contains, get-put, get-delete}
use logyard_apps.Tracker.Shared.{
  Heap, set, register_locked, initialize_locked, delete_locked, Phase, idle, called, has_node,
  has_child, has_box, nil_box, advance,
}

pub record IsSeparate (h : Heap) : Type 0 where
  pub node_below : (j : Text) (n : ℕ) → get h.instances j ≡ some n → n < h.next_node
  pub node_once :
      (j k : Text) (n : ℕ) → get h.instances j ≡ some n → get h.instances k ≡ some n → j ≡ k
  pub box_below : (n : ℕ) (c : Text) (b : ℕ) → get (h.nodes n) c ≡ some b → b < h.next_box
  pub box_once :
      (n m : ℕ) (c d : Text) (b : ℕ)
      → get (h.nodes n) c ≡ some b
      → get (h.nodes m) d ≡ some b
      → (n ≡ m) × (c ≡ d)

pub get-set :
    (f : ℕ → Dict ℕ) (n m : ℕ) (c d : Text) (b : ℕ)
    → get (set f n (put (f n) c b) m) d
      ≡ (if nat_eq n m then (if c == d then some b else get (f n) d) else get (f m) d)
get-set f n m c d b = ground (arith, get-put (f n) c d b)

pub registered-IsSeparate : (h : Heap) (k : Text) → IsSeparate h → IsSeparate (register_locked k h)
unfolding register_locked get
registered-IsSeparate h k s = record {
  node_below = λ j n e. ground (arith, s.node_below j n, get-put h.instances k j h.next_node, e);
  node_once = λ i j n e f. ground (
    arith,
    s.node_below i n,
    s.node_below j n,
    s.node_once i j n,
    get-put h.instances k i h.next_node,
    get-put h.instances k j h.next_node,
    eq_iff k i,
    eq_iff k j,
    e,
    f,
  );
  box_below = λ n c b e. ground (arith, s.box_below n c b, e);
  box_once = λ n m c d b e f. ground (arith, s.box_once n m c d b, e, f);
}

pub initialized-IsSeparate :
    (h : Heap) (k c : Text) (x : ℤ) → IsSeparate h → IsSeparate (initialize_locked k c x h)
unfolding initialize_locked
initialized-IsSeparate h k c x s = elim (Option-cases (get h.instances k)) [
  | inl e ↦ rw e s
  | inr (m, e) ↦ elim (Bool-cases (contains (h.nodes m) c)) [
    | inl old ↦ rw (e, old) s
    | inr new ↦
        rw (e, new)
          (record {
            node_below = s.node_below;
            node_once = s.node_once;
            box_below = λ n d b u. ground (
              arith,
              s.box_below n d b,
              get-set h.nodes m n c d h.next_box,
              s.box_below m d b,
              u,
            );
            box_once = λ n n' d d' b u u'. ground (
              arith,
              s.box_once n n' d d' b,
              s.box_once m n' d d' b,
              s.box_once n m d d' b,
              s.box_once m m d d' b,
              s.box_below n d b,
              s.box_below n' d' b,
              s.box_below m d b,
              s.box_below m d' b,
              get-set h.nodes m n c d h.next_box,
              get-set h.nodes m n' c d' h.next_box,
              eq_iff c d,
              eq_iff c d',
              u,
              u',
            );
          })
  ]
]

pub deleted-IsSeparate : (h : Heap) (k : Text) → IsSeparate h → IsSeparate (delete_locked k h)
unfolding delete_locked
deleted-IsSeparate h k s = record {
  node_below = λ j n e. ground (arith, s.node_below j n, get-delete h.instances k j, e);
  node_once = λ i j n e f.
      ground
        (arith, s.node_once i j n, get-delete h.instances k i, get-delete h.instances k j, e, f);
  box_below = s.box_below;
  box_once = s.box_once;
}

pub advance-IsSeparate : (h : Heap) (p : Phase) → IsSeparate h → IsSeparate (advance h p).0
unfolding advance
advance-IsSeparate h idle s = s
advance-IsSeparate h (called k c x) s = elim (Option-cases (get h.instances k)) [
  | inl e ↦ rw (advance, e) s
  | inr (n, e) ↦ rw (advance, e) s
]
advance-IsSeparate h (has_node k c x n) s = elim (Bool-cases (contains (h.nodes n) c)) [
  | inl e ↦ rw (advance, e) s
  | inr e ↦ rw (advance, e) s
]
advance-IsSeparate h (has_child k c x n) s = elim (Option-cases (get (h.nodes n) c)) [
  | inl e ↦ rw (advance, e) s
  | inr (b, e) ↦ rw (advance, e) s
]
advance-IsSeparate h (has_box k c x n b) s = record {
  node_below = s.node_below;
  node_once = s.node_once;
  box_below = s.box_below;
  box_once = s.box_once;
}
advance-IsSeparate h nil_box s = s
