-- ===== src/Tracker/Shared/Looks.antt =====
-- One step of a goroutine, and what the instances and offsets look like after it.
use logyard_apps.Prelude.{ℕ, ◌≡◌, Option, none, some, arith, inl, inr, Option-cases, Bool-cases}
use logyard_apps.Prelude.Text.{Text, eq_iff}
use logyard_apps.Prelude.Int.{ℤ}
use logyard_apps.Prelude.Dict.{get, contains, get-put, get-delete}
use logyard_apps.Tracker.Spec.{View, register, initialize, drop_instance, spec, spec_all}
use logyard_apps.Tracker.Shared.{
  Heap, set, register_locked, initialize_locked, delete_locked, Phase, idle, called, has_node,
  has_child, has_box, nil_box, advance, Shared, Action, registers, initializes, deletes,
  calls_update, advances, act, effect_of, effect,
}
use logyard_apps.Tracker.Shared.Separate.{IsSeparate, get-set}
use logyard_apps.Tracker.Shared.Sound.{Was, Holds, IsSound}

abbrev pub opened : Heap → Option ℕ → Option ℤ
opened h none = none
opened h (some b) = some (h.boxes b)

abbrev pub file_in : Heap → Option ℕ → Text → Option ℤ
file_in h none d = none
file_in h (some n) d = opened h (get (h.nodes n) d)

-- The heap looks like `v`.
pub record Looks (h : Heap) (v : View) : Type 0 where
  pub registered : (j : Text) → contains h.instances j ≡ v.registered j
  pub offset : (j d : Text) → file_in h (get h.instances j) d ≡ v.offset j d

registered-Looks :
    (h : Heap) (v : View) (k : Text)
    → IsSeparate h
    → Looks h v
    → Looks (register_locked k h) (spec (register k) v)
unfolding register_locked get
registered-Looks h v k s w = elim (Option-cases (get h.instances k)) [
  | inr (n, e) ↦ rw e (record {
    registered = λ j. ground (arith, w.registered j, w.registered k, e, eq_iff k j);
    offset = w.offset;
  })
  | inl e ↦ rw e (record {
    registered =
        λ j. ground (arith, get-put h.instances k j h.next_node, w.registered j, eq_iff k j);
    offset = λ j d. elim (Option-cases (get h.instances j)) [
      | inl f ↦ ground (arith, get-put h.instances k j h.next_node, w.offset j d, f, eq_iff k j)
      | inr (n, f) ↦ ground (
        arith,
        get-put h.instances k j h.next_node,
        w.offset j d,
        f,
        e,
        s.node_below j n f,
        eq_iff k j,
      )
    ];
  })
]

initialized-Looks :
    (h : Heap) (v : View) (k c : Text) (x : ℤ)
    → IsSeparate h
    → Looks h v
    → Looks (initialize_locked k c x h) (spec (initialize k c x) v)
unfolding initialize_locked
initialized-Looks h v k c x s w = elim (Option-cases (get h.instances k)) [
  | inl e ↦ rw e (record {
    registered = w.registered;
    offset = λ j d. ground (arith, w.registered k, w.offset j d, e);
  })
  | inr (m, e) ↦ elim (Bool-cases (contains (h.nodes m) c)) [
    | inl old ↦
        rw (e, old)
          (record {
            registered = w.registered;
            offset = λ j d. ground (arith, w.offset k c, w.offset j d, e, old);
          })
    | inr new ↦
        rw (e, new)
          (record {
            registered = w.registered;
            offset = λ j d. elim (Option-cases (get h.instances j)) [
              | inl f ↦ ground (arith, w.offset j d, e, f, eq_iff k j)
              | inr (n, f) ↦ elim (Option-cases (get (h.nodes n) d)) [
                | inl g ↦ ground (
                  arith,
                  w.registered k,
                  w.offset k c,
                  w.offset j d,
                  e,
                  f,
                  g,
                  new,
                  s.node_once j k n f,
                  get-set h.nodes m n c d h.next_box,
                  eq_iff k j,
                  eq_iff c d,
                )
                | inr (b, g) ↦ ground (
                  arith,
                  w.registered k,
                  w.offset k c,
                  w.offset j d,
                  e,
                  f,
                  g,
                  new,
                  s.node_once j k n f,
                  s.box_below n d b g,
                  get-set h.nodes m n c d h.next_box,
                  eq_iff k j,
                  eq_iff c d,
                )
              ]
            ];
          })
  ]
]

deleted-Looks :
    (h : Heap) (v : View) (k : Text)
    → Looks h v
    → Looks (delete_locked k h) (spec (drop_instance k) v)
unfolding delete_locked
deleted-Looks h v k w = record {
  registered = λ j. ground (arith, get-delete h.instances k j, w.registered j);
  offset = λ j d. ground (arith, get-delete h.instances k j, w.offset j d);
}

stored-Looks :
    (h : Heap) (v : View) (k c : Text) (x : ℤ) (n b : ℕ)
    → IsSeparate h
    → Was h k n
    → get (h.nodes n) c ≡ some b
    → Looks h v
    → Looks (record h { boxes = set h.boxes b x }) (spec_all (effect_of h (has_box k c x n b)) v)
stored-Looks h v k c x n b s was found w = record {
  registered = λ j. ground (arith, w.registered j);
  offset = λ j d. elim (Option-cases (get h.instances j)) [
    | inl f ↦ ground (arith, w.offset j d, w.offset k c, f, found, eq_iff k j)
    | inr (m, f) ↦ elim (Option-cases (get (h.nodes m) d)) [
      | inl g ↦ ground (
        arith,
        w.offset j d,
        w.offset k c,
        f,
        g,
        found,
        was.only j,
        eq_iff k j,
        eq_iff c d,
        s.node_once j k m f,
      )
      | inr (b', g) ↦ ground (
        arith,
        w.offset j d,
        w.offset k c,
        f,
        g,
        found,
        was.only j,
        eq_iff k j,
        eq_iff c d,
        s.node_once j k m f,
        s.box_once m n d c b' g,
      )
    ]
  ];
}

advance-Looks :
    (h : Heap) (v : View) (p : Phase)
    → IsSeparate h
    → Holds h p
    → Looks h v
    → Looks (advance h p).0 (spec_all (effect_of h p) v)
unfolding advance
advance-Looks h v idle s p w = w
advance-Looks h v (called k c x) s p w = elim (Option-cases (get h.instances k)) [
  | inl e ↦ rw (advance, e) w
  | inr (n, e) ↦ rw (advance, e) w
]
advance-Looks h v (has_node k c x n) s p w = elim (Bool-cases (contains (h.nodes n) c)) [
  | inl e ↦ rw (advance, e) w
  | inr e ↦ rw (advance, e) w
]
advance-Looks h v (has_child k c x n) s p w = elim (Option-cases (get (h.nodes n) c)) [
  | inl e ↦ rw (advance, e) w
  | inr (b, e) ↦ rw (advance, e) w
]
advance-Looks h v (has_box k c x n b) s (was, found) w = stored-Looks h v k c x n b s was found w
advance-Looks h v nil_box s p w = w

pub act-Looks :
    (a : Action) (s : Shared) (v : View)
    → IsSound s
    → Looks s.heap v
    → Looks (act a s).heap (spec_all (effect a s) v)
unfolding act
act-Looks (registers k) s v i w = registered-Looks s.heap v k i.separate w
act-Looks (initializes k c x) s v i w = initialized-Looks s.heap v k c x i.separate w
act-Looks (deletes k) s v i w = deleted-Looks s.heap v k w
act-Looks (calls_update g k c x) s v i w = w
act-Looks (advances g) s v i w = advance-Looks s.heap v (s.phases g) i.separate (i.holds g) w
