-- ===== src/Endpoint/Sessions/Numbered.antt =====
-- The sessions by their numbers, when one of them changes.
use logyard_apps.Prelude.{
  ℕ, ◌+◌, ◌≤◌, ◌≡◌, sym, ◌∙◌, ap, subst, Bool, true, false, Bool-cases, inl, inr, arith, nat_eq,
  nat_eq_iff,
}
use logyard_apps.Prelude.Text.{Text, ◌==◌, eq_of_==, has_prefix}
use logyard_apps.Tracker.Shared.{set}
use logyard_apps.Endpoint.Drain.{drain_prefix}
use logyard_apps.Endpoint.Sessions.{ended, Session, no_session, running, stopped}

-- The session has a drain of the name, which it has not stopped: it has_drain, or its line server has
-- ended by itself.
abbrev pub has_drain : {V : Type 0} → Text → Session V → Bool
has_drain name (running d) = d.drain_name == name
has_drain name (ended d) = d.drain_name == name
has_drain name other = false

abbrev pub IsNamed : {V : Type 0} → Session V → Type 0
IsNamed no_session = Unit
IsNamed (running d) = has_prefix d.drain_name drain_prefix ≡ true
IsNamed (ended d) = has_prefix d.drain_name drain_prefix ≡ true
IsNamed (stopped d) = has_prefix d.drain_name drain_prefix ≡ true

pub other_name :
    (name m : Text)
    → has_prefix name drain_prefix ≡ true
    → has_prefix m drain_prefix ≡ false
    → (name == m) ≡ false
other_name name m h g = elim (Bool-cases (name == m)) [
  | inl same ↦ absurd (ground (arith, eq_of_== name m same, h, g))
  | inr other ↦ other
]

pub nat_eq_later : (n k : ℕ) → n + 1 ≤ k → nat_eq n k ≡ false
nat_eq_later n k l = elim (Bool-cases (nat_eq n k)) [
  | inl same ↦ absurd (omega (arith, l, (nat_eq_iff n k).0 same))
  | inr other ↦ other
]

module _ {V : Type 0} where
  pub set-no_session :
      (f : ℕ → Session V) (k : ℕ) (v w : Session V) (n : ℕ)
      → f k ≡ v
      → (v ≡ no_session → false ≡ true)
      → ((j : ℕ) → n ≤ j → f j ≡ no_session)
      → (j : ℕ) → n ≤ j
      → set f k w j ≡ no_session
  set-no_session f k v w n here there fresh j l = elim (Bool-cases (nat_eq k j)) [
    | inl same ↦
        absurd (ground (arith, there (sym here ∙ ap f ((nat_eq_iff k j).0 same) ∙ fresh j l)))
    | inr other ↦ rw other (fresh j l)
  ]

  pub set-IsNamed :
      (f : ℕ → Session V) (k : ℕ) (w : Session V)
      → IsNamed w
      → ((j : ℕ) → IsNamed (f j))
      → (j : ℕ) → IsNamed (set f k w j)
  set-IsNamed f k w here all j = elim (Bool-cases (nat_eq k j)) [
    | inl same ↦ rw same here
    | inr other ↦ rw other (all j)
  ]

  pub still_owned :
      (f : ℕ → Session V) (k : ℕ) (w : Session V) (m : Text)
      → (has_drain m (f k) ≡ true → has_drain m w ≡ true)
      → (j : ℕ) × (has_drain m (f j) ≡ true)
      → (j : ℕ) × (has_drain m (set f k w j) ≡ true)
  still_owned f k w m keep (j, r) = elim (Bool-cases (nat_eq k j)) [
    | inl same ↦ (
      j,
      rw same (keep (subst (λ i. has_drain m (f i) ≡ true) (sym ((nat_eq_iff k j).0 same)) r)),
    )
    | inr other ↦ (j, rw other r)
  ]
