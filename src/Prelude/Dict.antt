-- ===== src/Prelude/Dict.antt =====
-- Go's `map[string]V`, as an association list. A `range` loop goes through the list; Go leaves the
-- order open, and the theorems hold for every list, so for every order.
use mathlib.Core.Path.{◌≡◌, refl}
use mathlib.Core.Bool.{Bool, true, false}
use mathlib.Core.Option.{Option, none, some}
use mathlib.Core.List.{List, [], ◌∷◌}
use native.Mathlib.Omega.{arith}
use mathlib.Core.Logic.{inl, inr}
use logyard_apps.Prelude.Tests.{Bool-cases, if◌then◌else◌}
use logyard_apps.Prelude.Text.{Text, ◌==◌, eq_iff, eq_refl, eq_of_==}

abbrev pub Dict {ℓ} : Type ℓ → Type ℓ
Dict V = List (Text × V)

abbrev pub is_some {ℓ} : {A : Type ℓ} → Option A → Bool
is_some none = false
is_some (some a) = true

module _ {ℓ} {V : Type ℓ} where
  -- v, ok := m[k]
  unfoldable pub get : Dict V → Text → Option V
  get [] k = none
  get ((j, v) ∷ m) k = if j == k then some v else get m k

  -- m[k] = v
  unfoldable pub put : Dict V → Text → V → Dict V
  put [] k v = (k, v) ∷ []
  put ((j, w) ∷ m) k v = if j == k then (k, v) ∷ m else (j, w) ∷ put m k v

  -- delete(m, k)
  unfoldable pub delete : Dict V → Text → Dict V
  delete [] k = []
  delete ((j, w) ∷ m) k = let rest = delete m k in if j == k then rest else (j, w) ∷ rest

  pub get-put :
      (m : Dict V) (k j : Text) (v : V) → get (put m k v) j ≡ (if k == j then some v else get m j)
  unfolding get put
  get-put [] k j v = refl
  get-put ((i, w) ∷ m) k j v = ground (arith, eq_iff k j, eq_iff i k, eq_iff i j, get-put m k j v)

  pub get-delete :
      (m : Dict V) (k j : Text) → get (delete m k) j ≡ (if k == j then none else get m j)
  unfolding get delete
  get-delete [] k j = ground arith
  get-delete ((i, w) ∷ m) k j = ground (arith, eq_iff k j, eq_iff i k, eq_iff i j, get-delete m k j)

  pub get-put_self : (m : Dict V) (k : Text) (v : V) → get (put m k v) k ≡ some v
  get-put_self m k v = simp (get-put, eq_refl)

  -- _, ok := m[k]
  abbrev pub contains : Dict V → Text → Bool
  contains m k = is_some (get m k)

-- A map keyed by strings and used as a set, `map[string]bool`.
abbrev pub StringSet : Type 0
StringSet = Dict Bool

-- The keys are distinct, as in every Go map.
abbrev pub IsMap {ℓ} : {V : Type ℓ} → Dict V → Type ℓ
IsMap [] = Unit
IsMap ((k, v) ∷ m) = (get m k ≡ none) × IsMap m

pub put-IsMap {ℓ} : {V : Type ℓ} (m : Dict V) (k : Text) (v : V) → IsMap m → IsMap (put m k v)
unfolding put get
put-IsMap [] k v h = (refl, tt)
put-IsMap ((j, w) ∷ m) k v (fresh, h) = elim (Bool-cases (j == k)) [
  | inl same ↦ rw same (rw (← eq_of_== j k same) fresh, h)
  | inr other ↦ rw other (rw get-put (ground (arith, eq_iff j k, eq_iff k j)), put-IsMap m k v h)
]
