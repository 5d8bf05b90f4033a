-- ===== src/Prelude/Text.antt =====
-- Go strings: sequences of bytes.
use Prim.Native.Nat.{ℕ}
use Prim.Native.Char.{code}
use Prim.Native.String.{String}
use mathlib.Core.Path.{◌≡◌, refl}
use mathlib.Core.Logic.{◌↔◌}
use mathlib.Core.Bool.{Bool, true, false, ◌&&◌}
use mathlib.Core.List.{List, [], ◌∷◌, ◌++◌}
use native.Mathlib.Omega.{arith}
use logyard_apps.Prelude.Tests.{nat_eq}
use logyard_apps.Prelude.Lists.{length}

abbrev pub Text : Type 0
Text = List ℕ

-- The bytes of a literal (all literals of the program are ASCII).
abbrev pub codes : String → Text
codes String.[] = []
codes (String.◌∷◌ c s) = code c ∷ codes s

infix 50 ◌==◌
unfoldable pub ◌==◌ : Text → Text → Bool
[] == [] = true
[] == (b ∷ t) = false
(a ∷ s) == [] = false
(a ∷ s) == (b ∷ t) = nat_eq a b && (s == t)

pub eq_of_== : (s t : Text) → (s == t) ≡ true → s ≡ t
unfolding ◌==◌
eq_of_== [] [] h = refl
eq_of_== [] (b ∷ t) h = cc
eq_of_== (a ∷ s) [] h = cc
eq_of_== (a ∷ s) (b ∷ t) h = ground (arith, eq_of_== s t)

pub eq_refl : (s : Text) → (s == s) ≡ true
unfolding ◌==◌
eq_refl [] = refl
eq_refl (a ∷ s) = ground (arith, eq_refl s)

pub eq_iff : (s t : Text) → ((s == t) ≡ true) ↔ (s ≡ t)
eq_iff s t = (eq_of_== s t, λ p. subst_eq p)
  where
    subst_eq : s ≡ t → (s == t) ≡ true
    subst_eq p = rw p (eq_refl t)

-- strings.HasPrefix(s, p)
unfoldable pub has_prefix : Text → Text → Bool
has_prefix s [] = true
has_prefix [] (b ∷ p) = false
has_prefix (a ∷ s) (b ∷ p) = nat_eq a b && has_prefix s p

pub has_prefix-append : (p s : Text) → has_prefix (p ++ s) p ≡ true
unfolding has_prefix
has_prefix-append [] s = refl
has_prefix-append (b ∷ p) s = ground (arith, has_prefix-append p s)

pub has_prefix-append_both : (p s q : Text) → has_prefix (p ++ s) (p ++ q) ≡ has_prefix s q
unfolding has_prefix
has_prefix-append_both [] s q = refl
has_prefix-append_both (b ∷ p) s q = ground (arith, has_prefix-append_both p s q)

-- A prefix of the same length is the whole text.
pub has_prefix_whole : (s q : Text) → length s ≡ length q → has_prefix s q ≡ (s == q)
unfolding has_prefix ◌==◌
has_prefix_whole [] [] h = refl
has_prefix_whole [] (b ∷ q) h = absurd (omega (arith, h))
has_prefix_whole (a ∷ s) [] h = absurd (omega (arith, h))
has_prefix_whole (a ∷ s) (b ∷ q) h = ground (arith, has_prefix_whole s q (omega (arith, h)))
