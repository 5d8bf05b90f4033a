-- ===== src/Prelude/Decimal.antt =====
-- `fmt.Sprintf("%v", n)` for integers of at most 64 bits, whose digits are no more than twenty.
use Prim.Native.Nat.{ℕ, zero, suc, ◌+◌, ◌/◌, ◌%◌}
use mathlib.Core.List.{[], ◌∷◌}
use logyard_apps.Prelude.Tests.{ltb, if◌then◌else◌}
use logyard_apps.Prelude.Text.{Text}
use logyard_apps.Prelude.Int.{ℤ, pos, negsuc}

digits : ℕ → ℕ → Text → Text
digits zero n acc = acc
digits (suc fuel) n acc =
    let acc' = (48 + n % 10) ∷ acc in
    let rest = digits fuel (n / 10) acc' in if ltb n 10 then acc' else rest

unfoldable pub show_ℕ : ℕ → Text
unfolding digits
show_ℕ n = digits 20 n []

unfoldable pub show_ℤ : ℤ → Text
unfolding show_ℕ
show_ℤ (pos n) = show_ℕ n
show_ℤ (negsuc n) = 45 ∷ show_ℕ (n + 1)
