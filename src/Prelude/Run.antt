-- ===== src/Prelude/Run.antt =====
-- Code that can stop the process, and Go's `error` results.
use mathlib.Core.Path.{◌≡◌, refl}
use mathlib.Core.Logic.{◌⊎◌, inl, inr}
use logyard_apps.Prelude.Text.{Text}

-- Why a goroutine stops the process.
pub data Crash : Type 0 where
  nil_pointer out_of_range unreachable fatal closed_twice bad_pattern bad_config bad_assertion :
      Crash

-- `done a`: the code returns `a`.
pub data Run {ℓ} (A : Type ℓ) : Type ℓ where
  done : A → Run A
  crash : Crash → Run A

infixl 5 ◌>>=◌ ◌>>◌
abbrev pub ◌>>=◌ {ℓ κ} : {A : Type ℓ} {B : Type κ} → Run A → (A → Run B) → Run B
done a >>= f = f a
crash c >>= f = crash c

abbrev pub ◌>>◌ {ℓ κ} : {A : Type ℓ} {B : Type κ} → Run A → Run B → Run B
m >> k = m >>= λ _. k

-- A Go `error`, by its message.
abbrev pub Error : Type 0
Error = Text

-- The pair `(value, error)` of a Go function, where the value is used only without an error.
pub data Result {ℓ} (A : Type ℓ) : Type ℓ where
  ok : A → Result A
  err : Error → Result A

-- `if err != nil { common.Fatal(...) }`
abbrev pub or_fatal {ℓ} : {A : Type ℓ} → Result A → Run A
or_fatal (ok a) = done a
or_fatal (err e) = crash fatal

pub >>=-eq-done {ℓ κ} :
    {A : Type ℓ} {B : Type κ} (m : Run A) (f : A → Run B) {b : B}
    → (m >>= f) ≡ done b
    → (a : A) × (m ≡ done a) × (f a ≡ done b)
>>=-eq-done (done a) f h = (a, refl, h)
>>=-eq-done (crash c) f h = cc

pub done-injective {ℓ} : {A : Type ℓ} {a b : A} → done a ≡ done b → a ≡ b
done-injective h = cc

pub Result-cases {ℓ} :
    {A : Type ℓ} (r : Result A) → ((a : A) × (r ≡ ok a)) ⊎ ((e : Error) × (r ≡ err e))
Result-cases (ok a) = inl (a, refl)
Result-cases (err e) = inr (e, refl)

pub Run-cases {ℓ} :
    {A : Type ℓ} (r : Run A) → ((a : A) × (r ≡ done a)) ⊎ ((c : Crash) × (r ≡ crash c))
Run-cases (done a) = inl (a, refl)
Run-cases (crash c) = inr (c, refl)
