-- ===== src/Endpoint/Arguments.antt =====
-- applog_endpoint/arguments.go: the arguments of a request, with `strconv.Atoi` for 64 bits.
pub mod Valid
use logyard_apps.Prelude.{
  ℕ, ◌+◌, ◌-◌, ◌*◌, ◌^◌, ◌≡◌, ◌≢◌, refl, Bool, true, false, ◌&&◌, Option, none, some, List, [], ◌∷◌,
  ◌++◌, ltb, leb, nat_eq, if◌then◌else◌,
}
use logyard_apps.Prelude.Text.{Text, codes, ◌==◌}
use logyard_apps.Prelude.Int.{ℤ, pos, negsuc, neg, ltb_ℤ}
use logyard_apps.Prelude.Run.{Error, Result, ok, err}

pub record Arguments : Type 0 where
  pub token : Text
  pub guid : Text
  pub num : ℤ

-- What the handlers read of a request: the header `Authorization`, the variable `guid` of the route
-- and the form value `num`, which are empty where the request has none.
pub record Request : Type 0 where
  pub authorization : Text
  pub guid : Text
  pub num : Text

unfoldable pub validate : Arguments → Option Error
validate args =
    if args.token == []
    then some (codes "missing token")
    else if args.guid == []
    then some (codes "missing app guid")
    else if ltb_ℤ args.num (pos 0)
    then some (codes "Num argument is negative")
    else none

abbrev is_digit : ℕ → Bool
is_digit c = leb 48 c && leb c 57

digits_value : ℕ → Text → Option ℕ
digits_value n [] = some n
digits_value n (c ∷ s) =
    let rest = digits_value (n * 10 + (c - 48)) s in if is_digit c then rest else none

abbrev bad_number : Text → Text → Error
bad_number s why = codes "strconv.ParseInt: parsing " ++ s ++ why

signed : Text → Bool → Option ℕ → Result ℤ
signed s minus none = err (bad_number s (codes ": invalid syntax"))
signed s true (some n) =
    if leb n (2 ^ 63) then ok (neg (pos n)) else err (bad_number s (codes ": value out of range"))
signed s false (some n) =
    if ltb n (2 ^ 63) then ok (pos n) else err (bad_number s (codes ": value out of range"))

unsigned : Text → Option ℕ
unfolding digits_value
unsigned [] = none
unsigned (c ∷ s) = digits_value 0 (c ∷ s)

-- A sign, then at least one digit; the value has to fit.
unfoldable pub atoi : Text → Result ℤ
unfolding signed unsigned
atoi [] = signed [] false none
atoi (c ∷ s) =
    if nat_eq c 45
    then signed (c ∷ s) true (unsigned s)
    else signed (c ∷ s) false (unsigned (if nat_eq c 43 then s else c ∷ s))

unfoldable pub num_of : Text → Result ℤ
num_of num = if num == [] then ok (pos 0) else atoi num

checked : Arguments → Option Error → Result Arguments
checked args none = ok args
checked args (some e) = err e

abbrev arguments_of : Request → ℤ → Arguments
arguments_of r num = record { token = r.authorization; guid = r.guid; num = num }

with_num : Request → Result ℤ → Result Arguments
unfolding checked
with_num r (err e) = err e
with_num r (ok num) = checked (arguments_of r num) (validate (arguments_of r num))

unfoldable pub parse_arguments : Request → Result Arguments
unfolding with_num
parse_arguments r = with_num r (num_of r.num)
