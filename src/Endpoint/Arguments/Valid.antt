-- ===== src/Endpoint/Arguments/Valid.antt =====
-- What the arguments of an accepted request satisfy.
use logyard_apps.Prelude.{◌≡◌, ◌≢◌, refl, false, none, [], arith, subst, Option-cases, inl, inr}
use logyard_apps.Prelude.Text.{eq_iff}
use logyard_apps.Prelude.Int.{ℤ, pos, ltb_ℤ}
use logyard_apps.Prelude.Run.{Result, ok, err}
use logyard_apps.Endpoint.Arguments.{
  arguments_of, Arguments, Request, parse_arguments, validate, num_of, with_num, checked,
}

pub record IsValid (r : Request) (args : Arguments) : Type 0 where
  pub token : args.token ≡ r.authorization
  pub guid : args.guid ≡ r.guid
  pub some_token : r.authorization ≢ []
  pub some_guid : r.guid ≢ []
  pub num : num_of r.num ≡ ok args.num
  pub not_negative : ltb_ℤ args.num (pos 0) ≡ false

accepted :
    (r : Request) (num : ℤ)
    → num_of r.num ≡ ok num
    → validate (arguments_of r num) ≡ none
    → IsValid r (arguments_of r num)
unfolding validate
accepted r num e h = record {
  token = refl;
  guid = refl;
  some_token = λ p. ground (arith, p, eq_iff r.authorization []);
  some_guid = λ p. ground (arith, p, eq_iff r.guid []);
  num = e;
  not_negative = ground arith;
}

with_num-IsValid :
    (r : Request) (args : Arguments) (n : Result ℤ)
    → num_of r.num ≡ n
    → with_num r n ≡ ok args
    → IsValid r args
unfolding with_num checked
with_num-IsValid r args (err x) e h = cc
with_num-IsValid r args (ok num) e h = elim (Option-cases (validate (arguments_of r num))) [
  | inl valid ↦
      let same : arguments_of r num ≡ args = ground (arith, valid, h) in
      subst (IsValid r) same (accepted r num e valid)
  | inr (x, bad) ↦ absurd (ground (arith, bad, h))
]

-- The arguments of an accepted request are those of the request: a token and an application that
-- are not empty, and the number, which is not negative and is 0 where the request has none.
pub parse_arguments-IsValid :
    (r : Request) (args : Arguments) → parse_arguments r ≡ ok args → IsValid r args
unfolding parse_arguments
parse_arguments-IsValid r args h = with_num-IsValid r args (num_of r.num) refl h
