-- ===== src/Sieve/Template/Replace.antt =====
-- The rewriting of "$1" in a description template.
use logyard_apps.Prelude.{ℕ, ◌≡◌, refl, ap, ◌∙◌, true, false, [], ◌∷◌, ◌++◌, arith, nat_eq, All}
use logyard_apps.Prelude.Text.{Text}
use logyard_apps.Sieve.Template.{
  is_digit, opening, closing, starts_digit, replace_from, simple_template_text,
}

abbrev pub IsPlain : Text → Type 0
IsPlain s = All (λ c. nat_eq c b'$' ≡ false) s

abbrev pub AreDigits : Text → Type 0
AreDigits s = All (λ c. is_digit c ≡ true) s

replace_digits :
    (ds rest : Text)
    → AreDigits ds
    → starts_digit rest ≡ false
    → replace_from true (ds ++ rest) ≡ ds ++ replace_from true rest
unfolding replace_from
replace_digits [] rest h n = refl
replace_digits (d ∷ ds) rest (h, hs) n = ground (arith, replace_digits ds rest hs n)

-- After the digits of a match the reading goes on as it does outside of one.
replace_closes :
    (rest : Text)
    → starts_digit rest ≡ false
    → replace_from true rest ≡ closing ++ replace_from false rest
unfolding replace_from
replace_closes [] n = refl
replace_closes (c ∷ rest) n = ground arith

-- In a template, the first "$" with digits behind it becomes an index expression over all of these
-- digits; the text before it stays, and the rest is rewritten in the same way.
simple_template_text_lem :
    (plain : Text) (d : ℕ) (ds rest : Text)
    → IsPlain plain
    → is_digit d ≡ true
    → AreDigits ds
    → starts_digit rest ≡ false
    → simple_template_text (plain ++ (b'$' ∷ d ∷ (ds ++ rest)))
      ≡ plain ++ (opening ++ (d ∷ (ds ++ (closing ++ simple_template_text rest))))
unfolding simple_template_text
simple_template_text_lem [] d ds rest p h hs n = rw h (
    ap (λ t. opening ++ t)
      (ap (◌∷◌ d) (replace_digits ds rest hs n ∙ ap (λ t. ds ++ t) (replace_closes rest n))))
simple_template_text_lem (c ∷ plain) d ds rest (p, ps) h hs n =
    rw p (ap (◌∷◌ c) (simple_template_text_lem plain d ds rest ps h hs n))

-- A template with no "$" stays as it is.
pub simple_template_text_plain : (plain : Text) → IsPlain plain → simple_template_text plain ≡ plain
unfolding simple_template_text
simple_template_text_plain [] p = refl
simple_template_text_plain (c ∷ plain) (p, ps) = ground (arith, simple_template_text_plain plain ps)
