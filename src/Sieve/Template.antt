-- ===== src/Sieve/Template.antt =====
-- `simpleTemplate` of sieve/handler.go: "$1" becomes "{{index . 1}}".
pub mod Replace
use logyard_apps.Prelude.{
  ℕ, suc, ◌≡◌, refl, Bool, true, false, ◌&&◌, not, List, [], ◌∷◌, ◌++◌, leb, nat_eq, if◌then◌else◌,
}
use logyard_apps.Prelude.Text.{Text, codes}

abbrev pub is_digit : ℕ → Bool
is_digit c = leb b'0' c && leb c b'9'

abbrev pub opening : Text
opening = codes "{{index . "

abbrev pub closing : Text
closing = codes "}}"

abbrev pub starts_digit : Text → Bool
starts_digit [] = false
starts_digit (c ∷ s) = is_digit c

-- `ReplaceAllString` with the expression `\$(\d+)`, from left to right; `inside` holds while the
-- digits of a match are read.
unfoldable pub replace_from : Bool → Text → Text
replace_from true [] = closing
replace_from false [] = []
replace_from true (c ∷ s) =
    let digit = c ∷ replace_from true s in
    let dollar = closing ++ opening ++ replace_from true s in
    let plain = closing ++ c ∷ replace_from false s in
    if is_digit c then digit else if nat_eq c b'$' && starts_digit s then dollar else plain
replace_from false (c ∷ s) =
    let dollar = opening ++ replace_from true s in
    let plain = c ∷ replace_from false s in
    if nat_eq c b'$' && starts_digit s then dollar else plain

unfoldable pub simple_template_text : Text → Text
unfolding replace_from
simple_template_text tmpl = replace_from false tmpl

replaced :
    simple_template_text (codes "Process '$1' stopped ($12$3) $")
    ≡ codes "Process '{{index . 1}}' stopped ({{index . 12}}{{index . 3}}) $"
unfolding simple_template_text
replaced = refl
