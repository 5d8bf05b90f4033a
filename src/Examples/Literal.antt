-- ===== src/Examples/Literal.antt =====
-- A small engine for the runs of sieve: expressions are alternatives of literal texts, a quoted byte
-- is shifted out of ASCII, and the group of a match is the whole text.
use logyard_apps.Prelude.{
  ℕ, ◌+◌, ◌-◌, ◌≡◌, ◌⊎◌, refl, inl, inr, ap, ◌∙◌, Bool, true, ◌||◌, Option, none, some, List, [],
  ◌∷◌, ◌++◌, map, arith, nat_eq, leb, if◌then◌else◌,
}
use logyard_apps.Prelude.Text.{Text, ◌==◌, has_prefix, eq_refl}
use logyard_apps.Prelude.Run.{ok}
use logyard_apps.Sieve.Engines.{Engines, MatchesLiterally, any_eq, join}

abbrev bar : ℕ
bar = 124

abbrev quote : Text → Text
quote s = map (λ c. c + 125) s

abbrev unquote_byte : ℕ → ℕ
unquote_byte c = if leb 125 c then c - 125 else c

abbrev cons_head : ℕ → List Text → List Text
cons_head c [] = (c ∷ []) ∷ []
cons_head c (s ∷ rest) = (c ∷ s) ∷ rest

unfoldable pub split_bar : Text → List Text
split_bar [] = [] ∷ []
split_bar (c ∷ s) =
    let rest = split_bar s in if nat_eq c bar then [] ∷ rest else cons_head (unquote_byte c) rest

split-quote : (s : Text) → split_bar (quote s) ≡ s ∷ []
unfolding split_bar
split-quote [] = refl
split-quote (c ∷ s) = ground (arith, split-quote s)

split-quote-bar : (s rest : Text) → split_bar (quote s ++ (bar ∷ rest)) ≡ s ∷ split_bar rest
unfolding split_bar
split-quote-bar [] rest = refl
split-quote-bar (c ∷ s) rest = ground (arith, split-quote-bar s rest)

occurs : Text → Text → Bool
occurs s [] = s == []
occurs s (c ∷ text) = has_prefix (c ∷ text) s || occurs s text

unfoldable pub first_occurring : List Text → Text → Text
unfolding occurs
first_occurring [] text = []
first_occurring (s ∷ rest) text = if occurs s text then s else first_occurring rest text

first_occurring_lem :
    (ss : List Text) (text : Text)
    → (first_occurring ss text ≡ []) ⊎ (any_eq ss (first_occurring ss text) ≡ true)
unfolding first_occurring
first_occurring_lem [] text = inl refl
first_occurring_lem (s ∷ rest) text = elim (first_occurring_lem rest text) [
  | inl h ↦ ground (arith, eq_refl s)
  | inr h ↦ ground (arith, eq_refl s)
]

split-join : (s : Text) (ss : List Text) → split_bar (join (bar ∷ []) (map quote (s ∷ ss))) ≡ s ∷ ss
split-join s [] = split-quote s
split-join s (t ∷ ss) =
    split-quote-bar s (join (bar ∷ []) (map quote (t ∷ ss))) ∙ ap (◌∷◌ s) (split-join t ss)

abbrev submatch : Text → Text → Option (List Text)
submatch [] text = none
submatch (c ∷ s) text = some ((c ∷ s) ∷ text ∷ [])

abbrev concat : List Text → Text
concat [] = []
concat (s ∷ ss) = s ++ concat ss

abbrev pub literal : Engines (List Text) Text Text
literal = record {
  compile = λ re. some (split_bar re);
  quote_meta = quote;
  find_string = first_occurring;
  find_string_submatch = λ re text. submatch (first_occurring re text) text;
  parse_template = some;
  execute_list = λ t results. ok (t ++ concat results);
  execute_info = λ t info. ok (t ++ info);
  unmarshal = λ text info. ok text;
  nil_info = [];
}

literal_alternative :
    (ss re : List Text) (text : Text)
    → split_bar (join (bar ∷ []) (map quote ss)) ≡ re
    → (first_occurring re text ≡ []) ⊎ (any_eq ss (first_occurring re text) ≡ true)
unfolding split_bar first_occurring
literal_alternative [] re text e = inl (rw (← e) (ground arith))
literal_alternative (s ∷ ss) re text e =
    rw (← e) (rw (split-join s ss) (first_occurring_lem (s ∷ ss) text))

pub literal-MatchesLiterally : MatchesLiterally literal
literal-MatchesLiterally = record {
  compiles = λ ss. (split_bar (join (bar ∷ []) (map quote ss)), refl);
  alternative = λ ss re text e. literal_alternative ss re text (ground arith);
}
