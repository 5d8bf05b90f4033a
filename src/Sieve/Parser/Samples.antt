-- ===== src/Sieve/Parser/Samples.antt =====
-- `DeleteSamples`, against the parser that keeps its samples.
use mathlib.Core.Option
use mathlib.Core.Path.{fun_ext}
use logyard_apps.Prelude.{
  ◌≡◌, refl, ap, Option, none, some, List, [], ◌∷◌, arith, Option-cases, inl, inr,
}
use logyard_apps.Prelude.Text.{Text}
use logyard_apps.Prelude.Dict.{Dict, get}
use logyard_apps.Prelude.Run.{◌>>=◌}
use logyard_apps.Sieve.Engines.{Engines}
use logyard_apps.Sieve.Matcher.{MultiRegexpMatcher, match}
use logyard_apps.Sieve.Parser.{
  EventParser, EventParserGroup, Parser, parse, delete_samples, clear_samples, clear_groups,
  run_handler, parse_star_group, star_match, star_event, group_event, group_match, all_group,
}

module _ {Tm : Type 0} where
  -- A copy without its sample.
  abbrev without_sample : EventParser Tm → EventParser Tm
  without_sample p = record p { sample = [] }

  get-clear_samples :
      (group : EventParserGroup Tm) (n : Text)
      → get (clear_samples group) n ≡ Option.map without_sample (get group n)
  unfolding clear_samples get
  get-clear_samples [] n = refl
  get-clear_samples ((k, p) ∷ rest) n = ground (arith, get-clear_samples rest n)

  get-clear_groups :
      (tree : Dict (EventParserGroup Tm)) (g : Text)
      → get (clear_groups tree) g ≡ Option.map clear_samples (get tree g)
  unfolding clear_groups get
  get-clear_groups [] g = refl
  get-clear_groups ((k, group) ∷ rest) g = ground (arith, get-clear_groups rest g)

module _ {Re Tm Info : Type 0} (e : Engines Re Tm Info) where
  star_event-clear :
      (group : EventParserGroup Tm) (g : Text) (m : Text × Option (List Text))
      → star_event e (clear_samples group) g m ≡ star_event e group g m
  unfolding star_event run_handler
  star_event-clear group g (n, none) = refl
  star_event-clear group g (n, some results) = elim (Option-cases (get group n)) [
    | inl x ↦ rw (get-clear_samples group n, x, star_event) refl
    | inr (p, x) ↦ rw (get-clear_samples group n, x, star_event) refl
  ]

  star_match-clear :
      (group : EventParserGroup Tm) (g text : Text) (m : Option (MultiRegexpMatcher Re))
      → star_match e (clear_samples group) g text m ≡ star_match e group g text m
  unfolding star_match
  star_match-clear group g text none = refl
  star_match-clear group g text (some m) =
      ap (◌>>=◌ (match e m text)) (fun_ext (star_event-clear group g))

  parse_star_group-delete_samples :
      (parser : Parser Re Tm) (g text : Text)
      → parse_star_group e (delete_samples parser) g text ≡ parse_star_group e parser g text
  unfolding parse_star_group delete_samples
  parse_star_group-delete_samples parser g text = elim (Option-cases (get parser.tree all_group)) [
    | inl x ↦ rw (get-clear_groups parser.tree all_group, x, parse_star_group) refl
    | inr (group, x) ↦
        rw (get-clear_groups parser.tree all_group, x, parse_star_group)
          (star_match-clear group g text (get parser.matchers all_group))
  ]

  group_event-delete_samples :
      (parser : Parser Re Tm) (group : EventParserGroup Tm) (g text : Text)
      → (m : Text × Option (List Text))
      → group_event e (delete_samples parser) (clear_samples group) g text m
        ≡ group_event e parser group g text m
  unfolding group_event run_handler
  group_event-delete_samples parser group g text (n, none) =
      parse_star_group-delete_samples parser g text
  group_event-delete_samples parser group g text (n, some results) =
      elim (Option-cases (get group n)) [
        | inl x ↦ rw (get-clear_samples group n, x, group_event) refl
        | inr (p, x) ↦ rw (get-clear_samples group n, x, group_event) refl
      ]

  group_match-delete_samples :
      (parser : Parser Re Tm) (group : EventParserGroup Tm) (g text : Text)
      → (m : Option (MultiRegexpMatcher Re))
      → group_match e (delete_samples parser) (clear_samples group) g text m
        ≡ group_match e parser group g text m
  unfolding group_match
  group_match-delete_samples parser group g text none = refl
  group_match-delete_samples parser group g text (some m) =
      ap (◌>>=◌ (match e m text)) (fun_ext (group_event-delete_samples parser group g text))

  -- A parser without its samples parses every text as the parser did that has them.
  pub parse-delete_samples :
      (parser : Parser Re Tm) (g text : Text)
      → parse e (delete_samples parser) g text ≡ parse e parser g text
  unfolding parse delete_samples
  parse-delete_samples parser g text = elim (Option-cases (get parser.tree g)) [
    | inl x ↦
        rw (get-clear_groups parser.tree g, x, parse)
          (parse_star_group-delete_samples parser g text)
    | inr (group, x) ↦
        rw (get-clear_groups parser.tree g, x, parse)
          (group_match-delete_samples parser group g text (get parser.matchers g))
  ]
