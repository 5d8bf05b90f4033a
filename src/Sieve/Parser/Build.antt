-- ===== src/Sieve/Parser/Build.antt =====
-- What the matchers of a parser hold after `Build` and `NewStackatoParser`.
use logyard_apps.Prelude.{
  ◌∙◌, ◌≡◌, subst, none, some, [], ◌∷◌, arith, Option-cases, Bool-cases, inl, inr,
}
use logyard_apps.Prelude.Text.{eq_of_==, eq_refl, Text, ◌==◌, eq_iff}
use logyard_apps.Prelude.Dict.{get-put_self, Dict, get, put, get-put, IsMap, put-IsMap}
use logyard_apps.Prelude.Run.{done, >>=-eq-done, done-injective}
use logyard_apps.Sieve.Engines.{Engines}
use logyard_apps.Sieve.Matcher.{MultiRegexpMatcher, new_multi_regexp_matcher, must_add}
use logyard_apps.Sieve.Matcher.Built.{
  IsKnown, IsBuilt, new-IsKnown, must_add-IsKnown, build-IsBuilt,
}
use logyard_apps.Sieve.Parser.{
  group_or_new, EventParser, EventParserGroup, EventParserSpec, Parser, add_parsers, build_group,
  build_groups, build_parser, spec_group, spec_groups, new_stackato_parser, new_parser,
  to_event_parser,
}

module _ {Re Tm Info : Type 0} (e : Engines Re Tm Info) where
  -- The expression `r` is that of the event parser `n` of the group.
  abbrev pub IsOf : EventParserGroup Tm → Text → Re → Type 0
  IsOf group n r = (p : EventParser Tm) × (get group n ≡ some p) × (e.compile p.re ≡ some r)

  add_parsers-IsKnown :
      (group rest : EventParserGroup Tm) (m m' : MultiRegexpMatcher Re)
      → ((n : Text) (p : EventParser Tm) → get rest n ≡ some p → get group n ≡ some p)
      → IsMap rest
      → IsKnown e (IsOf group) m
      → add_parsers e rest m ≡ done m'
      → IsKnown e (IsOf group) m'
  unfolding add_parsers get
  add_parsers-IsKnown group [] m m' part distinct h e' = rw (← done-injective e') h
  add_parsers-IsKnown group ((name, p) ∷ rest) m m' part (fresh, distinct) h e' =
      let (mid, first, more) = >>=-eq-done (must_add e name p.substring p.re m) _ e' in
      add_parsers-IsKnown group rest mid m' (λ n q x. part n q (ground (arith, eq_iff name n)))
        distinct
        (must_add-IsKnown e (IsOf group) name p.substring p.re m mid
          (λ r c. (p, part name p (ground (arith, eq_refl name)), c)) h first)
        more

  build_group-IsBuilt :
      (group : EventParserGroup Tm) (m : MultiRegexpMatcher Re)
      → IsMap group
      → build_group e group ≡ done m
      → IsBuilt e (IsOf group) m
  unfolding build_group
  build_group-IsBuilt group m distinct e' =
      let (mid, first, more) = >>=-eq-done (add_parsers e group new_multi_regexp_matcher) _ e' in
      build-IsBuilt e (IsOf group) mid m
        (add_parsers-IsKnown group group new_multi_regexp_matcher mid (λ n p x. x) distinct
          (new-IsKnown e (IsOf group)) first)
        more

  -- Each group of the tree has a built matcher.
  pub record IsReady (parser : Parser Re Tm) : Type 0 where
    pub matcher :
        (g : Text) (group : EventParserGroup Tm)
        → get parser.tree g ≡ some group
        → (m : MultiRegexpMatcher Re) × (get parser.matchers g ≡ some m) × IsBuilt e (IsOf group) m

  abbrev AreMaps : Dict (EventParserGroup Tm) → Type 0
  AreMaps tree = (g : Text) (group : EventParserGroup Tm) → get tree g ≡ some group → IsMap group

  build_groups-none :
      (rest : Dict (EventParserGroup Tm)) (ms ms' : Dict (MultiRegexpMatcher Re)) (g : Text)
      → get rest g ≡ none
      → build_groups e rest ms ≡ done ms'
      → get ms' g ≡ get ms g
  unfolding build_groups get
  build_groups-none [] ms ms' g x e' = rw (done-injective e')
  build_groups-none ((name, group) ∷ rest) ms ms' g x e' =
      let (m, first, more) = >>=-eq-done (build_group e group) _ e' in
      ground (arith, build_groups-none rest (put ms name m) ms' g, get-put ms name g m)

  build_groups-some :
      (rest : Dict (EventParserGroup Tm)) (ms ms' : Dict (MultiRegexpMatcher Re)) (g : Text)
      (group : EventParserGroup Tm)
      → IsMap rest
      → AreMaps rest
      → get rest g ≡ some group
      → build_groups e rest ms ≡ done ms'
      → (m : MultiRegexpMatcher Re) × (get ms' g ≡ some m) × IsBuilt e (IsOf group) m
  unfolding build_groups get
  build_groups-some [] ms ms' g group d maps x e' = cc
  build_groups-some ((name, first_group) ∷ rest) ms ms' g group (fresh, d) maps x e' =
      let (m, first, more) = >>=-eq-done (build_group e first_group) _ e' in
      elim (Bool-cases (name == g)) [
        | inl same ↦
            let is_group : first_group ≡ group = ground arith in
            let at_name : get ms' name ≡ some m =
              build_groups-none rest (put ms name m) ms' name fresh more ∙ get-put_self ms name m in
            (
              m,
              subst (λ t. get ms' t ≡ some m) (eq_of_== name g same) at_name,
              subst (λ u. IsBuilt e (IsOf u) m) is_group
                  (build_group-IsBuilt first_group m
                    (maps name first_group (ground (arith, eq_refl name))) first),
            )
        | inr other ↦
            build_groups-some rest (put ms name m) ms' g group d
              (λ h u y. maps h u (ground (arith, eq_iff name h, fresh))) (ground arith) more
      ]

  build_parser-IsReady :
      (parser built : Parser Re Tm)
      → IsMap parser.tree
      → AreMaps parser.tree
      → build_parser e parser ≡ done built
      → IsReady built
  unfolding build_parser
  build_parser-IsReady parser built d maps e' =
      let (ms, first, more) = >>=-eq-done (build_groups e parser.tree parser.matchers) _ e' in
      rw (← done-injective more) (record {
        matcher =
            λ g group x. build_groups-some parser.tree parser.matchers ms g group d maps x first;
      })

  spec_group-IsMap :
      (d : Dict EventParserSpec) (group group' : EventParserGroup Tm)
      → IsMap group
      → spec_group e d group ≡ done group'
      → IsMap group'
  unfolding spec_group
  spec_group-IsMap [] group group' h e' = rw (← done-injective e') h
  spec_group-IsMap ((name, evt) ∷ rest) group group' h e' =
      let (p, first, more) = >>=-eq-done (to_event_parser e evt) _ e' in
      spec_group-IsMap rest (put group name p) group' (put-IsMap group name p h) more

  group_or_new-IsMap :
      (tree : Dict (EventParserGroup Tm)) (name : Text)
      → AreMaps tree
      → IsMap (group_or_new (get tree name))
  group_or_new-IsMap tree name maps = elim (Option-cases (get tree name)) [
    | inl x ↦ rw x tt
    | inr (group, x) ↦ rw x (maps name group x)
  ]

  put-AreMaps :
      (tree : Dict (EventParserGroup Tm)) (name : Text) (group : EventParserGroup Tm)
      → AreMaps tree
      → IsMap group
      → AreMaps (put tree name group)
  put-AreMaps tree name group maps h g group' x = elim (Bool-cases (name == g)) [
    | inl same ↦
        let is_group : group ≡ group' = ground (arith, get-put tree name g group) in
        subst (λ u. IsMap u) is_group h
    | inr other ↦ maps g group' (ground (arith, get-put tree name g group))
  ]

  spec_groups-AreMaps :
      (spec : Dict (Dict EventParserSpec)) (tree tree' : Dict (EventParserGroup Tm))
      → IsMap tree
      → AreMaps tree
      → spec_groups e spec tree ≡ done tree'
      → IsMap tree' × AreMaps tree'
  unfolding spec_groups
  spec_groups-AreMaps [] tree tree' h maps e' = rw (← done-injective e') (h, maps)
  spec_groups-AreMaps ((name, d) ∷ rest) tree tree' h maps e' =
      let (group, first, more) = >>=-eq-done (spec_group e d (group_or_new (get tree name))) _ e' in
      spec_groups-AreMaps rest (put tree name group) tree' (put-IsMap tree name group h)
        (put-AreMaps tree name group maps (
          spec_group-IsMap d (group_or_new (get tree name)) group
            (group_or_new-IsMap tree name maps) first))
        more

  -- A parser that `NewStackatoParser` returns has a built matcher for each of its groups.
  pub new_stackato_parser-IsReady :
      (spec : Dict (Dict EventParserSpec)) (parser : Parser Re Tm)
      → new_stackato_parser e spec ≡ done parser
      → IsReady parser
  unfolding new_stackato_parser new_parser get
  new_stackato_parser-IsReady spec parser e' =
      let (tree, first, more) = >>=-eq-done (spec_groups e spec []) _ e' in
      let (d, maps) = spec_groups-AreMaps spec [] tree tt (λ g group x. cc) first in
      build_parser-IsReady (record { tree = tree; matchers = [] }) parser d maps more
