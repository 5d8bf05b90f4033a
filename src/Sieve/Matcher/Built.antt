-- ===== src/Sieve/Matcher/Built.antt =====
-- What a matcher holds once it is built, and what it then matches.
use logyard_apps.Prelude.{
  ◌∙◌, sym, subst, ◌≡◌, ◌⊎◌, inl, inr, refl, true, none, some, [], ◌∷◌, map, arith, Option-cases,
  Bool-cases,
}
use logyard_apps.Prelude.Text.{eq_of_==, Text, codes, ◌==◌, eq_iff}
use logyard_apps.Prelude.Dict.{Dict, get, put, contains, get-put}
use logyard_apps.Prelude.Run.{done}
use logyard_apps.Sieve.Engines.{Engines, MatchesLiterally, any_eq, join}
use logyard_apps.Sieve.Matcher.{
  find_substring, insert, match_name, match_regexp, MultiRegexpMatcher, new_multi_regexp_matcher,
  keys, must_add, build, match,
}

any_eq-keys {ℓ} : {V : Type ℓ} (m : Dict V) (s : Text) → any_eq (keys m) s ≡ contains m s
unfolding get
any_eq-keys [] s = refl
any_eq-keys ((k, v) ∷ m) s = ground (arith, any_eq-keys m s)

module _ {Re Tm Info : Type 0} (e : Engines Re Tm Info) (P : Text → Re → Type 0) where
  -- Every substring names an expression, and every name stands with an expression in `P`.
  pub record IsKnown (m : MultiRegexpMatcher Re) : Type 0 where
    pub named : (s n : Text) → get m.substrings s ≡ some n → contains m.regexps n ≡ true
    pub meant : (n : Text) (r : Re) → get m.regexps n ≡ some r → P n r

  pub record IsBuilt (m : MultiRegexpMatcher Re) : Type 0 where
    pub known : IsKnown m
    pub regexp : Re
    pub stored : m.substrings_regexp ≡ some regexp
    pub compiled : e.compile (join (codes "|") (map e.quote_meta (keys m.substrings))) ≡ some regexp

  pub new-IsKnown : IsKnown new_multi_regexp_matcher
  unfolding get
  new-IsKnown = record { named = λ s n p. cc; meant = λ n r p. cc }

  must_add-done :
      (name substring re : Text) (m m' : MultiRegexpMatcher Re)
      → must_add e name substring re m ≡ done m'
      → (r : Re) × (e.compile re ≡ some r) × (m' ≡ insert name substring r m)
  unfolding must_add
  must_add-done name substring re m m' added = elim (Option-cases (e.compile re)) [
    | inl x ↦ absurd (ground arith)
    | inr (r, x) ↦ (r, x, ground arith)
  ]

  meant-put :
      (regexps : Dict Re) (name n : Text) (r r' : Re)
      → P name r
      → (get regexps n ≡ some r' → P n r')
      → get (put regexps name r) n ≡ some r'
      → P n r'
  meant-put regexps name n r r' new old q = elim (Bool-cases (name == n)) [
    | inl same ↦
        let is_r : r ≡ r' = ground (arith, get-put regexps name n r) in
        subst (λ t. P t r') (eq_of_== name n same) (subst (P name) is_r new)
    | inr other ↦ old (ground (arith, get-put regexps name n r))
  ]

  pub must_add-IsKnown :
      (name substring re : Text) (m m' : MultiRegexpMatcher Re)
      → ((r : Re) → e.compile re ≡ some r → P name r)
      → IsKnown m
      → must_add e name substring re m ≡ done m'
      → IsKnown m'
  unfolding insert
  must_add-IsKnown name substring re m m' p h added =
      let (r, x, same) = must_add-done name substring re m m' added in
      rw same (record {
        named = λ s n q. ground (
          arith,
          get-put m.substrings substring s name,
          get-put m.regexps name n r,
          h.named s n,
          eq_iff substring s,
          eq_iff name n,
        );
        meant = λ n r' q. meant-put m.regexps name n r r' (p r x) (h.meant n r') q;
      })

  pub build-IsBuilt : (m m' : MultiRegexpMatcher Re) → IsKnown m → build e m ≡ done m' → IsBuilt m'
  unfolding build
  build-IsBuilt m m' h built =
      elim (Option-cases (e.compile (join (codes "|") (map e.quote_meta (keys m.substrings))))) [
        | inl x ↦ absurd (ground arith)
        | inr (r, x) ↦
            let same : record m { substrings_regexp = some r } ≡ m' = ground arith in
            rw (← same) (record {
              known = record { named = h.named; meant = h.meant };
              regexp = r;
              stored = refl;
              compiled = x;
            })
      ]

  match_known :
      (m : MultiRegexpMatcher Re) (text s : Text)
      → IsKnown m
      → contains m.substrings s ≡ true
      → (n : Text) × (r : Re) × P n r
        × (match_name e m.regexps text (get m.substrings s)
            ≡ done (n, e.find_string_submatch r text))
  unfolding match_name match_regexp
  match_known m text s h c = elim (Option-cases (get m.substrings s)) [
    | inl x ↦ absurd (ground arith)
    | inr (n, x) ↦ elim (Option-cases (get m.regexps n)) [
      | inl y ↦ absurd (ground (arith, h.named s n))
      | inr (r, y) ↦ (n, r, h.meant n r y, rw (x, match_name) (rw (y, match_regexp)))
    ]
  ]

  -- A built matcher always answers: with no name where no substring occurs, and otherwise with the
  -- name of an expression that was added and the groups of its match. Its panic is not reached.
  pub match_lem :
      MatchesLiterally e
      → (m : MultiRegexpMatcher Re) (text : Text) → IsBuilt m
      → (match e m text ≡ done ([], none))
        ⊎ ((n : Text) × (r : Re) × P n r
            × (match e m text ≡ done (n, e.find_string_submatch r text)))
  unfolding match ◌==◌
  match_lem literal m text b =
      let s = e.find_string b.regexp text in
      elim (literal.alternative (keys m.substrings) b.regexp text b.compiled) [
        | inl empty ↦ inl (rw (b.stored, find_substring) (rw empty refl))
        | inr one ↦ elim (Bool-cases (s == [])) [
          | inl empty ↦ inl (rw (b.stored, find_substring) (rw empty refl))
          | inr full ↦
              let (n, r, p, matched) =
                match_known m text s b.known (sym (any_eq-keys m.substrings s) ∙ one) in
              inr (n, r, p, rw (b.stored, find_substring) (rw full matched))
        ]
      ]
