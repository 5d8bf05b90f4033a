-- ===== src/Sieve/Matcher.antt =====
-- sieve/match.go: many expressions behind one expression over their substrings.
pub mod Built
use logyard_apps.Prelude.{◌≡◌, Bool, Option, none, some, List, [], ◌∷◌, map, if◌then◌else◌}
use logyard_apps.Prelude.Text.{Text, codes, ◌==◌}
use logyard_apps.Prelude.Dict.{Dict, get, put, contains}
use logyard_apps.Prelude.Run.{Run, done, crash, nil_pointer, unreachable, fatal, bad_pattern, ◌>>=◌}
use logyard_apps.Sieve.Engines.{Engines, join}

pub record MultiRegexpMatcher (Re : Type 0) : Type 0 where
  pub substrings : Dict Text  -- substring to name
  pub regexps : Dict Re  -- name to regexp
  pub substrings_regexp : Option Re

abbrev pub new_multi_regexp_matcher : {Re : Type 0} → MultiRegexpMatcher Re
new_multi_regexp_matcher = record { substrings = []; regexps = []; substrings_regexp = none }

abbrev pub keys {ℓ} : {V : Type ℓ} → Dict V → List Text
keys m = map (λ entry. entry.0) m

insert : {Re : Type 0} → Text → Text → Re → MultiRegexpMatcher Re → MultiRegexpMatcher Re
insert name substring r m = record m {
  substrings = put m.substrings substring name;
  regexps = put m.regexps name r;
}

module _ {Re Tm Info : Type 0} (e : Engines Re Tm Info) where
  must_compile : Text → Run Re
  must_compile re = elim (e.compile re) [ none ↦ crash bad_pattern | some r ↦ done r ]

  unfoldable pub must_add : Text → Text → Text → MultiRegexpMatcher Re → Run (MultiRegexpMatcher Re)
  unfolding must_compile insert
  must_add name substring re m =
      if contains m.substrings substring
      then crash fatal
      else if contains m.regexps name
      then crash fatal
      else do r ← must_compile re; done (insert name substring r m)

  unfoldable pub build : MultiRegexpMatcher Re → Run (MultiRegexpMatcher Re)
  unfolding must_compile
  build m = do
    r ← must_compile (join (codes "|") (map e.quote_meta (keys m.substrings)))
    done (record m { substrings_regexp = some r })

  -- The method call on a nil expression.
  find_substring : Option Re → Text → Run Text
  find_substring none text = crash nil_pointer
  find_substring (some re) text = done (e.find_string re text)

  match_regexp : Text → Text → Option Re → Run (Text × Option (List Text))
  match_regexp name text none = crash unreachable
  match_regexp name text (some re) = done (name, e.find_string_submatch re text)

  match_name : Dict Re → Text → Option Text → Run (Text × Option (List Text))
  match_name regexps text none = crash unreachable
  match_name regexps text (some name) = match_regexp name text (get regexps name)

  unfoldable pub match : MultiRegexpMatcher Re → Text → Run (Text × Option (List Text))
  unfolding find_substring match_regexp match_name
  match m text = do
    substring ← find_substring m.substrings_regexp text
    if substring == []
        then done ([], none)
        else match_name m.regexps text (get m.substrings substring)
