-- ===== src/Sieve/Engines.antt =====
-- The engines that sieve calls: regular expressions, text templates and JSON. They are parameters,
-- over the types `Re` of compiled expressions, `Tm` of parsed templates and `Info` of the decoded
-- `map[string]interface{}`.
use logyard_apps.Prelude.{false, ◌≡◌, ◌⊎◌, Bool, true, Option, some, List, [], ◌∷◌, ◌++◌, ◌||◌, map}
use logyard_apps.Prelude.Text.{Text, codes, ◌==◌}
use logyard_apps.Prelude.Run.{Result}

pub record Engines (Re Tm Info : Type 0) : Type 0 where
  pub compile : Text → Option Re
  pub quote_meta : Text → Text
  pub find_string : Re → Text → Text
  pub find_string_submatch : Re → Text → Option (List Text)
  pub parse_template : Text → Option Tm
  pub execute_list : Tm → List Text → Result Text
  pub execute_info : Tm → Info → Result Text
  pub unmarshal : Text → Info → Result Info
  pub nil_info : Info

abbrev pub any_eq : List Text → Text → Bool
any_eq [] s = false
any_eq (t ∷ ts) s = (t == s) || any_eq ts s

abbrev pub join : Text → List Text → Text
join sep [] = []
join sep (s ∷ []) = s
join sep (s ∷ t ∷ rest) = s ++ (sep ++ join sep (t ∷ rest))

-- Documented behaviour of package regexp: an alternation of quoted texts matches one of them
-- literally, and `FindString` returns "" where nothing matches.
pub record MatchesLiterally {Re Tm Info : Type 0} (e : Engines Re Tm Info) : Type 0 where
  pub compiles :
      (ss : List Text) → (re : Re) × (e.compile (join (codes "|") (map e.quote_meta ss)) ≡ some re)
  pub alternative :
      (ss : List Text) (re : Re) (text : Text)
      → e.compile (join (codes "|") (map e.quote_meta ss)) ≡ some re
      → (e.find_string re text ≡ []) ⊎ (any_eq ss (e.find_string re text) ≡ true)
