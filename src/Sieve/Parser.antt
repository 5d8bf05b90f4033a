-- ===== src/Sieve/Parser.antt =====
-- sieve/parser.go
pub mod Build
pub mod Found
pub mod Types
pub mod Samples
use logyard_apps.Prelude.{◌||◌, ◌≡◌, Bool, Option, none, some, List, [], ◌∷◌, if◌then◌else◌}
use logyard_apps.Prelude.Text.{Text, codes, ◌==◌}
use logyard_apps.Prelude.Dict.{Dict, get, put, contains}
use logyard_apps.Prelude.Run.{
  Error, Result, ok, err, Run, done, crash, nil_pointer, unreachable, ◌>>=◌,
}
use logyard_apps.Common.{zero_common}
use logyard_apps.Sieve.Engines.{Engines}
use logyard_apps.Sieve.Event.{Event}
use logyard_apps.Sieve.Handler.{
  EventHandler, no_handler, new_simple_event_handler, new_json_event_handler, handle_event,
}
use logyard_apps.Sieve.Matcher.{
  MultiRegexpMatcher, new_multi_regexp_matcher, must_add, build, match,
}

pub record EventParserSpec : Type 0 where
  pub substring : Text
  pub re : Text
  pub sample : Text
  pub format : Text
  pub severity : Text
  pub handler_type : Text

pub record EventParser (Tm : Type 0) : Type 0 where
  pub substring : Text
  pub re : Text
  pub sample : Text
  pub handler : EventHandler Tm

abbrev pub EventParserGroup : Type 0 → Type 0
EventParserGroup Tm = Dict (EventParser Tm)

pub record Parser (Re Tm : Type 0) : Type 0 where
  pub tree : Dict (EventParserGroup Tm)
  pub matchers : Dict (MultiRegexpMatcher Re)

-- `(*Event, error)`: an event, an error, or neither.
pub data Parsed (Info : Type 0) : Type 0 where
  found : Event Info → Parsed Info
  failed : Error → Parsed Info
  nothing : Parsed Info

abbrev pub all_group : Text
all_group = codes "__all__"

abbrev pub severity_of : EventParserSpec → Text
severity_of p = if p.severity == [] then codes "INFO" else p.severity

module _ {Tm : Type 0} where
  abbrev pub group_or_new : Option (EventParserGroup Tm) → EventParserGroup Tm
  group_or_new none = []
  group_or_new (some group) = group

  -- Samples are cleared through the pointers of the groups.
  clear_samples : EventParserGroup Tm → EventParserGroup Tm
  clear_samples [] = []
  clear_samples ((name, p) ∷ rest) = (name, record p { sample = [] }) ∷ clear_samples rest

  clear_groups : Dict (EventParserGroup Tm) → Dict (EventParserGroup Tm)
  clear_groups [] = []
  clear_groups ((name, group) ∷ rest) = (name, clear_samples group) ∷ clear_groups rest

module _ {Re Tm : Type 0} where
  unfoldable pub new_parser : Dict (EventParserGroup Tm) → Parser Re Tm
  new_parser tree = record { tree = tree; matchers = [] }

  unfoldable pub delete_samples : Parser Re Tm → Parser Re Tm
  unfolding clear_samples clear_groups
  delete_samples parser = record parser { tree = clear_groups parser.tree }

abbrev pub to_parsed : {Info : Type 0} → Result (Event Info) → Parsed Info
to_parsed (ok event) = found event
to_parsed (err x) = failed x

module _ {Re Tm Info : Type 0} (e : Engines Re Tm Info) where
  new_handler : EventParserSpec → Run (EventHandler Tm)
  new_handler p =
      if p.handler_type == [] || p.handler_type == codes "simple"
      then new_simple_event_handler e (severity_of p) p.format
      else if p.handler_type == codes "json"
      then new_json_event_handler e (severity_of p) p.format
      else done no_handler

  unfoldable pub to_event_parser : EventParserSpec → Run (EventParser Tm)
  unfolding new_handler
  to_event_parser p = do
    handler ← new_handler p
    done (record { substring = p.substring; re = p.re; sample = p.sample; handler = handler })

  -- The loops of `Build`.
  add_parsers : EventParserGroup Tm → MultiRegexpMatcher Re → Run (MultiRegexpMatcher Re)
  add_parsers [] matcher = done matcher
  add_parsers ((event_name, event_parser) ∷ rest) matcher = do
    m ← must_add e event_name event_parser.substring event_parser.re matcher
    add_parsers rest m

  build_group : EventParserGroup Tm → Run (MultiRegexpMatcher Re)
  build_group group = do m ← add_parsers group new_multi_regexp_matcher; build e m

  build_groups :
      Dict (EventParserGroup Tm) → Dict (MultiRegexpMatcher Re) → Run (Dict (MultiRegexpMatcher Re))
  build_groups [] matchers = done matchers
  build_groups ((group_name, group) ∷ rest) matchers = do
    matcher ← build_group group
    build_groups rest (put matchers group_name matcher)

  unfoldable pub build_parser : Parser Re Tm → Run (Parser Re Tm)
  unfolding add_parsers build_group build_groups
  build_parser parser = do
    matchers ← build_groups parser.tree parser.matchers
    done (record parser { matchers = matchers })

  abbrev new_event : Text → Text → Event Info
  new_event type process = record {
    type = type;
    desc = [];
    severity = codes "INFO";
    info = e.nil_info;
    process = process;
    common = zero_common;
  }

  -- The call of the handler for an event type with a match.
  unfoldable pub run_handler : Text → Text → List Text → EventParser Tm → Run (Parsed Info)
  run_handler event_type process results event_parser = do
    r ← handle_event e event_parser.handler results (new_event event_type process)
    done (to_parsed r)

  -- `group[event_type]` of a missing key is a nil pointer.
  star_event : EventParserGroup Tm → Text → Text × Option (List Text) → Run (Parsed Info)
  star_event group orig_group (event_type, none) = done nothing
  star_event group orig_group (event_type, some results) = elim (get group event_type) [
    | none ↦ crash nil_pointer
    | some p ↦ run_handler event_type orig_group results p
  ]

  star_match :
      EventParserGroup Tm → Text → Text → Option (MultiRegexpMatcher Re) → Run (Parsed Info)
  star_match group orig_group text none = crash nil_pointer
  star_match group orig_group text (some matcher) = do
    m ← match e matcher text
    star_event group orig_group m

  unfoldable pub parse_star_group : Parser Re Tm → Text → Text → Run (Parsed Info)
  unfolding run_handler star_event star_match
  parse_star_group parser orig_group text = elim (get parser.tree all_group) [
    | none ↦ done nothing
    | some group ↦ star_match group orig_group text (get parser.matchers all_group)
  ]

  group_event :
      Parser Re Tm
      → EventParserGroup Tm
      → Text
      → Text
      → Text × Option (List Text)
      → Run (Parsed Info)
  group_event parser group group_name text (event_type, none) =
      parse_star_group parser group_name text
  group_event parser group group_name text (event_type, some results) =
      elim (get group event_type) [
        | none ↦ crash unreachable
        | some p ↦ run_handler event_type group_name results p
      ]

  group_match :
      Parser Re Tm
      → EventParserGroup Tm
      → Text
      → Text
      → Option (MultiRegexpMatcher Re)
      → Run (Parsed Info)
  group_match parser group group_name text none = crash unreachable
  group_match parser group group_name text (some matcher) = do
    m ← match e matcher text
    group_event parser group group_name text m

  unfoldable pub parse : Parser Re Tm → Text → Text → Run (Parsed Info)
  unfolding run_handler group_event group_match
  parse parser group_name text = elim (get parser.tree group_name) [
    | none ↦ parse_star_group parser group_name text
    | some group ↦ group_match parser group group_name text (get parser.matchers group_name)
  ]

  -- The loops of `NewStackatoParser`.
  spec_group : Dict EventParserSpec → EventParserGroup Tm → Run (EventParserGroup Tm)
  spec_group [] group = done group
  spec_group ((event_name, evt) ∷ rest) group = do
    p ← to_event_parser evt
    spec_group rest (put group event_name p)

  spec_groups :
      Dict (Dict EventParserSpec) → Dict (EventParserGroup Tm) → Run (Dict (EventParserGroup Tm))
  spec_groups [] tree = done tree
  spec_groups ((process, d) ∷ rest) tree = do
    group ← spec_group d (group_or_new (get tree process))
    spec_groups rest (put tree process group)

  unfoldable pub new_stackato_parser : Dict (Dict EventParserSpec) → Run (Parser Re Tm)
  unfolding spec_group spec_groups
  new_stackato_parser spec = do
    parser_spec ← spec_groups spec []
    build_parser (new_parser parser_spec)
