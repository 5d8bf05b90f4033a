-- ===== src/Sieve/Parser/Found.antt =====
-- What `Parse` returns.
use logyard_apps.Prelude.{
  ◌∙◌, sym, ◌≡◌, ◌⊎◌, refl, none, some, List, [], arith, Option-cases, inl, inr,
}
use logyard_apps.Prelude.Text.{Text}
use logyard_apps.Prelude.Dict.{get}
use logyard_apps.Prelude.Run.{Result, done, ok}
use logyard_apps.Sieve.Engines.{Engines, MatchesLiterally}
use logyard_apps.Sieve.Event.{Event}
use logyard_apps.Sieve.Handler.{handle_event_keeps, handle_event}
use logyard_apps.Sieve.Matcher.{MultiRegexpMatcher, match}
use logyard_apps.Sieve.Matcher.Built.{match_lem}
use logyard_apps.Sieve.Parser.{
  EventParser, EventParserGroup, Parser, Parsed, found, nothing, all_group, new_event, parse,
  parse_star_group, run_handler, star_event, star_match, group_event, group_match, to_parsed,
}
use logyard_apps.Sieve.Parser.Build.{IsOf, IsReady}

module _ {Re Tm Info : Type 0} (e : Engines Re Tm Info) where
  -- The event parser `p`, named `n` in the group, matches the text with these groups.
  pub record Matches (group : EventParserGroup Tm) (text n : Text) (p : EventParser Tm)
      (results : List Text) : Type 0 where
    pub member : get group n ≡ some p
    pub regexp : Re
    pub compiled : e.compile p.re ≡ some regexp
    pub matched : e.find_string_submatch regexp text ≡ some results

  module _ (literal : MatchesLiterally e) (parser : Parser Re Tm) (ready : IsReady e parser) where
    -- A group of the parser sees no match in the text, or the match of one of its event parsers.
    group_sees :
        (g text : Text) (group : EventParserGroup Tm)
        → get parser.tree g ≡ some group
        → (m : MultiRegexpMatcher Re) × (get parser.matchers g ≡ some m)
          × (((n : Text) × (match e m text ≡ done (n, none)))
              ⊎ ((n : Text) × (p : EventParser Tm) × (results : List Text) × (match e m text
                    ≡ done (n, some results))
                  × Matches group text n p results))
    group_sees g text group x =
        let (m, stored, built) = ready.matcher g group x in
        elim (match_lem e (IsOf e group) literal m text built) [
          | inl missed ↦ (m, stored, inl ([], missed))
          | inr (n, r, (p, member, compiled), answered) ↦
              elim (Option-cases (e.find_string_submatch r text)) [
                | inl y ↦ (m, stored, inl (n, rw (← y) answered))
                | inr (results, y) ↦ (
                  m,
                  stored,
                  inr (
                    n,
                    p,
                    results,
                    rw (← y) answered,
                    record { member = member; regexp = r; compiled = compiled; matched = y },
                  ),
                )
              ]
        ]

    -- An event parser of the group `h` that matches the text.
    pub record Hit (h text : Text) : Type 0 where
      pub group : EventParserGroup Tm
      pub in_tree : get parser.tree h ≡ some group
      pub n : Text
      pub p : EventParser Tm
      pub results : List Text
      pub match_of : Matches group text n p results

    star_lem :
        (g text : Text)
        → (parse_star_group e parser g text ≡ done nothing)
          ⊎ ((hit : Hit all_group text) × (parse_star_group e parser g text
                ≡ run_handler e hit.n g hit.results hit.p))
    unfolding parse_star_group
    star_lem g text = elim (Option-cases (get parser.tree all_group)) [
      | inl y ↦ inl (rw (y, parse_star_group) refl)
      | inr (group, y) ↦
          let (m, stored, sees) = group_sees all_group text group y in
          elim sees [
            | inl (n, missed) ↦
                inl (rw (y, parse_star_group) (rw (stored, star_match) (rw missed refl)))
            | inr (n, p, results, answered, matches) ↦ inr (
              record {
                group = group;
                in_tree = y;
                n = n;
                p = p;
                results = results;
                match_of = matches;
              },
              rw (y, parse_star_group)
                  (rw (stored, star_match) (rw answered (rw (matches.member, star_event) refl))),
            )
          ]
    ]

    -- `Parse` on every path, panics included: it returns nothing, or what the handler of a matching
    -- event parser makes of the match, where the parser is in the group that was asked for or in
    -- "__all__".
    pub parse_lem :
        (g text : Text)
        → (parse e parser g text ≡ done nothing)
          ⊎ ((h : Text) × ((h ≡ g) ⊎ (h ≡ all_group))
              × (hit : Hit h text) × (parse e parser g text
                  ≡ run_handler e hit.n g hit.results hit.p))
    unfolding parse
    parse_lem g text = elim (Option-cases (get parser.tree g)) [
      | inl y ↦ elim (star_lem g text) [
        | inl none_found ↦ inl (rw (y, parse) none_found)
        | inr (hit, run) ↦ inr (all_group, inr refl, hit, rw (y, parse) run)
      ]
      | inr (group, y) ↦
          let (m, stored, sees) = group_sees g text group y in
          elim sees [
            | inl (n, missed) ↦ elim (star_lem g text) [
              | inl none_found ↦
                  inl (rw (y, parse) (rw (stored, group_match) (rw missed none_found)))
              | inr (hit, run) ↦ inr (
                all_group,
                inr refl,
                hit,
                rw (y, parse) (rw (stored, group_match) (rw missed run)),
              )
            ]
            | inr (n, p, results, answered, matches) ↦ inr (
              g,
              inl refl,
              record {
                group = group;
                in_tree = y;
                n = n;
                p = p;
                results = results;
                match_of = matches;
              },
              rw (y, parse)
                  (rw (stored, group_match) (rw answered (rw (matches.member, group_event) refl))),
            )
          ]
    ]

    -- What is true of an event that `Parse` returns.
    pub record IsEventOf (g text : Text) (event : Event Info) : Type 0 where
      pub group_name : Text
      pub asked : (group_name ≡ g) ⊎ (group_name ≡ all_group)
      pub hit : Hit group_name text
      pub type : event.type ≡ hit.n
      pub process : event.process ≡ g
      pub handled : handle_event e hit.p.handler hit.results (new_event e hit.n g) ≡ done (ok event)

    run_handler-found :
        (n g : Text) (results : List Text) (p : EventParser Tm) (event : Event Info)
        → run_handler e n g results p ≡ done (found event)
        → handle_event e p.handler results (new_event e n g) ≡ done (ok event)
    unfolding run_handler
    run_handler-found n g results p event x = ground arith

    -- An event that `Parse` returns is named after an event parser whose expression matches the
    -- text, in the group that was asked for or in "__all__"; its process is the group that was asked
    -- for, also where "__all__" matched; and the handler filled it from the groups of the match.
    pub parse-found :
        (g text : Text) (event : Event Info)
        → parse e parser g text ≡ done (found event)
        → IsEventOf g text event
    parse-found g text event x = elim (parse_lem g text) [
      | inl y ↦ let no_event : done nothing ≡ done (found event) = sym y ∙ x in cc
      | inr (h, asked, hit, run) ↦
          let handled = run_handler-found hit.n g hit.results hit.p event (sym run ∙ x) in
          let (type, process) =
            handle_event_keeps e hit.p.handler hit.results (new_event e hit.n g) event handled in
          record {
            group_name = h;
            asked = asked;
            hit = hit;
            type = type;
            process = process;
            handled = handled;
          }
    ]

    -- Every handler of the parser answers to a match of its expression.
    abbrev pub HandlersAnswer : Type 0
    HandlersAnswer =
        (h text : Text) (hit : Hit h text) (event : Event Info)
        → (x : Result (Event Info)) × (handle_event e hit.p.handler hit.results event ≡ done x)

    -- Where every handler answers to a match of its own expression, `Parse` returns for every group
    -- and every text: neither of its panics nor a nil pointer is reached.
    pub parse_total :
        HandlersAnswer → (g text : Text) → (r : Parsed Info) × (parse e parser g text ≡ done r)
    unfolding run_handler
    parse_total answers g text = elim (parse_lem g text) [
      | inl y ↦ (nothing, y)
      | inr (h, asked, hit, run) ↦
          let (x, handled) = answers h text hit (new_event e hit.n g) in
          (to_parsed x, run ∙ ground arith)
    ]
