-- ===== src/Sieve/Parser/Types.antt =====
-- The handler types of a specification.
use logyard_apps.Prelude.{
  All, ◌≡◌, ◌≢◌, ◌⊎◌, refl, subst, sym, some, List, [], ◌∷◌, arith, Option-cases, Bool-cases, inl,
  inr,
}
use logyard_apps.Prelude.Text.{Text, codes, ◌==◌, eq_iff}
use logyard_apps.Prelude.Dict.{Dict, get, put, get-put}
use logyard_apps.Prelude.Run.{Result, done, crash, nil_pointer, >>=-eq-done, done-injective}
use logyard_apps.Sieve.Engines.{Engines, MatchesLiterally}
use logyard_apps.Sieve.Event.{Event}
use logyard_apps.Sieve.Handler.{
  new_simple_event_handler, EventHandler, simple, json, no_handler, handle_event,
}
use logyard_apps.Sieve.Parser.{
  build_groups, EventParser, EventParserGroup, EventParserSpec, Parser, Parsed, to_event_parser,
  parse, new_stackato_parser, spec_group, spec_groups, build_parser, new_parser, group_or_new,
}
use logyard_apps.Sieve.Parser.Build.{new_stackato_parser-IsReady}
use logyard_apps.Sieve.Parser.Found.{parse_total}

abbrev pub IsSimpleType : EventParserSpec → Type 0
IsSimpleType p = (p.handler_type ≡ []) ⊎ (p.handler_type ≡ codes "simple")

-- No event parser of the specification asks for another handler than the simple one.
abbrev pub IsSimpleSpec : Dict (Dict EventParserSpec) → Type 0
IsSimpleSpec spec = All (λ d. All (λ p. IsSimpleType p.1) d.1) spec

abbrev pub IsSimple : {Tm : Type 0} → EventHandler Tm → Type 0
IsSimple no_handler = ⊥
IsSimple (simple t severity) = Unit
IsSimple (json t severity) = ⊥

abbrev pub AllSimple : {Tm : Type 0} → EventParserGroup Tm → Type 0
AllSimple {Tm} group = (n : Text) (p : EventParser Tm) → get group n ≡ some p → IsSimple p.handler

old_or_new :
    {Tm : Type 0} (tree : Dict (EventParserGroup Tm)) (name : Text)
    → ((g : Text) (group : EventParserGroup Tm) → get tree g ≡ some group → AllSimple group)
    → AllSimple (group_or_new (get tree name))
unfolding get
old_or_new tree name h = elim (Option-cases (get tree name)) [
  | inl x ↦ rw x (λ n p y. cc)
  | inr (group, x) ↦ rw x (h name group x)
]

module _ {Re Tm Info : Type 0} (e : Engines Re Tm Info) where
  -- A specification with an unknown handler type is accepted, and every match of it then calls the
  -- handler on nil.
  unknown_handler_type :
      (p : EventParserSpec)
      → p.handler_type ≢ []
      → p.handler_type ≢ codes "simple"
      → p.handler_type ≢ codes "json"
      → (ep : EventParser Tm) × (to_event_parser e p ≡ done ep)
        × ((results : List Text) (event : Event Info)
            → handle_event e ep.handler results event ≡ crash nil_pointer)
  unfolding to_event_parser handle_event
  unknown_handler_type p a b c = (
    record { substring = p.substring; re = p.re; sample = p.sample; handler = no_handler },
    ground (
      arith,
      eq_iff p.handler_type [],
      eq_iff p.handler_type (codes "simple"),
      eq_iff p.handler_type (codes "json"),
    ),
    λ results event. refl,
  )

  to_event_parser-IsSimple :
      (p : EventParserSpec) (ep : EventParser Tm)
      → IsSimpleType p
      → to_event_parser e p ≡ done ep
      → IsSimple ep.handler
  unfolding to_event_parser new_simple_event_handler
  to_event_parser-IsSimple p ep h x =
      ground (arith, eq_iff p.handler_type [], eq_iff p.handler_type (codes "simple"))

  put-AllSimple :
      (group : EventParserGroup Tm) (name : Text) (p : EventParser Tm)
      → IsSimple p.handler
      → AllSimple group
      → AllSimple (put group name p)
  put-AllSimple group name p s h n q x = elim (Bool-cases (name == n)) [
    | inl same ↦
        let is_q : p ≡ q = ground (arith, get-put group name n p) in
        subst (λ u. IsSimple u.handler) is_q s
    | inr other ↦ h n q (ground (arith, get-put group name n p))
  ]

  spec_group-AllSimple :
      (d : Dict EventParserSpec) (group group' : EventParserGroup Tm)
      → All (λ p. IsSimpleType p.1) d
      → AllSimple group
      → spec_group e d group ≡ done group'
      → AllSimple group'
  unfolding spec_group
  spec_group-AllSimple [] group group' s h x = subst AllSimple (done-injective x) h
  spec_group-AllSimple ((name, evt) ∷ rest) group group' (s, more_simple) h x =
      let (p, first, more) = >>=-eq-done (to_event_parser e evt) _ x in
      spec_group-AllSimple rest (put group name p) group' more_simple
        (put-AllSimple group name p (to_event_parser-IsSimple evt p s first) h) more

  spec_groups-AllSimple :
      (spec : Dict (Dict EventParserSpec)) (tree tree' : Dict (EventParserGroup Tm))
      → IsSimpleSpec spec
      → ((g : Text) (group : EventParserGroup Tm) → get tree g ≡ some group → AllSimple group)
      → spec_groups e spec tree ≡ done tree'
      → (g : Text) (group : EventParserGroup Tm) → get tree' g ≡ some group
      → AllSimple group
  unfolding spec_groups
  spec_groups-AllSimple [] tree tree' s h x =
      λ g group y. h g group (subst (λ t. get t g ≡ some group) (sym (done-injective x)) y)
  spec_groups-AllSimple ((name, d) ∷ rest) tree tree' (s, more_simple) h x =
      let (new, first, more) = >>=-eq-done (spec_group e d (group_or_new (get tree name))) _ x in
      spec_groups-AllSimple rest (put tree name new) tree' more_simple
        (λ g group y. elim (Bool-cases (name == g)) [
          | inl same ↦
              let is_new : new ≡ group = ground (arith, get-put tree name g new) in
              subst (λ u. AllSimple u) is_new
                (spec_group-AllSimple d (group_or_new (get tree name)) new s
                  (old_or_new tree name h) first)
          | inr other ↦ h g group (ground (arith, get-put tree name g new))
        ])
        more

  build_parser-tree :
      (parser built : Parser Re Tm) → build_parser e parser ≡ done built → built.tree ≡ parser.tree
  unfolding build_parser
  build_parser-tree parser built x =
      let (ms, first, more) = >>=-eq-done (build_groups e parser.tree parser.matchers) _ x in
      rw (← done-injective more)

  IsSimple-answers :
      (h : EventHandler Tm) (results : List Text) (event : Event Info)
      → IsSimple h
      → (x : Result (Event Info)) × (handle_event e h results event ≡ done x)
  unfolding handle_event
  IsSimple-answers no_handler results event s = absurd s
  IsSimple-answers (simple t severity) results event s = (_, refl)
  IsSimple-answers (json t severity) results event s = absurd s

  -- A parser that `NewStackatoParser` builds from a specification whose handler types are all "" or
  -- "simple" returns for every group and every text: no panic and no nil pointer is reached.
  pub parse_total_of_IsSimpleSpec :
      MatchesLiterally e
      → (spec : Dict (Dict EventParserSpec)) (parser : Parser Re Tm) → IsSimpleSpec spec
      → new_stackato_parser e spec ≡ done parser
      → (g text : Text) → (r : Parsed Info) × (parse e parser g text ≡ done r)
  unfolding new_stackato_parser new_parser get
  parse_total_of_IsSimpleSpec literal spec parser s x g text =
      let ready = new_stackato_parser-IsReady e spec parser x in
      let (tree, first, more) = >>=-eq-done (spec_groups e spec []) _ x in
      let same = build_parser-tree (record { tree = tree; matchers = [] }) parser more in
      parse_total e literal parser ready
        (λ h t hit event. IsSimple-answers hit.p.handler hit.results event (
          spec_groups-AllSimple spec [] tree s (λ k group y. cc) first h hit.group
            (subst (λ u. get u h ≡ some hit.group) same hit.in_tree) hit.n hit.p
            hit.match_of.member))
        g text
