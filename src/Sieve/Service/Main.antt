-- ===== src/Sieve/Service/Main.antt =====
-- sieve/cmd/logyard_sieve/main.go: the service as a whole, from the configured events to what is
-- published for a stream of records.
use logyard_apps.Prelude.{◌≡◌, refl, ◌∙◌, List, [], ◌∷◌, ◌++◌, arith}
use logyard_apps.Prelude.Text.{Text, codes}
use logyard_apps.Prelude.Dict.{Dict}
use logyard_apps.Prelude.Run.{Result, ok, err, Run, done, ◌>>=◌}
use logyard_apps.Common.{Clock}
use logyard_apps.Sieve.Engines.{Engines, MatchesLiterally}
use logyard_apps.Sieve.Event.{Event, Published, must_publish}
use logyard_apps.Sieve.Parser.{
  EventParserSpec, Parser, Parsed, found, failed, nothing, parse, new_stackato_parser,
  delete_samples,
}
use logyard_apps.Sieve.Parser.Samples.{parse-delete_samples}
use logyard_apps.Sieve.Parser.Types.{IsSimpleSpec, parse_total_of_IsSimpleSpec}
use logyard_apps.Sieve.Service.{stamped, Message, watch, on_message, handle_record, publish_parsed}

module _ {Re Tm Info Time : Type 0} (e : Engines Re Tm Info) (clock : Clock Time)
    (unmarshal : Text → Result Message) (marshal : Event Info → Result Text) where
  unfoldable pub serve : Dict (Dict EventParserSpec) → List Text → Published → Run Published
  serve events values out = do
    parser ← new_stackato_parser e events
    watch e clock unmarshal marshal (delete_samples parser) values out

  module _ (encodes : (event : Event Info) → (text : Text) × (marshal event ≡ ok text))
      (parser : Parser Re Tm)
      (answers : (g text : Text) → (r : Parsed Info) × (parse e parser g text ≡ done r)) where
    publish_parsed_total :
        (message : Message) (r : Parsed Info) (out : Published)
        → (out' : Published) × (publish_parsed e clock unmarshal marshal parser message r out
            ≡ done out')
    unfolding publish_parsed must_publish
    publish_parsed_total message (found event) out =
        let (text, same) = encodes (stamped e clock unmarshal marshal parser message event) in
        ((codes "event." ++ event.type, text) ∷ out, ground (arith, same))
    publish_parsed_total message (failed x) out = (out, refl)
    publish_parsed_total message nothing out = (out, refl)

    handle_record_total :
        (r : Result Message) (out : Published)
        → (out' : Published) × (handle_record e clock unmarshal marshal parser r out ≡ done out')
    unfolding handle_record
    handle_record_total (err x) out = (out, refl)
    handle_record_total (ok message) out =
        let (parsed, same) = answers message.name message.common.text in
        let (out', published) = publish_parsed_total message parsed out in (out', rw same published)

    watch_total :
        (values : List Text) (out : Published)
        → (out' : Published) × (watch e clock unmarshal marshal parser values out ≡ done out')
    unfolding watch on_message
    watch_total [] out = (out, refl)
    watch_total (value ∷ rest) out =
        let (mid, first) = handle_record_total (unmarshal value) out in
        let (out', later) = watch_total rest mid in (out', rw first later)

  -- Once the parser is built, from events whose handler types are all empty or simple, the service
  -- handles every stream of records without stopping, also records that do not decode, where an
  -- event can always be encoded.
  pub serve_total :
      MatchesLiterally e
      → ((event : Event Info) → (text : Text) × (marshal event ≡ ok text))
      → (events : Dict (Dict EventParserSpec)) (parser : Parser Re Tm) → IsSimpleSpec events
      → new_stackato_parser e events ≡ done parser
      → (values : List Text) (out : Published)
      → (out' : Published) × (serve events values out ≡ done out')
  unfolding serve
  serve_total literal encodes events parser simple built values out =
      let answers : (g text : Text)
          → (r : Parsed Info) × (parse e (delete_samples parser) g text ≡ done r) =
        λ g text.
          let (r, same) = parse_total_of_IsSimpleSpec e literal events parser simple built g text in
          (r, parse-delete_samples e parser g text ∙ same) in
      let (out', same) = watch_total encodes (delete_samples parser) answers values out in
      (out', rw built same)
