-- ===== src/Examples/SieveRuns.antt =====
-- Runs of sieve over literal expressions.
use logyard_apps.Prelude.{length, ◌≡◌, ◌≢◌, ◌⊎◌, ◌↔◌, refl, inl, inr, List, [], ◌∷◌, ◌++◌}
use logyard_apps.Prelude.Text.{Text, codes, ◌==◌, has_prefix}
use logyard_apps.Prelude.Int.{ℤ}
use logyard_apps.Prelude.Dict.{Dict, get, put}
use logyard_apps.Prelude.Run.{Result, ok, done}
use logyard_apps.Common.{Clock, zero_common, new_message_common}
use logyard_apps.Sieve.Event.{Event, Published, must_publish}
use logyard_apps.Sieve.Template.{simple_template_text}
use logyard_apps.Sieve.Handler.{
  json, handle_event, new_simple_event_handler, new_json_event_handler,
}
use logyard_apps.Sieve.Handler.Faults.{json_total}
use logyard_apps.Sieve.Matcher.{match, must_add, build}
use logyard_apps.Sieve.Parser.{
  EventParserSpec, Parser, found, nothing, new_stackato_parser, build_parser, new_parser, parse,
  parse_star_group, to_event_parser, run_handler, delete_samples,
}
use logyard_apps.Sieve.Parser.Build.{IsReady, new_stackato_parser-IsReady}
use logyard_apps.Sieve.Parser.Found.{IsEventOf, parse-found}
use logyard_apps.Sieve.Parser.Types.{IsSimpleSpec}
use logyard_apps.Sieve.Service.Main.{serve, serve_total}
use logyard_apps.Sieve.Service.{Finds, stamped, Message, on_message, watch, on_message-publishes}
use logyard_apps.Examples.Literal.{literal, literal-MatchesLiterally, split_bar, first_occurring}

abbrev error_spec : EventParserSpec
error_spec = record {
  substring = codes "ERROR";
  re = codes "ERROR";
  sample = codes "ERROR -- x";
  format = codes "error: $1";
  severity = codes "ERROR";
  handler_type = [];
}

abbrev exit_spec : EventParserSpec
exit_spec = record error_spec {
  substring = codes "exited";
  re = codes "exited";
  severity = [];
  handler_type = codes "simple";
}

abbrev stop_spec : EventParserSpec
stop_spec = record exit_spec { substring = codes "stopped"; re = codes "stopped" }

abbrev spec : Dict (Dict EventParserSpec)
spec =
    (
      codes "supervisord",
      (codes "process_exit", exit_spec) ∷ (codes "process_stop", stop_spec) ∷ [],
    )
    ∷ (codes "__all__", (codes "error", error_spec) ∷ [])
    ∷ []

unfoldable pub program : Unit {0}
unfolding new_stackato_parser build_parser new_parser parse parse_star_group to_event_parser
    run_handler delete_samples match must_add build handle_event new_simple_event_handler
    new_json_event_handler simple_template_text get put ◌==◌ has_prefix split_bar first_occurring
    on_message must_publish new_message_common watch
program = tt

unfoldable pub built : (p : Parser (List Text) Text) × (new_stackato_parser literal spec ≡ done p)
unfolding program
built = (_, refl)

abbrev pub parser : Parser (List Text) Text
parser = built.0

parser-IsReady : IsReady literal parser
parser-IsReady = new_stackato_parser-IsReady literal spec parser built.1

abbrev pub line : Text
line = codes "exited: dea"

abbrev pub exit_event : Event Text
exit_event = record {
  type = codes "process_exit";
  desc = codes "error: {{index . 1}}exitedexited: dea";
  severity = codes "INFO";
  info = [];
  process = codes "supervisord";
  common = zero_common;
}

pub parsed_exit : parse literal parser (codes "supervisord") line ≡ done (found exit_event)
unfolding program built
parsed_exit = refl

-- A text that only "__all__" matches, and an unknown process.
parsed_star :
    parse literal parser (codes "cron") (codes "ERROR x")
    ≡ done (
        found (record exit_event {
          type = codes "error";
          desc = codes "error: {{index . 1}}ERRORERROR x";
          severity = codes "ERROR";
          process = codes "cron";
        }))
unfolding program built
parsed_star = refl

parsed_nothing : parse literal parser (codes "supervisord") (codes "fine") ≡ done nothing
unfolding program built
parsed_nothing = refl

parse-found_example :
    IsEventOf literal literal-MatchesLiterally parser parser-IsReady
      (codes "supervisord")
      line
      exit_event
parse-found_example =
    parse-found literal literal-MatchesLiterally parser parser-IsReady (codes "supervisord") line
      exit_event parsed_exit

spec-IsSimpleSpec : IsSimpleSpec spec
spec-IsSimpleSpec = ((inr refl, (inr refl, tt)), ((inl refl, tt), tt))

json_total_example :
    ((x : Result (Event Text)) × (handle_event literal (json [] []) (line ∷ []) exit_event
        ≡ done x))
    ↔ (length (line ∷ []) ≢ 1)
json_total_example = json_total literal [] [] (line ∷ []) exit_event

abbrev clock : Clock ℤ
clock = record { unix = λ t. t; from_unix = λ t. t; format = λ t layout. layout }

abbrev message : Message
message = record { name = codes "supervisord"; common = record zero_common { text = line } }

abbrev pub marshal : Event Text → Result Text
marshal event = ok event.desc

on_message_run :
    on_message literal clock (λ value. ok message) marshal parser [] []
    ≡ done ((codes "event.process_exit", exit_event.desc) ∷ [])
unfolding program built
on_message_run = refl

abbrev one_published : Published
one_published = (codes "event.process_exit", exit_event.desc) ∷ []

on_message-publishes_example :
    ((◌≡◌ {A = Published} one_published [])
      × ¬ (
          (m : Message) × (event : Event Text) × Finds literal clock
            (λ value. ok message)
            marshal
            parser
            []
            m
            event))
    ⊎ ((m : Message) × (event : Event Text) × (text : Text) × Finds literal clock
          (λ value. ok message)
          marshal
          parser
          []
          m
          event
        × (marshal (stamped literal clock (λ value. ok message) marshal parser m event) ≡ ok text)
        × ◌≡◌ {A = Published} one_published ((codes "event." ++ event.type, text) ∷ []))
on_message-publishes_example =
    on_message-publishes literal clock (λ value. ok message) marshal parser [] [] one_published
      on_message_run

serve_total_example :
    (out : Published) × (serve literal clock (λ value. ok message) marshal spec ([] ∷ []) []
      ≡ done out)
serve_total_example =
    serve_total literal clock (λ value. ok message) marshal literal-MatchesLiterally
      (λ event. (event.desc, refl)) spec parser spec-IsSimpleSpec built.1 ([] ∷ []) []
