-- ===== src/Examples/EndpointRuns.antt =====
-- Requests to the endpoint on a connection that logs what is sent.
use logyard_apps.Prelude.{
  ◌⊎◌, true, ◌≡◌, refl, arith, ℕ, map, false, if◌then◌else◌, none, List, [], ◌∷◌, ◌++◌,
}
use logyard_apps.Prelude.Decimal.{show_ℕ}
use logyard_apps.Prelude.Text.{Text, codes, ◌==◌, has_prefix}
use logyard_apps.Prelude.Int.{pos}
use logyard_apps.Prelude.Dict.{Dict, get, put, delete, get-put, get-delete}
use logyard_apps.Prelude.Run.{ok, err, done, crash, bad_assertion, ◌>>=◌}
use logyard_apps.Endpoint.Router.{get_applog_endpoint_uri, replace_first}
use logyard_apps.Endpoint.Arguments.{Arguments, Request, parse_arguments, num_of, atoi, validate}
use logyard_apps.Endpoint.Stream.{
  Websocket, WsStreamData, Wake, line, channel_closed, second_passed, forward, fatalf, send,
  value_frame,
}
use logyard_apps.Endpoint.Stream.Delivery.{IsLogged, IsDelivered, lines_of, forward-IsDelivered}
use logyard_apps.Endpoint.Drain.{
  Logyard, AppLogDrain, drain_name_of, start, stop, drain_prefix, new_app_log_drain, add_drain,
  remove_orphaned_drains,
}
use logyard_apps.Endpoint.Drain.Names.{IsStore, stop-start}
use logyard_apps.Loading.{EndpointConfig, get_config, load_endpoint_config}
use logyard_apps.Endpoint.Config.{mock, initial_config}
use logyard_apps.Endpoint.Sessions.{Moment, opens, fails, step, steps, serve}
use logyard_apps.Endpoint.Sessions.Numbered.{has_drain}
use logyard_apps.Endpoint.Sessions.Owned.{serve_lem}
use logyard_apps.Endpoint.Server.{Controller, recent_logs, tail_handler, send_recent, send_lines}
use logyard_apps.Endpoint.Server.Access.{no_access, tail_handler_refused, tail_handler_elsewhere}
use logyard_apps.Endpoint.Server.History.{history, send_recent-sent}

default_uri :
    get_applog_endpoint_uri [] (codes "api.stackato.example") ≡ codes "logs.stackato.example"
unfolding get_applog_endpoint_uri replace_first has_prefix ◌==◌
default_uri = refl

custom_uri :
    get_applog_endpoint_uri (codes "example.test") (codes "api.stackato.example")
    ≡ codes "example.test"
unfolding get_applog_endpoint_uri ◌==◌
custom_uri = refl

-- A connection that keeps what is written, and a store that is the map of the drains itself.
abbrev logged : Websocket (List WsStreamData)
logged = record { write_json = λ d c. (none, c ++ d ∷ []); ping = λ c. (none, c); close = λ c. c }

logged-IsLogged : IsLogged logged (λ c. c)
logged-IsLogged = record {
  written = λ d c h. refl;
  refused = λ d c e h. absurd (ground (arith, h));
  pinged = λ c. refl;
  shut = λ c. refl;
}

abbrev store : Logyard (Dict Text) ℕ
store = record {
  drains = λ s. s;
  add_drain = λ n uri s. (none, put s n uri);
  delete_drain = λ n s. (none, delete s n);
  construct_drain_uri = λ n uri filters. ok uri;
  new_line_server = λ proto addr. ok 0;
  get_udp_port = λ srv. ok 4711;
  start_server = λ srv s. s;
  kill = λ srv e s. s;
  local_ip = codes "127.0.0.1";
  parse_duration = λ text. ok (pos 3600);
  drain_lifetime = codes "1h";
}

store-IsStore : IsStore store
store-IsStore = record {
  added = λ n uri s m h. get-put s n m uri;
  not_added = λ n uri s m h. absurd (ground (arith, h));
  deleted = λ n s m h. get-delete s n m;
  not_deleted = λ n s m h. absurd (ground (arith, h));
  started = λ v s. refl;
  killed = λ v e s. refl;
}

-- A controller that knows one token.
abbrev controller : Controller
controller = record {
  endpoint = codes "api.stackato.example";
  get_logs_raw = λ url token space guid num.
      if token == codes "secret" then ok (codes "one" ∷ codes "two" ∷ []) else err (codes "denied");
}

abbrev request : Text → Request
request token = record { authorization = token; guid = codes "a1"; num = codes "2" }

abbrev two : Arguments
two = record { token = codes "secret"; guid = codes "a1"; num = pos 2 }

abbrev stranger : Arguments
stranger = record { token = codes "other"; guid = codes "a1"; num = pos 2 }

parsed : parse_arguments (request (codes "secret")) ≡ ok two
unfolding parse_arguments num_of atoi validate ◌==◌
parsed = refl

parsed_stranger : parse_arguments (request (codes "other")) ≡ ok stranger
unfolding parse_arguments num_of atoi validate ◌==◌
parsed_stranger = refl

shown_port : show_ℕ 4711 ≡ codes "4711"
unfolding show_ℕ
shown_port = refl

denied : recent_logs controller (codes "other") (codes "a1") (pos 2) ≡ err (codes "denied")
unfolding recent_logs ◌==◌
denied = refl

granted :
    recent_logs controller (codes "secret") (codes "a1") (pos 2)
    ≡ ok (codes "one" ∷ codes "two" ∷ [])
unfolding recent_logs ◌==◌
granted = refl

abbrev wakes : List Wake
wakes = line (codes "hello") ∷ second_passed ∷ line (codes "bye") ∷ channel_closed ∷ []

tail_handler_refused_example :
    (message : Text) × (tail_handler logged controller store (request (codes "other")) wakes [] []
      ≡ (fatalf logged message [], []))
tail_handler_refused_example =
    tail_handler_refused logged controller store (request (codes "other")) wakes [] []
      (no_access stranger (codes "denied") parsed_stranger denied)

other_name : (drain_name_of (codes "a1") == codes "mine") ≡ false
unfolding ◌==◌
other_name = refl

tail_handler_elsewhere_example :
    get
      (tail_handler logged controller store
        (request (codes "secret"))
        wakes
        []
        ((codes "mine", codes "uri") ∷ [])).1
      (codes "mine")
    ≡ get ((codes "mine", codes "uri") ∷ []) (codes "mine")
tail_handler_elsewhere_example =
    tail_handler_elsewhere logged controller store store-IsStore (request (codes "secret")) wakes []
      ((codes "mine", codes "uri") ∷ []) (codes "mine") other_name

forward-IsDelivered_example :
    (got : List Text) × ((forward logged wakes []).1 ≡ [] ++ map value_frame got)
    × IsDelivered (lines_of wakes) got (forward logged wakes []).0
forward-IsDelivered_example = forward-IsDelivered logged (λ c. c) logged-IsLogged wakes []

sent_without_error : (send_recent logged controller two []).0 ≡ none
unfolding send_recent send_lines send recent_logs ◌==◌
sent_without_error = refl

send_recent-sent_example :
    (send_recent logged controller two []).1
    ≡ [] ++ map value_frame (history two (codes "one" ∷ codes "two" ∷ []))
send_recent-sent_example =
    send_recent-sent logged controller (λ c. c) logged-IsLogged two (codes "one" ∷ codes "two" ∷ [])
      [] granted sent_without_error

abbrev drain : AppLogDrain ℕ
drain = record {
  app_guid = codes "a1";
  srv = 0;
  port = 4711;
  lifetime = pos 3600;
  drain_name = drain_name_of (codes "a1");
}

stop-start_example :
    get (stop store drain (codes "lost") (start store drain []).1) (codes "mine")
    ≡ (if drain_name_of (codes "a1") == codes "mine" then none else get [] (codes "mine"))
stop-start_example =
    stop-start store store-IsStore drain (codes "lost") [] (codes "mine") (λ n s. refl)

-- Two applications, and a drain of somebody else; the first session is lost, and the other's drain
-- stays.
abbrev sessions : List Moment
sessions = opens (codes "a1") ∷ opens (codes "b1") ∷ fails 0 (codes "lost") ∷ []

abbrev left_over : Dict Text
left_over = (codes "mine", codes "uri") ∷ (drain_name_of (codes "z9"), codes "old") ∷ []

one_runs :
    (serve store sessions left_over).store
    ≡ (codes "mine", codes "uri") ∷ (drain_name_of (codes "b1"), codes "udp://127.0.0.1:4711") ∷ []
unfolding serve steps step new_app_log_drain start add_drain stop remove_orphaned_drains has_prefix
    get put delete ◌==◌ show_ℕ
one_runs = refl

serve_lem_example :
    ((has_prefix (drain_name_of (codes "b1")) drain_prefix ≡ true)
      × (k : ℕ) × (has_drain
            (drain_name_of (codes "b1"))
            ((serve store sessions left_over).sessions k)
          ≡ true))
    ⊎ (get (serve store sessions left_over).store (drain_name_of (codes "b1")) ≡ (
        if has_prefix (drain_name_of (codes "b1")) drain_prefix
        then none
        else get left_over (drain_name_of (codes "b1"))))
serve_lem_example =
    serve_lem store store-IsStore (λ n s. refl) left_over sessions (drain_name_of (codes "b1"))

abbrev empty_config : EndpointConfig
empty_config = record { drain_lifetime = []; hostname = [] }

-- Over the mock, the package's own configuration is found, and one that was loaded is not, since
-- `LoadConfig` hands over a value where `GetConfig` asserts a pointer.
mocked :
    (get_config mock empty_config initial_config ≡ done empty_config)
    × ((load_endpoint_config mock empty_config >>= get_config mock empty_config)
        ≡ crash bad_assertion)
unfolding get_config load_endpoint_config
mocked = (refl, refl)
