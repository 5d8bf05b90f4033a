-- ===== src/Endpoint/Server.antt =====
-- applog_endpoint/server.go, app.go and wsutil/handler.go: the handlers of the two routes. The cloud
-- controller's log service and the websocket upgrade are parameters; what is only logged is left out.
pub mod Access
pub mod History
use logyard_apps.Prelude.{
  ◌≡◌, Bool, true, false, not, Option, none, some, List, [], ◌∷◌, ◌++◌, if◌then◌else◌,
}
use logyard_apps.Prelude.Text.{Text, codes}
use logyard_apps.Prelude.Int.{ℤ, pos, ltb_ℤ}
use logyard_apps.Prelude.Run.{Error, Result, ok, err}
use logyard_apps.Endpoint.Arguments.{Arguments, Request, parse_arguments}
use logyard_apps.Endpoint.Stream.{
  Websocket, Wake, line, channel_closed, second_passed, Forwarding, finished, stream_error, waiting,
  send, fatalf, forward,
}
use logyard_apps.Endpoint.Drain.{Logyard, AppLogDrain, new_app_log_drain, start, stop}

-- The cluster's endpoint, and `GetLogsRaw` of a client for a URL, a token and a space.
pub record Controller : Type 0 where
  pub endpoint : Text
  pub get_logs_raw : Text → Text → Text → Text → ℤ → Result (List Text)

unfoldable pub recent_logs : Controller → Text → Text → ℤ → Result (List Text)
recent_logs cc token app_guid num =
    cc.get_logs_raw (codes "https://" ++ cc.endpoint) token [] app_guid num

-- What comes out of a nil channel.
unfoldable pub from_nil : List Wake → List Wake
from_nil [] = []
from_nil (second_passed ∷ rest) = second_passed ∷ from_nil rest
from_nil (_ ∷ rest) = from_nil rest

module _ {C : Type 0} (ws : Websocket C) (cc : Controller) where
  -- The loop over the recent lines, which ends at the first error.
  unfoldable pub send_lines : List Text → C → Option Error × C
  send_lines [] c = (none, c)
  send_lines (text ∷ rest) c =
      let (e, c') = send ws text c in elim e [ none ↦ send_lines rest c' | some x ↦ (some x, c') ]

  send_logs : Result (List Text) → C → Option Error × C
  send_logs (err e) c = (some e, c)
  send_logs (ok lines) c = send_lines lines c

  authorize : Result (List Text) → C → Option Error × C
  authorize (err e) c = (some e, c)
  authorize (ok lines) c = (none, c)

  unfoldable pub send_recent : Arguments → C → Option Error × C
  unfolding send_logs authorize
  send_recent args c =
      if not (ltb_ℤ (pos 0) args.num)
      then authorize (recent_logs cc args.token args.guid (pos 1)) c
      else send_logs (recent_logs cc args.token args.guid args.num) c

  recent_end : Option Error × C → C
  recent_end (none, c) = c
  recent_end (some e, c) = fatalf ws e c

  recent_with : Result Arguments → C → C
  unfolding recent_end
  recent_with (err e) c = fatalf ws (codes "Invalid arguments; " ++ e) c
  recent_with (ok args) c = recent_end (send_recent args c)

  unfoldable pub recent_handler : Request → C → C
  unfolding recent_with
  recent_handler r c = recent_with (parse_arguments r) c

  module _ {S V : Type 0} (ly : Logyard S V) where
    after_forward : AppLogDrain V → Forwarding × C → S → C × S
    after_forward d (finished, c) s = (c, s)
    after_forward d (waiting, c) s = (c, s)
    after_forward d (stream_error e, c) s = (c, stop ly d e s)

    -- Where the drain cannot be started the handler goes on, with a nil channel.
    after_start : AppLogDrain V → List Wake → Option Error × S → C → C × S
    unfolding after_forward from_nil
    after_start d wakes (none, s) c = after_forward d (forward ws wakes c) s
    after_start d wakes (some e, s) c =
        after_forward d
          (forward ws (from_nil wakes) (fatalf ws (codes "Unable to start drain: " ++ e) c)) s

    with_drain : Result (AppLogDrain V) → List Wake → C → S → C × S
    unfolding after_start
    with_drain (err e) wakes c s = (fatalf ws (codes "Unable to create drain: " ++ e) c, s)
    with_drain (ok d) wakes c s = after_start d wakes (start ly d s) c

    after_recent : Text → List Wake → Option Error × C → S → C × S
    unfolding with_drain
    after_recent guid wakes (some e, c) s = (fatalf ws e c, s)
    after_recent guid wakes (none, c) s = with_drain (new_app_log_drain ly guid) wakes c s

    tail_with : Result Arguments → List Wake → C → S → C × S
    unfolding after_recent
    tail_with (err e) wakes c s = (fatalf ws (codes "Invalid arguments; " ++ e) c, s)
    tail_with (ok args) wakes c s = after_recent args.guid wakes (send_recent args c) s

    -- `tailHandlerWs`, for what `Forward` meets; the line server's end is only waited for.
    -- That the drain's lifetime is over is a moment of Endpoint/Sessions; here the channel closes.
    unfoldable pub tail_handler : Request → List Wake → C → S → C × S
    unfolding tail_with
    tail_handler r wakes c s = tail_with (parse_arguments r) wakes c s

-- `ServeHTTP`: the upgraded connection is handed to the handler and closed, or the reply is an error
-- 500. A failed upgrade is a handshake error or another one.
pub data Upgrade (C : Type 0) : Type 0 where
  upgraded : C → Upgrade C
  handshake_error : Error → Upgrade C
  other_error : Error → Upgrade C

pub data Reply (C : Type 0) : Type 0 where
  served : C → Reply C
  http_error : Text → Reply C

unfoldable pub serve_http : {C : Type 0} → Websocket C → (C → C) → Upgrade C → Reply C
serve_http ws handler (upgraded c) = served (ws.close (handler c))
serve_http ws handler (handshake_error e) = http_error (codes "Unknown websocket error: " ++ e)
serve_http ws handler (other_error e) = http_error (codes "Handshake error: " ++ e)
