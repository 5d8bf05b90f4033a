-- ===== src/Endpoint/Stream.antt =====
-- applog_endpoint/wsutil/stream.go: what is sent on a websocket. The connection is a parameter.
pub mod Delivery
use logyard_apps.Prelude.{◌≡◌, Option, none, some, List, [], ◌∷◌, ◌++◌}
use logyard_apps.Prelude.Text.{Text, codes}
use logyard_apps.Prelude.Run.{Error}

pub record WsStreamData : Type 0 where
  pub err : Text
  pub value : Text

-- `*websocket.Conn`, whose state is of type `C`.
pub record Websocket (C : Type 0) : Type 0 where
  pub write_json : WsStreamData → C → Option Error × C
  pub ping : C → Option Error × C  -- `WriteControl` with a ping
  pub close : C → C

-- One outcome of the `select` of `Forward`.
pub data Wake : Type 0 where
  line : Text → Wake
  channel_closed : Wake
  second_passed : Wake

-- How `Forward` ends; `waiting` where it still waits after the given outcomes.
pub data Forwarding : Type 0 where
  finished : Forwarding
  stream_error : Error → Forwarding
  waiting : Forwarding

abbrev pub value_frame : Text → WsStreamData
value_frame value = record { err = []; value = value }

abbrev pub error_frame : Text → WsStreamData
error_frame message = record { err = message; value = [] }

abbrev write_error : Error → Error
write_error e = codes "Closing websocket because of write error: " ++ e

abbrev ping_error : Error → Error
ping_error e = codes "Closing websocket because of ping error: " ++ e

module _ {C : Type 0} (ws : Websocket C) where
  unfoldable pub send : Text → C → Option Error × C
  send value c = ws.write_json (value_frame value) c

  -- An error of the write is only logged.
  unfoldable pub fatalf : Text → C → C
  fatalf message c = let (e, c') = ws.write_json (error_frame message) c in ws.close c'

  unfoldable pub forward : List Wake → C → Forwarding × C
  forward [] c = (waiting, c)
  forward (line text ∷ rest) c =
      let (e, c') = send text c in
      elim e [ none ↦ forward rest c' | some x ↦ (stream_error (write_error x), c') ]
  forward (channel_closed ∷ rest) c = (finished, c)
  forward (second_passed ∷ rest) c =
      let (e, c') = ws.ping c in
      elim e [ none ↦ forward rest c' | some x ↦ (stream_error (ping_error x), c') ]
