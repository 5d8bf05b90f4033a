-- ===== src/Systail/Events.antt =====
-- The way of a line of a system log to an event: systail publishes its record, and logyard_sieve
-- parses the record.
use logyard_apps.Prelude.{Bool, ◌≡◌, true, ◌&&◌, [], ◌∷◌, ◌++◌, arith}
use logyard_apps.Prelude.Text.{Text, codes}
use logyard_apps.Prelude.Int.{is_int64}
use logyard_apps.Prelude.Run.{Result, ok, done}
use logyard_apps.Common.{new_message_common}
use logyard_apps.Sieve.Engines.{Engines}
use logyard_apps.Sieve.Event.{Event, Published}
use logyard_apps.Sieve.Parser.{Parser, found, parse}
use logyard_apps.Sieve.Service.{Message, on_message, on_message-found}
use logyard_apps.Instances.Line.{TailLine}
use logyard_apps.Systail.{Encoder, record_of, record_key, valid_text, publish_lines}

-- All texts of a record are valid UTF-8, and its time is a 64-bit integer.
abbrev pub is_valid_record : (Text → Bool) → Message → Bool
is_valid_record valid m =
    valid m.name
    && valid m.common.text
    && valid m.common.node_id
    && valid m.common.human_time
    && valid m.common.syslog.priority
    && valid m.common.syslog.time
    && is_int64 m.common.unix_time

-- Documented behaviour of encoding/json: a record whose strings are all valid UTF-8 is decoded as it
-- was.
abbrev pub KeepsRecords : {Time : Type 0} → Encoder Time → (Text → Result Message) → Type 0
KeepsRecords enc unmarshal =
    (m : Message) (bytes : Text)
    → is_valid_record enc.valid_string m ≡ true
    → enc.marshal m ≡ ok bytes
    → unmarshal bytes ≡ ok m

module _ {Re Tm Info Time : Type 0} (e : Engines Re Tm Info) (enc : Encoder Time)
    (unmarshal : Text → Result Message) (marshal : Event Info → Result Text) (parser : Parser Re Tm)
    (name node_id : Text) where
  -- The event of a line, with the time of the line and the node.
  abbrev pub event_of_line : TailLine Time → Event Info → Event Info
  event_of_line line event = record event {
    common =
        new_message_common enc.clock event.desc (enc.clock.from_unix (enc.clock.unix line.time))
          node_id;
  }

  -- A line of a system log in which `Parse` finds an event for the log's name becomes that event, if
  -- the line and all strings of its record are valid UTF-8 and its time is a 64-bit integer: what systail publishes for the line makes
  -- logyard_sieve publish the event under its type, with the line's time and node, where JSON keeps
  -- such records and the event can be encoded.
  pub line_to_event :
      KeepsRecords enc unmarshal
      → (line : TailLine Time) (event : Event Info) (bytes text : Text) (out out' : Published)
      → enc.valid_string line.text ≡ true
      → is_valid_record enc.valid_string (record_of enc name node_id line) ≡ true
      → enc.marshal (record_of enc name node_id line) ≡ ok bytes
      → parse e parser name line.text ≡ done (found event)
      → marshal (event_of_line line event) ≡ ok text
      → ((publish_lines enc name node_id (line ∷ []) out).1
          ≡ (record_key enc name node_id, bytes) ∷ out)
        × (on_message e enc.clock unmarshal marshal parser bytes out'
            ≡ done ((codes "event." ++ event.type, text) ∷ out'))
  unfolding publish_lines new_message_common
  line_to_event law line event bytes text out out' plain valid encoded parsed sent =
      let same : valid_text enc name node_id line.text ≡ line.text = ground (arith, plain) in
      let decoded = law (record_of enc name node_id line) bytes valid encoded in
      (
        ground (arith, encoded),
        on_message-found e enc.clock unmarshal marshal parser bytes
            (record_of enc name node_id line) event text out' decoded (rw same parsed) sent,
      )
