-- ===== src/Timeline/Monitor/RoundTrip.antt =====
-- A timeline event of an instance reaches the log of its application.
use logyard_apps.Prelude.{◌^◌, ◌≡◌, Bool, true, ◌&&◌, []}
use logyard_apps.Prelude.Text.{Text, codes}
use logyard_apps.Prelude.Int.{is_within, is_int64, ℤ}
use logyard_apps.Prelude.Run.{ok}
use logyard_apps.Common.{new_message_common}
use logyard_apps.Sieve.Event.{Event}
use logyard_apps.Instances.Files.{Instance}
use logyard_apps.Instances.Line.{Node, Message}
use logyard_apps.Timeline.{App, Json}
use logyard_apps.Timeline.Monitor.{source_of}

abbrev pub is_valid_app : (Text → Bool) → App → Bool
is_valid_app valid app = valid app.guid && valid app.space && valid app.name

-- What is decoded of an encoded timeline event: its text, process and time, and the application and
-- the index of its map.
pub record Survives {Info : Type 0} (json : Json Info) (event : Event Info) (app : App) (index : ℤ)
    : Type 0 where
  pub text : Text
  pub encoded : json.marshal_event event ≡ ok text
  pub back : Event Info
  pub decoded : json.unmarshal_event text ≡ ok back
  pub desc : back.desc ≡ event.desc
  pub process : back.process ≡ event.process
  pub unix_time : back.common.unix_time ≡ event.common.unix_time
  pub bytes : Text
  pub info_encoded : json.marshal_info back.info ≡ ok bytes
  pub info_decoded :
      json.unmarshal_timeline bytes ≡ ok (record { app = app; instance_index = index })

-- Documented behaviour of encoding/json: strings that are valid UTF-8 survive, a 64-bit time too, and
-- so does an integer in a map of interfaces where a float64 holds it exactly, up to 2 ^ 53.
pub record KeepsTimeline {Info : Type 0} (json : Json Info) (valid : Text → Bool) : Type 0 where
  pub keeps :
      (event : Event Info) (app : App) (index : ℤ)
      → event.info ≡ json.info_of app index
      → (valid event.desc && valid event.process && is_valid_app valid app) ≡ true
      → is_int64 event.common.unix_time ≡ true
      → is_within (2 ^ 53) index ≡ true
      → Survives json event app index

module _ {Info Time : Type 0} (json : Json Info) (node : Node Time) where
  abbrev pub app_of : Instance → App
  app_of i = record { guid = i.app_guid; space = i.app_space; name = i.app_name }

  -- What the monitor makes of the event that an instance sent.
  abbrev pub logged_line : ℤ → Instance → Text → Message
  logged_line unix_time i line = record {
    log_filename = [];
    source = source_of node.brand_name (codes "apptail") i.index;
    instance_index = i.index;
    app_guid = i.app_guid;
    app_name = i.app_name;
    app_space = i.app_space;
    common = new_message_common node.clock line (node.clock.from_unix unix_time) node.node_id;
  }
