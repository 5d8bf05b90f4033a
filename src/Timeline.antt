-- ===== src/Timeline.antt =====
-- apptail/event/timeline.go, and `SendTimelineEvent` of apptail/instance.go: what instances tell their
-- users besides the lines of their logs.
pub mod Channel
pub mod Monitor
use logyard_apps.Prelude.{[]}
use logyard_apps.Prelude.Text.{Text, codes}
use logyard_apps.Prelude.Int.{ℤ}
use logyard_apps.Prelude.Run.{Result}
use logyard_apps.Common.{Clock, new_message_common}
use logyard_apps.Sieve.Event.{Event}
use logyard_apps.Instances.Files.{Instance}

pub record App : Type 0 where
  pub guid : Text
  pub space : Text
  pub name : Text

pub record TimelineEvent : Type 0 where
  pub app : App
  pub instance_index : ℤ

-- Package encoding/json for events, over the type of `map[string]interface{}`. `info_of` is the map
-- of the entries `app` and `instance_index`.
pub record Json (Info : Type 0) : Type 0 where
  pub info_of : App → ℤ → Info
  pub marshal_event : Event Info → Result Text
  pub unmarshal_event : Text → Result (Event Info)
  pub marshal_info : Info → Result Text
  pub unmarshal_timeline : Text → Result TimelineEvent

-- The event that `SendTimelineEvent` sends, for the formatted line, the time and the node.
unfoldable pub timeline_event :
    {Info Time : Type 0} → Json Info → Clock Time → Time → Text → Instance → Text → Event Info
timeline_event json clock now node_id i line = record {
  type = codes "timeline";
  desc = line;
  severity = codes "INFO";
  info =
      json.info_of (record { guid = i.app_guid; space = i.app_space; name = i.app_name }) i.index;
  process = codes "apptail";
  common = new_message_common clock line now node_id;
}
