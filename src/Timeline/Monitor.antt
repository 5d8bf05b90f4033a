-- ===== src/Timeline/Monitor.antt =====
-- apptail/event/monitor.go: timeline events become lines in the log of their application.
pub mod RoundTrip
use logyard_apps.Prelude.{◌≡◌, List, [], ◌∷◌, ◌++◌, true, if◌then◌else◌}
use logyard_apps.Prelude.Text.{Text, codes}
use logyard_apps.Prelude.Int.{ℤ, negsuc, ltb_ℤ}
use logyard_apps.Prelude.Decimal.{show_ℤ}
use logyard_apps.Prelude.Run.{or_fatal, Result, ok, err, Run, done, crash, fatal, ◌>>=◌}
use logyard_apps.Common.{new_message_common}
use logyard_apps.Sieve.Event.{Event, Published}
use logyard_apps.Instances.Line.{Node, Message, publish, fatal_if}
use logyard_apps.Timeline.{TimelineEvent, Json}

-- The name of the index is there for the events of instances; others have the index -1.
abbrev pub source_of : Text → Text → ℤ → Text
source_of brand_name process instance_index =
    if ltb_ℤ (negsuc 0) instance_index
    then brand_name ++ codes "[" ++ process ++ codes "." ++ show_ℤ instance_index ++ codes "]"
    else brand_name ++ codes "[" ++ process ++ codes "]"

module _ {Info Time : Type 0} (json : Json Info) (node : Node Time) where
  abbrev pub app_log : TimelineEvent → Text → Event Info → Message
  app_log t source event = record {
    log_filename = [];
    source = source;
    instance_index = t.instance_index;
    app_guid = t.app.guid;
    app_name = t.app.name;
    app_space = t.app.space;
    common =
        new_message_common node.clock event.desc (node.clock.from_unix event.common.unix_time)
          node.node_id;
  }

  unfoldable pub publish_app_log : TimelineEvent → Text → Event Info → Published → Run Published
  publish_app_log t source event out =
      fatal_if node (publish node (app_log t source event) true out)

  -- One round of the loop, for the value of one message of the subscription.
  unfoldable pub on_event : Text → Published → Run Published
  on_event value out = do
    event ← or_fatal (json.unmarshal_event value)
    bytes ← or_fatal (json.marshal_info event.info)
    t ← or_fatal (json.unmarshal_timeline bytes)
    publish_app_log t (source_of node.brand_name event.process t.instance_index) event out

  unfoldable pub monitor_cloud_events : List Text → Published → Run Published
  monitor_cloud_events [] out = done out
  monitor_cloud_events (value ∷ rest) out = do
    out' ← on_event value out
    monitor_cloud_events rest out'
