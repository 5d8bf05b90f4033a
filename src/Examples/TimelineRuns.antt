-- ===== src/Examples/TimelineRuns.antt =====
-- A publishing channel step by step, and a timeline event on its way to the application's log.
use logyard_apps.Prelude.{List, false, refl, true, false, [], ◌∷◌, ◌++◌}
use logyard_apps.Prelude.Text.{Text, codes}
use logyard_apps.Prelude.Int.{ℤ, pos}
use logyard_apps.Prelude.Run.{ok}
use logyard_apps.Instances.Files.{Instance}
use logyard_apps.Instances.Line.{Node}
use logyard_apps.Timeline.Channel.{
  PubChannel, ranging, send, delay_over, receive, Reach, here, next, new_channel,
}
use logyard_apps.Timeline.Channel.Reached.{IsServed, sends, sends_lem}

abbrev served : PubChannel Text
served = record new_channel {
  phase = ranging;
  published = (codes "event.timeline", codes "WARN") ∷ [];
}

abbrev waiting : PubChannel Text
waiting = record new_channel { senders = codes "WARN" ∷ [] }

one_served : Reach ok (codes "event.timeline") new_channel served
one_served =
    next {t = record waiting { phase = ranging }}
      (next {t = waiting} (next here (send (codes "WARN") refl)) (delay_over refl refl))
      (receive [] [] (codes "WARN") (codes "WARN") refl refl refl refl)

sends_lem_example :
    (got : List Text) × (bad : List Text) × IsServed ok
      (codes "event.timeline")
      (sends ok (codes "event.timeline") one_served)
      served
      got
      bad
sends_lem_example = sends_lem ok (codes "event.timeline") one_served

-- Maps that hold the timeline event itself, and an encoding that keeps one event.
abbrev app : Instance
app = record {
  app_guid = codes "a1";
  app_name = codes "shop";
  app_space = codes "prod";
  type = codes "app";
  index = pos 2;
  docker_id = codes "0123456789abcdef";
  root_path = codes "/r";
  log_files = [];
  docker_streams = false;
}

abbrev node : Node ℤ
node = record {
  clock = record { unix = λ t. t; from_unix = λ t. t; format = λ t layout. layout };
  marshal = λ msg. ok (msg.source ++ msg.common.text);
  valid_string = λ s. true;
  to_valid = λ s. s;
  node_id = codes "n1";
  brand_name = codes "stackato";
}
