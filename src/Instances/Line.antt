-- ===== src/Instances/Line.antt =====
-- apptail/instance.go, `publishLineAs`, and message/message.go: how a line is published. Package time,
-- the JSON encoder, the repair of text that is not UTF-8, and the names of the node and of the brand
-- are parameters.
pub mod Encoding
use logyard_apps.Prelude.{
  ℕ, ◌≡◌, Bool, true, false, Option, none, some, List, [], ◌∷◌, ◌++◌, if◌then◌else◌,
}
use logyard_apps.Prelude.Int.{ℤ}
use logyard_apps.Prelude.Text.{Text, codes}
use logyard_apps.Prelude.Run.{Error, Result, ok, err, Run, done, crash, fatal, ◌>>=◌}
use logyard_apps.Common.{Clock, MessageCommon, new_message_common}
use logyard_apps.Sieve.Event.{Published}
use logyard_apps.Instances.Files.{Instance}

pub record Message : Type 0 where
  pub log_filename : Text
  pub source : Text
  pub instance_index : ℤ
  pub app_guid : Text
  pub app_name : Text
  pub app_space : Text
  pub common : MessageCommon

-- A line of package tail, which sends no nil line.
pub record TailLine (Time : Type 0) : Type 0 where
  pub text : Text
  pub time : Time
  pub err : Option Error

pub record Node (Time : Type 0) : Type 0 where
  pub clock : Clock Time
  pub marshal : Message → Result Text
  pub valid_string : Text → Bool
  pub to_valid : Text → Text  -- string([]rune(s))
  pub node_id : Text
  pub brand_name : Text

module _ {Time : Type 0} (node : Node Time) where
  abbrev pub with_valid_text : Message → Message
  with_valid_text msg =
      if node.valid_string msg.common.text
      then msg
      else record msg { common = record msg.common { text = node.to_valid msg.common.text } }

  -- Also what could not be encoded is published, as an empty text, where it is allowed. The error
  -- only stops the process; its format has no verb for the encoder's error, which is appended here.
  publish_data : Message → Bool → Result Text → Published → Option Error × Published
  publish_data msg allow_invalid (ok bytes) out =
      (none, (codes "apptail." ++ msg.app_guid, bytes) ∷ out)
  publish_data msg true (err e) out = (none, (codes "apptail." ++ msg.app_guid, []) ∷ out)
  publish_data msg false (err e) out =
      (some (codes "Failed to encode app log record to JSON: " ++ e), out)

  unfoldable pub publish : Message → Bool → Published → Option Error × Published
  unfolding publish_data
  publish msg allow_invalid out =
      publish_data msg allow_invalid (node.marshal (with_valid_text msg)) out

  abbrev pub message_of : Instance → Text → Text → TailLine Time → Message
  message_of i source logname line = record {
    log_filename = logname;
    source = source;
    instance_index = i.index;
    app_guid = i.app_guid;
    app_name = i.app_name;
    app_space = i.app_space;
    common = new_message_common node.clock line.text line.time node.node_id;
  }

  -- A line that carries an error comes from tail and not from the application.
  abbrev pub marked : Option Error → Message → Message
  marked none msg = msg
  marked (some e) msg = record msg {
    source = node.brand_name ++ codes "[apptail]";
    log_filename = [];
  }

  abbrev pub fatal_if : Option Error × Published → Run Published
  fatal_if (none, out) = done out
  fatal_if (some e, out) = crash fatal

  unfoldable pub publish_line_as :
      Instance → Text → Text → TailLine Time → Published → Run Published
  publish_line_as i source logname line out =
      fatal_if (publish (marked line.err (message_of i source logname line)) false out)

  unfoldable pub publish_line : Instance → Text → TailLine Time → Published → Run Published
  publish_line i logname line out = publish_line_as i i.type logname line out
