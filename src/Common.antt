-- ===== src/Common.antt =====
-- common/messagecommon.go and common/syslogmessage.go: the fields of every message. Package `time`
-- is a parameter: the model neither formats nor splits a time.
use logyard_apps.Prelude.{[]}
use logyard_apps.Prelude.Text.{Text, codes}
use logyard_apps.Prelude.Int.{ℤ, pos}

-- What the program uses of `time.Time`.
pub record Clock (Time : Type 0) : Type 0 where
  pub unix : Time → ℤ
  pub from_unix : ℤ → Time
  pub format : Time → Text → Text

pub record SyslogMessage : Type 0 where
  pub priority : Text
  pub time : Text

pub record MessageCommon : Type 0 where
  pub text : Text
  pub node_id : Text
  pub unix_time : ℤ
  pub human_time : Text
  pub syslog : SyslogMessage

abbrev pub zero_common : MessageCommon
zero_common = record {
  text = [];
  node_id = [];
  unix_time = pos 0;
  human_time = [];
  syslog = record { priority = []; time = [] };
}

abbrev pub default_syslog_priority : Text
default_syslog_priority = codes "13"

-- The layouts of `toHerokuTime` and of `time.Stamp`.
abbrev pub heroku_layout : Text
heroku_layout = codes "2006-01-02T15:04:05-07:00"

abbrev pub stamp_layout : Text
stamp_layout = codes "Jan _2 15:04:05"

module _ {Time : Type 0} (clock : Clock Time) where
  to_heroku_time : Time → Text
  to_heroku_time t = clock.format t heroku_layout

  new_syslog_message : Text → Time → SyslogMessage
  new_syslog_message pri t = record { priority = pri; time = clock.format t stamp_layout }

  unfoldable pub new_message_common : Text → Time → Text → MessageCommon
  unfolding to_heroku_time new_syslog_message
  new_message_common text t node = record {
    text = text;
    node_id = node;
    unix_time = clock.unix t;
    human_time = to_heroku_time t;
    syslog = new_syslog_message default_syslog_priority t;
  }
