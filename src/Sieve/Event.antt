-- ===== src/Sieve/Event.antt =====
-- sieve/event.go
use logyard_apps.Prelude.{List, [], ◌∷◌, ◌++◌}
use logyard_apps.Prelude.Text.{Text, codes}
use logyard_apps.Prelude.Run.{Result, ok, err, Run, done, crash, fatal}
use logyard_apps.Common.{MessageCommon}

pub record Event (Info : Type 0) : Type 0 where
  pub type : Text
  pub desc : Text
  pub severity : Text
  pub info : Info
  pub process : Text
  pub common : MessageCommon

-- A publisher, by the messages (key and value) that were published, the last first.
abbrev pub Published : Type 0
Published = List (Text × Text)

-- The log of what was published, with texts published under one key, the oldest first.
abbrev pub push : Text → List Text → Published → Published
push key [] out = out
push key (text ∷ rest) out = push key rest ((key, text) ∷ out)

module _ {Info : Type 0} (marshal : Event Info → Result Text) where
  publish_data : Text → Result Text → Published → Run Published
  publish_data type (err e) out = crash fatal
  publish_data type (ok text) out = done ((codes "event." ++ type, text) ∷ out)

  unfoldable pub must_publish : Event Info → Published → Run Published
  unfolding publish_data
  must_publish event out = publish_data event.type (marshal event) out
