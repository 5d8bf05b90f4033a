-- ===== src/Systail.antt =====
-- systail/cmd/systail/main.go: the log files of the node's components are tailed, and each line is
-- published. Packages tail and encoding/json, the repair of text and the node's address are
-- parameters; a line of package tail has a text and a time.
pub mod Lines
pub mod Events
use logyard_apps.Prelude.{
  ℕ, ◌≡◌, Bool, Option, none, some, List, [], ◌∷◌, ◌++◌, ltb, length, if◌then◌else◌,
}
use logyard_apps.Prelude.Text.{Text, codes, ◌==◌}
use logyard_apps.Prelude.Dict.{Dict}
use logyard_apps.Prelude.Run.{or_fatal, Error, Result, ok, err, Run, done, crash, fatal, ◌>>=◌}
use logyard_apps.Common.{Clock, new_message_common}
use logyard_apps.Sieve.Event.{Published}
use logyard_apps.Sieve.Service.{Message}
use logyard_apps.Instances.Line.{TailLine}

pub record Encoder (Time : Type 0) : Type 0 where
  pub clock : Clock Time
  pub marshal : Message → Result Text
  pub valid_string : Text → Bool
  pub to_valid : Text → Text  -- string([]rune(s))

unfoldable pub path_of : Text → Text → Text
path_of name filepath =
    if filepath == [] then codes "/s/logs/" ++ name ++ codes ".log" else filepath

module _ {Time : Type 0} (enc : Encoder Time) (name node_id : Text) where
  abbrev pub valid_text : Text → Text
  valid_text text = if enc.valid_string text then text else enc.to_valid text

  abbrev pub record_of : TailLine Time → Message
  record_of line = record {
    name = name;
    common = new_message_common enc.clock (valid_text line.text) line.time node_id;
  }

  abbrev pub record_key : Text
  record_key = codes "systail." ++ name ++ codes "." ++ node_id

  -- The loop over the lines of a file: why the tail was killed, if it was, and what is published.
  unfoldable pub publish_lines : List (TailLine Time) → Published → Option Error × Published
  publish_lines [] out = (none, out)
  publish_lines (line ∷ rest) out = elim (enc.marshal (record_of line)) [
    | err e ↦ (some (codes "Failed to encode to JSON: " ++ e), out)
    | ok bytes ↦ publish_lines rest ((record_key, bytes) ∷ out)
  ]

-- `tailLogFile`, for what `tail.TailFile` answers for a path: the file whose lines are read.
unfoldable pub tail_log_file : (Text → Option Error) → Text → Text → Result Text
tail_log_file open_tail name filepath = elim (open_tail (path_of name filepath)) [
  | none ↦ ok (path_of name filepath)
  | some e ↦ err e
]

-- The loop of `main` over the configured files.
tail_each : (Text → Option Error) → Dict Text → Run (Dict Text)
tail_each open_tail [] = done []
tail_each open_tail ((name, logfile) ∷ rest) = do
  path ← or_fatal (tail_log_file open_tail name logfile)
  more ← tail_each open_tail rest
  done ((name, path) ∷ more)

with_address : Result Text → (Text → Option Error) → Dict Text → Run (Text × Dict Text)
unfolding tail_each
with_address (err e) open_tail log_files = crash fatal
with_address (ok node_id) open_tail log_files =
    if ltb 0 (length log_files)
    then tail_each open_tail log_files >>= (λ tailers. done (node_id, tailers))
    else crash fatal

-- `main` up to its waiting for the tailers: the node and the path of each file that is tailed.
unfoldable pub start_tailers :
    Result Text → (Text → Option Error) → Dict Text → Run (Text × Dict Text)
unfolding with_address
start_tailers local_ip open_tail log_files = with_address local_ip open_tail log_files
