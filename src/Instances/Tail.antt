-- ===== src/Instances/Tail.antt =====
-- apptail/instance.go, `tailFile` and `readFromTail`: where a file is read from, and what happens to
-- its lines. Package tail is a parameter by what its channel gives.
pub mod Resumed
pub mod Publishing
use logyard_apps.Prelude.{
  ℕ, ◌≡◌, Bool, true, false, Option, none, some, List, [], ◌∷◌, ◌++◌, ltb, length, take,
  if◌then◌else◌,
}
use logyard_apps.Prelude.Text.{Text, codes}
use logyard_apps.Prelude.Int.{ℤ, pos, neg}
use logyard_apps.Prelude.Run.{Error, Result, ok, err, Run, done, crash, out_of_range, ◌>>=◌}
use logyard_apps.Tracker.{
  Tracker, is_child_node_initialized, get_file_cached_offset, initialize_child_node, update,
}
use logyard_apps.DockerEvents.{short_id}
use logyard_apps.Prelude.Decimal.{show_ℤ}
use logyard_apps.Sieve.Event.{Published}
use logyard_apps.Instances.Limit.{Notice, warning}
use logyard_apps.Instances.Files.{Instance}
use logyard_apps.Instances.Line.{Node, TailLine, publish_line}

abbrev pub id_length : ℕ
id_length = 12

abbrev pub initial_offset : ℤ
initial_offset = pos 0

unfoldable pub get_short_docker_id : Text → Run Text
get_short_docker_id docker_id =
    if ltb (length docker_id) id_length then crash out_of_range else done (take id_length docker_id)

-- `Identifier`, by which an instance is logged.
unfoldable pub identifier : Instance → Run Text
identifier i = do
  id ← short_id i.docker_id
  done (i.app_name ++ codes "[" ++ show_ℤ i.index ++ codes ":" ++ id ++ codes "]")

pub data Whence : Type 0 where
  seek_set seek_end : Whence

-- tail.SeekInfo
pub record SeekInfo : Type 0 where
  pub offset : ℤ
  pub whence : Whence

-- Where to start, and whether the file is to be initialized in the tracker.
pub record Start : Type 0 where
  pub location : SeekInfo
  pub should_initialize : Bool

abbrev pub from_cached : ℤ → Result Start × List Notice
from_cached offset = (
  ok (record {
    location = record { offset = offset; whence = seek_set };
    should_initialize = false;
  }),
  [],
)

abbrev pub from_limit : Result ℤ × List Notice → Result Start × List Notice
from_limit (err e, notices) = (err e, notices ++ warning e ∷ [])
from_limit (ok limit, notices) = (
  ok (record {
    location = record { offset = neg limit; whence = seek_end };
    should_initialize = true;
  }),
  notices,
)

-- One outcome of the `select` of `readFromTail`: a line with what `Tell` then returns, whose error is
-- only logged; the end of the lines; or the stop of the instance.
pub data Feed (Time : Type 0) : Type 0 where
  line_read : TailLine Time → ℤ → Feed Time
  lines_closed : Feed Time
  stopped : Feed Time

module _ {M : Type 0} where
  -- `tailFile` up to its error test; `limit` is what `getReadLimit` gives for the file.
  unfoldable pub start_of :
      Tracker M → Text → Text → Run (Result ℤ × List Notice) → Run (Result Start × List Notice)
  start_of tracker id filename limit =
      if is_child_node_initialized tracker id filename
      then get_file_cached_offset tracker id filename >>= (λ offset. done (from_cached offset))
      else limit >>= (λ l. done (from_limit l))

  -- The registration after the tail was opened, whether or not that failed.
  unfoldable pub register_start : Start → Text → Text → Tracker M → Tracker M
  register_start start id filename tracker =
      if start.should_initialize
      then initialize_child_node id filename initial_offset tracker
      else tracker

  module _ {Time : Type 0} (node : Node Time) (i : Instance) (id name filename : Text) where
    unfoldable pub read_from_tail :
        List (Feed Time) → Tracker M → Published → Run (Tracker M × Published)
    read_from_tail [] tracker out = done (tracker, out)
    read_from_tail (lines_closed ∷ rest) tracker out = done (tracker, out)
    read_from_tail (stopped ∷ rest) tracker out = done (tracker, out)
    read_from_tail (line_read line offset ∷ rest) tracker out = do
      let tracker' = update id filename offset tracker
      out' ← publish_line node i name line out
      read_from_tail rest tracker' out'
