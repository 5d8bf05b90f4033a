-- ===== src/Instances/Tailers.antt =====
-- apptail/instance.go, `Tail`, `tailFile` and `tailStream`: the goroutines that follow the logs of an
-- instance. Each is a run over what package tail, the HTTP client and the file system answer; the
-- operations of the tracker are atomic, and a goroutine is read as if alone between them.
pub mod Restarted
pub mod Removed
pub mod Streams
use logyard_apps.Prelude.{
  ℕ, ◌≡◌, Bool, true, false, ◌||◌, ◌&&◌, not, Option, none, some, List, [], ◌∷◌, ◌++◌, map, ltb,
  leb, if◌then◌else◌,
}
use logyard_apps.Prelude.Text.{Text, codes, ◌==◌}
use logyard_apps.Prelude.Int.{ℤ, neg}
use logyard_apps.Prelude.Dict.{Dict}
use logyard_apps.Prelude.Run.{Error, Result, ok, err, Run, done, crash, ◌>>=◌}
use logyard_apps.Storage.{Storage}
use logyard_apps.Tracker.{Tracker, register_instance, remove}
use logyard_apps.Sieve.Event.{Published}
use logyard_apps.Instances.Limit.{Notice, warning, cannot_tail, tail_error}
use logyard_apps.Instances.Files.{Instance, Paths, get_log_files}
use logyard_apps.Instances.Line.{Node}
use logyard_apps.Instances.Tail.{
  SeekInfo, seek_end, identifier, Start, Feed, get_short_docker_id, start_of, register_start,
  read_from_tail,
}

-- What a tailer leaves: the tracker, what is published, and what the instance tells its user.
pub record Left (M : Type 0) : Type 0 where
  pub tracker : Tracker M
  pub published : Published
  pub notices : List Notice

-- What package tail does with a file: it refuses to open it; or it gives lines, and ends with an
-- error or without one.
pub data Tailed (Time : Type 0) : Type 0 where
  refused : Error → Tailed Time
  opened : List (Feed Time) → Option Error → Tailed Time

abbrev ending : Text → Option Error → List Notice
ending name none = []
ending name (some e) = tail_error name e ∷ []

module _ {M Time : Type 0} (node : Node Time) (i : Instance) (id name filename : Text) where
  unfoldable pub read_tailed : Tailed Time → Tracker M → Published → List Notice → Run (Left M)
  read_tailed (refused e) tracker out notices =
      done (record {
        tracker = tracker;
        published = out;
        notices = notices ++ cannot_tail name e ∷ [];
      })
  read_tailed (opened feed end) tracker out notices =
      read_from_tail node i id name filename feed tracker out >>= (λ (tracker', out').
        done
          (record { tracker = tracker'; published = out'; notices = notices ++ ending name end }))

  unfoldable pub tail_from :
      Result Start × List Notice → Tailed Time → Tracker M → Published → Run (Left M)
  unfolding read_tailed
  tail_from (err e, notices) tailed tracker out =
      done (record { tracker = tracker; published = out; notices = notices })
  tail_from (ok start, notices) tailed tracker out =
      read_tailed tailed (register_start start id filename tracker) out notices

  unfoldable pub tail_file :
      Run (Result ℤ × List Notice) → Tailed Time → Tracker M → Published → Run (Left M)
  unfolding tail_from
  tail_file limit tailed tracker out = do
    start ← start_of tracker id filename limit
    tail_from start tailed tracker out

-- The address of the log stream of a container. `Encode` sorts the parameters; the identifier of a
-- container holds no query of its own.
abbrev pub logs_url : Text → Text
logs_url docker_id = codes "http://localhost:4243/containers/" ++ docker_id ++ codes "/logs"

abbrev pub stream_url : Text → Text → Text
stream_url docker_id stream = logs_url docker_id ++ codes "?follow=true&" ++ stream ++ codes "=true"

-- The HTTP client: whether it can parse an address, and the status of its response.
pub record Client : Type 0 where
  pub parse_url : Text → Option Error
  pub get : Text → Result ℕ

abbrev pub is_error_status : ℕ → Bool
is_error_status status = ltb status 200 || leb 400 status

with_status : Result ℕ → ℤ → List Notice → Option SeekInfo × List Notice
with_status (err e) limit notices = (none, notices ++ warning e ∷ [])
with_status (ok status) limit notices =
    if is_error_status status
    then (none, notices)
    else (some (record { offset = neg limit; whence = seek_end }), notices)

with_limit : Client → Text → Text → Result ℤ × List Notice → Option SeekInfo × List Notice
unfolding with_status
with_limit client docker_id stream (err e, notices) = (none, notices ++ warning e ∷ [])
with_limit client docker_id stream (ok limit, notices) =
    elim (client.parse_url (logs_url docker_id)) [
      | some e ↦ (none, notices)
      | none ↦ with_status (client.get (stream_url docker_id stream)) limit notices
    ]

-- `tailStream` up to the call of `TailReader`: where in the stream to start, if it is tailed.
unfoldable pub tail_stream_start :
    Client → Text → Text → Run (Result ℤ × List Notice) → Run (Option SeekInfo × List Notice)
unfolding with_limit
tail_stream_start client docker_id stream limit = do
  l ← limit
  done (with_limit client docker_id stream l)

module _ {M Time : Type 0} (node : Node Time) (i : Instance) (id name filename : Text) where
  stream_from : Option SeekInfo × List Notice → Tailed Time → Tracker M → Published → Run (Left M)
  unfolding read_tailed
  stream_from (none, notices) tailed tracker out =
      done (record { tracker = tracker; published = out; notices = notices })
  stream_from (some at, notices) tailed tracker out =
      read_tailed node i id name filename tailed tracker out notices

  -- The stream's name is that of its log.
  unfoldable pub tail_stream :
      Client → Run (Result ℤ × List Notice) → Tailed Time → Tracker M → Published → Run (Left M)
  unfolding stream_from
  tail_stream client limit tailed tracker out = do
    start ← tail_stream_start client i.docker_id name limit
    stream_from start tailed tracker out

-- A goroutine that `Tail` starts, by the name and the path of its log.
pub data Tailer : Type 0 where
  stream_tailer : Text → Text → Tailer
  file_tailer : Text → Text → Tailer

abbrev pub tailer_of : Bool → Text × Text → Tailer
tailer_of docker_streams (name, filename) =
    if docker_streams && (name == codes "stdout" || name == codes "stderr")
    then stream_tailer name filename
    else file_tailer name filename

-- What `Tail` has done when it returns: the tailers that it started, and the tracker.
pub record Tailing (M : Type 0) : Type 0 where
  pub tailers : List Tailer
  pub notices : List Notice
  pub tracker : Tracker M

module _ {M : Type 0} where
  -- The goroutine that waits for the container is `on_exit`.
  unfoldable pub tail : Paths → Instance → Tracker M → Run (Tailing M)
  tail fs i tracker = do
    logged ← identifier i
    (files, notices) ← get_log_files fs i
    short_docker_id ← get_short_docker_id i.docker_id
    done (record {
      tailers = map (tailer_of i.docker_streams) files;
      notices = notices;
      tracker = register_instance short_docker_id tracker;
    })

  -- What follows the wait for the container, after `stopCh` is closed.
  unfoldable pub on_exit : {B : Type 0} → Storage M B → Instance → Tracker M → Run (Tracker M)
  on_exit s i tracker = do
    short_docker_id ← get_short_docker_id i.docker_id
    remove s short_docker_id tracker
