-- ===== src/DockerEvents.antt =====
-- docker_events/docker_events.go: the events and the live containers of the docker daemon. The
-- replies of the daemon are parameters: a function of the attempt, or a list in their order.
pub mod Attempts
pub mod Send
use logyard_apps.Prelude.{
  ℕ, zero, suc, ◌+◌, Bool, true, Option, none, some, List, [], ◌∷◌, ltb, nat_eq, length, take,
  if◌then◌else◌,
}
use logyard_apps.Prelude.Text.{Text}
use logyard_apps.Prelude.Int.{ℤ}
use logyard_apps.Prelude.Dict.{StringSet, put}
use logyard_apps.Prelude.Run.{
  Error, Result, ok, err, Run, done, crash, nil_pointer, out_of_range, unreachable, fatal, ◌>>=◌,
  ◌>>◌,
}

abbrev pub id_length : ℕ
id_length = 12

pub record Event : Type 0 where
  pub id : Text
  pub status : Text
  pub from : Text
  pub time : ℤ

-- `id[:ID_LENGTH]`
unfoldable pub short_id : Text → Run Text
short_id id = if ltb (length id) id_length then crash out_of_range else done (take id_length id)

-- What the decoder of the event stream returns; the end of the list is `io.EOF`.
pub data Decoded : Type 0 where
  event : Event → Decoded
  bad : Error → Decoded

-- The goroutine of `Stream`: the events that it sends, and how it ends.
unfoldable pub stream : List Decoded → List Event × Run (Unit {0})
stream [] = ([], done tt)
stream (bad e ∷ rest) = ([], crash fatal)
stream (event e ∷ rest) = let (sent, end) = stream rest in (e ∷ sent, end)

-- `c.Get(url)`: a failure mostly comes without a response.
pub data Got (R : Type 0) : Type 0 where
  response : R → Got R
  failure : Option R → Error → Got R

module _ {R : Type 0} (get : ℕ → Got R) (retries : ℕ) where
  -- The loop of `getDockerEvents`; `left` rounds are left.
  events_from : (left attempt : ℕ) → Run R
  events_from zero attempt = crash unreachable
  events_from (suc left) attempt =
      let again =
        if nat_eq (attempt + 1) retries then crash fatal else events_from left (attempt + 1) in
      elim (get attempt) [ response res ↦ done res | failure res e ↦ again ]

  unfoldable pub get_docker_events : Run R
  unfolding events_from
  get_docker_events = events_from retries 0

pub record Docker : Type 0 where
  pub id : Text

-- The body of a response: what `ReadAll` and `Unmarshal` make of it.
abbrev pub Body : Type 0
Body = Result (Result (List Docker))

add_ids : List Docker → StringSet → Run StringSet
add_ids [] ids = done ids
add_ids (element ∷ rest) ids = do key ← short_id element.id; add_ids rest (put ids key true)

add_body : Body → StringSet → Run StringSet
add_body (err e) ids = crash fatal
add_body (ok (err e)) ids = crash fatal
add_body (ok (ok dockers)) ids = add_ids dockers ids

-- `defer res.Body.Close()` reads the response before the error is looked at.
defer_close : Got Body → Run (Unit {0})
defer_close (response res) = done tt
defer_close (failure (some res) e) = done tt
defer_close (failure none e) = crash nil_pointer

module _ (get : ℕ → Got Body) (retries : ℕ) where
  use_response : ℕ → StringSet → Got Body → Run StringSet
  use_response attempt ids (response body) = add_body body ids
  use_response attempt ids (failure res e) =
      if nat_eq (attempt + 1) retries then crash fatal else done ids

  live_round : ℕ → StringSet → Run StringSet
  live_round attempt ids = do defer_close (get attempt); use_response attempt ids (get attempt)

  -- The loop has no exit on success.
  live_from : (left attempt : ℕ) → StringSet → Run StringSet
  live_from zero attempt ids = done ids
  live_from (suc left) attempt ids = do
    ids' ← live_round attempt ids
    live_from left (attempt + 1) ids'

  unfoldable pub get_live_docker_containers : Run StringSet
  unfolding live_from live_round use_response defer_close add_body add_ids short_id
  get_live_docker_containers = live_from retries 0 []
