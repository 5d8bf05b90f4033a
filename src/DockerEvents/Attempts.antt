-- ===== src/DockerEvents/Attempts.antt =====
-- The two retry loops.
use logyard_apps.Prelude.{
  subst, ◌∙◌, ℕ, zero, suc, ◌+◌, ◌<◌, ◌≡◌, ◌≢◌, Bool, true, false, none, some, List, [], ◌∷◌, ◌||◌,
  arith, take,
}
use logyard_apps.Prelude.Text.{Text, ◌==◌}
use logyard_apps.Prelude.Dict.{get as get_key, StringSet, put, get-put, contains}
use logyard_apps.Prelude.Run.{>>=-eq-done, done-injective, Error, ok, err, done, crash, fatal, ◌>>◌}
use logyard_apps.DockerEvents.{
  add_body, add_ids, defer_close, use_response, Got, response, failure, Docker, Body, events_from,
  get_docker_events, live_from, live_round, get_live_docker_containers, short_id, id_length,
}

-- The first response among the attempts `from`, `from + 1`, ... that are left.
abbrev pub first_response {ℓ} :
    {R : Type 0} {A : Type ℓ} → (ℕ → Got R) → (R → A) → A → (left from : ℕ) → A
first_response get found default zero from = default
first_response get found default (suc left) from =
    let rest = first_response get found default left (from + 1) in
    elim (get from) [ response res ↦ found res | failure res e ↦ rest ]

module _ {R : Type 0} (get : ℕ → Got R) where
  events_from_lem :
      (retries left attempt : ℕ)
      → attempt + left ≡ retries
      → 0 < left
      → events_from get retries left attempt ≡ first_response get done (crash fatal) left attempt
  unfolding events_from
  events_from_lem retries zero attempt e h = absurd (omega arith)
  events_from_lem retries (suc zero) attempt e h = ground arith
  events_from_lem retries (suc (suc left)) attempt e h =
      ground (arith, events_from_lem retries (suc left) (attempt + 1))

  -- `getDockerEvents` returns the first response among `retries` attempts, and gives up by a fatal
  -- exit exactly when all of them fail; the panic after its loop is not reached.
  get_docker_events_lem :
      (retries : ℕ)
      → 0 < retries
      → get_docker_events get retries ≡ first_response get done (crash fatal) retries 0
  unfolding get_docker_events
  get_docker_events_lem retries h = events_from_lem retries retries 0 (omega arith) h

-- Some container in the list has the short id `k`.
abbrev pub lists : List Docker → Text → Bool
lists [] k = false
lists (element ∷ rest) k = (take id_length element.id == k) || lists rest k

abbrev pub reply_lists : Got Body → Text → Bool
reply_lists (response (ok (ok dockers))) k = lists dockers k
reply_lists _ k = false

abbrev pub any_reply_lists : (ℕ → Got Body) → (left from : ℕ) → Text → Bool
any_reply_lists get zero from k = false
any_reply_lists get (suc left) from k =
    reply_lists (get from) k || any_reply_lists get left (from + 1) k

contains-put :
    (m : StringSet) (k j : Text) (v : Bool) → contains (put m k v) j ≡ (k == j) || contains m j
contains-put m k j v = rw get-put (ground arith)

short_id-done : (id key : Text) → short_id id ≡ done key → key ≡ take id_length id
unfolding short_id
short_id-done id key e = ground arith

add_ids_lem :
    (dockers : List Docker) (ids ids' : StringSet) (k : Text)
    → add_ids dockers ids ≡ done ids'
    → contains ids' k ≡ lists dockers k || contains ids k
unfolding add_ids
add_ids_lem [] ids ids' k e = rw (done-injective e) (ground arith)
add_ids_lem (element ∷ rest) ids ids' k e =
    let (key, short, more) = >>=-eq-done (short_id element.id) _ e in
    ground (
      arith,
      add_ids_lem rest (put ids key true) ids' k more,
      contains-put ids key k true,
      short_id-done element.id key short,
    )

module _ (get : ℕ → Got Body) (retries : ℕ) where
  live_round_lem :
      (attempt : ℕ) (ids ids' : StringSet) (k : Text)
      → live_round get retries attempt ids ≡ done ids'
      → contains ids' k ≡ reply_lists (get attempt) k || contains ids k
  unfolding live_round use_response defer_close add_body
  live_round_lem attempt ids ids' k e = round (get attempt) e
    where
      round :
          (got : Got Body)
          → (defer_close got >> use_response get retries attempt ids got) ≡ done ids'
          → contains ids' k ≡ reply_lists got k || contains ids k
      round (response (ok (ok dockers))) e = add_ids_lem dockers ids ids' k e
      round (response (ok (err x))) e = cc
      round (response (err x)) e = cc
      round (failure (some res) x) e = ground arith
      round (failure none x) e = cc

  live_from_lem :
      (left attempt : ℕ) (ids ids' : StringSet) (k : Text)
      → live_from get retries left attempt ids ≡ done ids'
      → contains ids' k ≡ any_reply_lists get left attempt k || contains ids k
  unfolding live_from
  live_from_lem zero attempt ids ids' k e = rw (done-injective e) (ground arith)
  live_from_lem (suc left) attempt ids ids' k e =
      let (mid, first, more) = >>=-eq-done (live_round get retries attempt ids) _ e in
      ground (
        arith,
        live_from_lem left (attempt + 1) mid ids' k more,
        live_round_lem attempt ids mid k first,
      )

  -- What `GetLiveDockerContainers` returns holds the short id of a container exactly when one of all
  -- `retries` replies lists it: the loop asks again after a success.
  pub get_live_docker_containers_lem :
      (ids : StringSet) (k : Text)
      → get_live_docker_containers get retries ≡ done ids
      → contains ids k ≡ any_reply_lists get retries 0 k
  unfolding get_live_docker_containers get_key
  get_live_docker_containers_lem ids k e = live_from_lem retries 0 [] ids k e ∙ ground arith

  no_round :
      (attempt : ℕ) (ids ids' : StringSet) (x : Error)
      → get attempt ≡ failure none x
      → live_round get retries attempt ids ≢ done ids'
  unfolding live_round defer_close
  no_round attempt ids ids' x f e = ground arith

  live_from_fails :
      (left attempt i : ℕ) (ids ids' : StringSet) (x : Error)
      → i < left
      → get (attempt + i) ≡ failure none x
      → live_from get retries left attempt ids ≢ done ids'
  unfolding live_from
  live_from_fails zero attempt i ids ids' x h f e = absurd (omega arith)
  live_from_fails (suc left) attempt zero ids ids' x h f e =
      let here : get attempt ≡ failure none x =
        subst (λ n. get n ≡ failure none x) (omega arith) f in
      let (mid, first, more) = >>=-eq-done (live_round get retries attempt ids) _ e in
      no_round attempt ids mid x here first
  live_from_fails (suc left) attempt (suc i) ids ids' x h f e =
      let (mid, first, more) = >>=-eq-done (live_round get retries attempt ids) _ e in
      live_from_fails left (attempt + 1) i mid ids' x (omega arith)
        (subst (λ n. get n ≡ failure none x) (omega arith) f) more

  -- One attempt that fails without a response ends the process, however many are left: the retry is
  -- never made.
  get_live_docker_containers_fails :
      (i : ℕ) (x : Error) (ids : StringSet)
      → i < retries
      → get i ≡ failure none x
      → get_live_docker_containers get retries ≢ done ids
  unfolding get_live_docker_containers
  get_live_docker_containers_fails i x ids h f =
      live_from_fails retries 0 i [] ids x h (subst (λ n. get n ≡ failure none x) (omega arith) f)
