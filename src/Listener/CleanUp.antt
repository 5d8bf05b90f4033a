-- ===== src/Listener/CleanUp.antt =====
-- What `TrackerCleanUp` keeps of the tracker.
use logyard_apps.Prelude.{ℕ, ◌≡◌, true, ◌&&◌, none, [], ◌∷◌, arith, if◌then◌else◌}
use logyard_apps.Prelude.Text.{Text}
use logyard_apps.Prelude.Dict.{StringSet, contains, get}
use logyard_apps.Prelude.Run.{done, >>=-eq-done, done-injective}
use logyard_apps.DockerEvents.{Got, Body, get_live_docker_containers}
use logyard_apps.DockerEvents.Attempts.{any_reply_lists, get_live_docker_containers_lem}
use logyard_apps.Tracker.{Tracker}
use logyard_apps.Tracker.Spec.{View, spec, Shows, keep_only}
use logyard_apps.Tracker.Refinement.{clean_up-Shows}
use logyard_apps.Listener.{tracker_clean_up, clean_live, retry}

-- Of the view only the instances whose containers some reply lists.
abbrev pub kept_by : (ℕ → Got Body) → View → View
kept_by replies v = record {
  registered = λ j. any_reply_lists replies retry 0 j && v.registered j;
  offset = λ j d. if any_reply_lists replies retry 0 j then v.offset j d else none;
}

module _ {M : Type 0} (replies : ℕ → Got Body) where
  clean_live-Shows :
      (ids : StringSet) (t : Tracker M) (v : View) (k : Text)
      → contains ids k ≡ true
      → Shows t v
      → Shows (clean_live ids t) (spec (keep_only ids) v)
  unfolding clean_live get
  clean_live-Shows [] t v k e h = absurd (ground (arith, e))
  clean_live-Shows (live ∷ rest) t v k e h = clean_up-Shows t v (live ∷ rest) h

  Shows-kept :
      (ids : StringSet) (t : Tracker M) (v : View)
      → ((j : Text) → contains ids j ≡ any_reply_lists replies retry 0 j)
      → Shows t (spec (keep_only ids) v)
      → Shows t (kept_by replies v)
  Shows-kept ids t v same h = record {
    registered = λ j. ground (arith, h.registered j, same j);
    offset = λ j d. ground (arith, h.offset j d, same j);
  }

  -- If docker lists some container in one of its replies, `TrackerCleanUp` leaves of the tracker that it
  -- finds after the last reply the instances whose containers some reply lists, with their offsets,
  -- and no others.
  pub tracker_clean_up-Shows :
      (t t' : Tracker M) (v : View) (k : Text)
      → any_reply_lists replies retry 0 k ≡ true
      → Shows t v
      → tracker_clean_up replies t ≡ done t'
      → Shows t' (kept_by replies v)
  unfolding tracker_clean_up
  tracker_clean_up-Shows t t' v k listed h e =
      let (ids, live, rest) = >>=-eq-done (get_live_docker_containers replies retry) _ e in
      let same : (j : Text) → contains ids j ≡ any_reply_lists replies retry 0 j =
        λ j. get_live_docker_containers_lem replies retry ids j live in
      rw (← done-injective rest)
        (Shows-kept ids _ v same (clean_live-Shows ids t v k (ground (arith, same k, listed)) h))
