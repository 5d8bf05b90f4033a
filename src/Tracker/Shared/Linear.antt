-- ===== src/Tracker/Shared/Linear.antt =====
-- The tracker that goroutines share looks like the tracker whose methods are atomic.
use logyard_apps.Prelude.{◌≡◌, refl, sym, ◌∙◌, false, none, List, [], ◌∷◌, ◌++◌}
use logyard_apps.Prelude.Text.{Text}
use logyard_apps.Prelude.Dict.{get, contains}
use logyard_apps.Storage.{Storage}
use logyard_apps.Prelude.Run.{done}
use logyard_apps.Tracker.{Tracker, instances_of, new_tracker, is_instance_registered}
use logyard_apps.Tracker.Refinement.{apply_all-Shows}
use logyard_apps.Tracker.Spec.{stored, apply_all, View, Op, spec, spec_all}
use logyard_apps.Tracker.Shared.{Shared, Action, act, act_all, new_shared, effect, effects}
use logyard_apps.Tracker.Shared.Sound.{IsSound, act-IsSound, new_shared-IsSound}
use logyard_apps.Tracker.Shared.Looks.{file_in, Looks, act-Looks}

spec_all-append : (xs ys : List Op) (v : View) → spec_all (xs ++ ys) v ≡ spec_all ys (spec_all xs v)
spec_all-append [] ys v = refl
spec_all-append (op ∷ xs) ys v = spec_all-append xs ys (spec op v)

act_all-Looks :
    (acts : List Action) (s : Shared) (v : View)
    → IsSound s
    → Looks s.heap v
    → Looks (act_all acts s).heap (spec_all (effects acts s) v)
unfolding act_all effects
act_all-Looks [] s v i w = w
act_all-Looks (a ∷ rest) s v i w = rw (spec_all-append (effect a s) (effects rest (act a s)) v) (
    act_all-Looks rest (act a s) (spec_all (effect a s) v) (act-IsSound a s i)
      (act-Looks a s v i w))

abbrev empty_view : View
empty_view = record { registered = λ j. false; offset = λ j d. none }

module _ {M B : Type 0} (st : Storage M B) (m : M) where
  -- However the steps of the calls of Update, which does not hold the mutex, come between those of
  -- each other and the methods that hold it, the instances and offsets are those of the tracker
  -- whose methods are atomic, after the same calls: an Update counts from its store, and it counts
  -- unless its instance was removed since it looked it up.
  pub act_all-apply_all :
      (acts : List Action) (t : Tracker M)
      → apply_all st (effects acts new_shared) (new_tracker m) ≡ done t
      → ((j : Text)
          → contains (act_all acts new_shared).heap.instances j ≡ is_instance_registered t j)
        × ((j d : Text)
            → file_in
                (act_all acts new_shared).heap
                (get (act_all acts new_shared).heap.instances j)
                d
              ≡ stored (instances_of t) j d)
  unfolding new_tracker is_instance_registered get
  act_all-apply_all acts t e =
      let shared =
        act_all-Looks acts new_shared empty_view new_shared-IsSound
          (record { registered = λ j. refl; offset = λ j d. refl }) in
      let atomic =
        apply_all-Shows st (effects acts new_shared) (new_tracker m) t empty_view
          (record { registered = λ j. refl; offset = λ j d. refl }) e in
      (
        λ j. shared.registered j ∙ sym (atomic.registered j),
        λ j d. shared.offset j d ∙ sym (atomic.offset j d),
      )
