-- ===== src/Listener/Waiting.antt =====
-- Who is woken by the listener, and who is not.
use logyard_apps.Prelude.{
  ltb→lt, ◌∙◌, sym, Bool-cases, inr, inl, All, Option-cases, length-take, ℕ, ◌+◌, ◌≤◌, ◌<◌, ◌≡◌,
  refl, true, false, Option, none, some, List, [], ◌∷◌, arith, length, take, if◌then◌else◌,
}
use logyard_apps.Prelude.Text.{Text, eq_iff}
use logyard_apps.Prelude.Dict.{get, put, delete, contains, get-put, get-delete}
use logyard_apps.Prelude.Run.{done, crash, out_of_range, >>=-eq-done, done-injective}
use logyard_apps.DockerEvents.{Event, id_length}
use logyard_apps.Listener.{
  ltb, DockerListener, Action, wait, event, act, act_all, on_event, block_until_container_stops,
  is_stop, elem, new_listener,
}

-- Between two actions: a registered channel is open, was made by the listener, and is registered
-- for one container.
pub record IsSound (l : DockerListener) : Type 0 where
  pub made : (id : Text) (ch : ℕ) → get l.waiters id ≡ some ch → ch < l.fresh
  pub shut : (id : Text) (ch : ℕ) → get l.waiters id ≡ some ch → elem ch l.closed ≡ false
  pub once : (i j : Text) (ch : ℕ) → get l.waiters i ≡ some ch → get l.waiters j ≡ some ch → i ≡ j
  pub old : (ch : ℕ) → elem ch l.closed ≡ true → ch < l.fresh

pub new_listener-IsSound : IsSound new_listener
unfolding get elem
new_listener-IsSound = record {
  made = λ id ch e. cc;
  shut = λ id ch e. cc;
  once = λ i j ch e f. cc;
  old = λ ch e. cc;
}

pub block-IsSound :
    (id : Text) (l l' : DockerListener) (ch : ℕ)
    → IsSound l
    → block_until_container_stops id l ≡ done (ch, l')
    → IsSound l'
unfolding block_until_container_stops
block-IsSound id l l' ch h e = record {
  made = λ j c p. ground (arith, get-put l.waiters (take id_length id) j l.fresh, h.made j c);
  shut =
      λ j c p. ground (arith, get-put l.waiters (take id_length id) j l.fresh, h.shut j c, h.old c);
  once = λ i j c p q. ground (
    arith,
    get-put l.waiters (take id_length id) j l.fresh,
    get-put l.waiters (take id_length id) i l.fresh,
    h.made i c,
    h.made j c,
    h.once i j c,
    eq_iff (take id_length id) i,
    eq_iff (take id_length id) j,
  );
  old = λ c p. ground (arith, h.old c);
}

on_event-IsSound :
    (evt : Event) (l l' : DockerListener) → IsSound l → on_event evt l ≡ done l' → IsSound l'
unfolding on_event elem
on_event-IsSound evt l l' h e = record {
  made = λ j c p. ground (arith, get-delete l.waiters (take id_length evt.id) j, h.made j c);
  shut = λ j c p. ground (
    arith,
    get-delete l.waiters (take id_length evt.id) j,
    h.shut j c,
    h.once (take id_length evt.id) j c,
    eq_iff (take id_length evt.id) j,
  );
  once = λ i j c p q. ground (
    arith,
    get-delete l.waiters (take id_length evt.id) j,
    get-delete l.waiters (take id_length evt.id) i,
    h.once i j c,
  );
  old = λ c p. ground (arith, h.old c, h.made (take id_length evt.id) c);
}

pub act-IsSound : (a : Action) (l l' : DockerListener) → IsSound l → act a l ≡ done l' → IsSound l'
unfolding act
act-IsSound (wait id) l l' h e =
    let ((ch, m), blocked, same) = >>=-eq-done (block_until_container_stops id l) _ e in
    rw (← done-injective same) (block-IsSound id l m ch h blocked)
act-IsSound (event evt) l l' h e = on_event-IsSound evt l l' h e

abbrev pub id_of : Action → Text
id_of (wait id) = id
id_of (event evt) = evt.id

abbrev pub after_wait : Text → DockerListener → DockerListener
after_wait id l =
    if contains l.waiters (take id_length id)
    then record l { fresh = l.fresh + 1 }
    else record l { waiters = put l.waiters (take id_length id) l.fresh; fresh = l.fresh + 1 }

abbrev pub woken : Option ℕ → Text → DockerListener → DockerListener
woken none id l = l
woken (some ch) id l = record l { closed = ch ∷ l.closed; waiters = delete l.waiters id }

abbrev pub after_event : Event → DockerListener → DockerListener
after_event evt l =
    if is_stop evt.status
    then woken (get l.waiters (take id_length evt.id)) (take id_length evt.id) l
    else l

block_long :
    (id : Text) (l : DockerListener)
    → id_length ≤ length id
    → block_until_container_stops id l ≡ done (l.fresh, after_wait id l)
unfolding block_until_container_stops
block_long id l long = ground (arith, length-take id_length id)

on_event_long :
    (evt : Event) (l : DockerListener)
    → IsSound l
    → id_length ≤ length evt.id
    → on_event evt l ≡ done (after_event evt l)
unfolding on_event
on_event_long evt l h long = elim (Option-cases (get l.waiters (take id_length evt.id))) [
  | inl e ↦ rw e (ground (arith, length-take id_length evt.id))
  | inr (ch, e) ↦
      rw e (ground (arith, length-take id_length evt.id, h.shut (take id_length evt.id) ch e))
]

abbrev pub after : Action → DockerListener → DockerListener
after (wait id) l = after_wait id l
after (event evt) l = after_event evt l

-- With an id of at least twelve bytes an action never stops the process.
pub act_long :
    (a : Action) (l : DockerListener)
    → IsSound l
    → id_length ≤ length (id_of a)
    → act a l ≡ done (after a l)
unfolding act
act_long (wait id) l h long = rw (block_long id l long)
act_long (event evt) l h long = on_event_long evt l h long

act_all_total_from :
    (actions : List Action) (l : DockerListener)
    → IsSound l
    → All (λ a. id_length ≤ length (id_of a)) actions
    → (l' : DockerListener) × (act_all actions l ≡ done l') × IsSound l'
unfolding act_all
act_all_total_from [] l h long = (l, refl, h)
act_all_total_from (a ∷ rest) l h (long, more) =
    let step = act_long a l h long in
    let (l', run, sound) =
      act_all_total_from rest (after a l) (act-IsSound a l (after a l) h step) more in
    (l', rw step run, sound)

-- Whatever the order of waits and docker events, if the ids have at least twelve bytes then the
-- listener never stops the process: no channel is closed twice, and it stays sound.
pub act_all_total :
    (actions : List Action)
    → All (λ a. id_length ≤ length (id_of a)) actions
    → (l' : DockerListener) × (act_all actions new_listener ≡ done l') × IsSound l'
act_all_total actions long = act_all_total_from actions new_listener new_listener-IsSound long

-- An id of fewer than twelve bytes stops the process, whoever brings it.
pub act_short :
    (a : Action) (l : DockerListener) → length (id_of a) < id_length → act a l ≡ crash out_of_range
unfolding act block_until_container_stops on_event
act_short (wait id) l h = ground arith
act_short (event evt) l h = ground arith

-- What an action does to a sound listener, where it does not stop the process.
pub act-after :
    (a : Action) (l l' : DockerListener) → IsSound l → act a l ≡ done l' → l' ≡ after a l
act-after a l l' h e = elim (Bool-cases (ltb (length (id_of a)) id_length)) [
  | inl short ↦
      let stopped : done l' ≡ crash out_of_range = sym e ∙ act_short a l (ltb→lt _ _ short) in cc
  | inr long ↦ done-injective (sym e ∙ act_long a l h (ground arith))
]
