-- ===== src/Sieve/Handler.antt =====
-- sieve/handler.go: the handlers that fill an event from the groups of a match.
pub mod Faults
use logyard_apps.Prelude.{
  arith, ℕ, zero, suc, ◌<◌, ◌≡◌, Bool, Option, none, some, List, [], ◌∷◌, ◌++◌, ltb, length,
  get_elem?, if◌then◌else◌,
}
use logyard_apps.Prelude.Text.{Text, codes}
use logyard_apps.Prelude.Run.{
  Error, Result, ok, err, Run, done, crash, nil_pointer, out_of_range, bad_pattern, ◌>>=◌,
}
use logyard_apps.Sieve.Engines.{Engines}
use logyard_apps.Sieve.Event.{Event}
use logyard_apps.Sieve.Template.{simple_template_text}

-- The implementations of the interface `EventHandler`, and its nil.
pub data EventHandler (Tm : Type 0) : Type 0 where
  no_handler : EventHandler Tm
  simple json : Tm → Text → EventHandler Tm

module _ {Re Tm Info : Type 0} (e : Engines Re Tm Info) where
  -- `template.Must(template.New("").Parse(text))`
  must_parse : Text → Run Tm
  must_parse text = elim (e.parse_template text) [ none ↦ crash bad_pattern | some t ↦ done t ]

  unfoldable pub new_simple_event_handler : Text → Text → Run (EventHandler Tm)
  unfolding must_parse simple_template_text
  new_simple_event_handler severity desc_tmpl = do
    t ← must_parse (simple_template_text desc_tmpl)
    done (simple t severity)

  unfoldable pub new_json_event_handler : Text → Text → Run (EventHandler Tm)
  unfolding must_parse
  new_json_event_handler severity desc_tmpl = do t ← must_parse desc_tmpl; done (json t severity)

  describe : Text → Text → Event Info → Result Text → Result (Event Info)
  describe prefix severity event (err x) = err (prefix ++ event.type ++ codes "; " ++ x)
  describe prefix severity event (ok output) =
      ok (record event { desc = output; severity = severity })

  -- `len(results) < 1` is tested, and `results[1]` is read.
  group_one : List Text → Run Text
  group_one results = elim (get_elem? results 1) [ none ↦ crash out_of_range | some g ↦ done g ]

  describe_json : Tm → Text → Event Info → Result Info → Result (Event Info)
  describe_json t severity event (err x) = err x
  describe_json t severity event (ok info) =
      describe (codes "error in known event handler ") severity (record event { info = info })
        (e.execute_info t info)

  -- `HandleEvent`: the filled event, or the error.
  unfoldable pub handle_event : EventHandler Tm → List Text → Event Info → Run (Result (Event Info))
  unfolding describe group_one describe_json
  handle_event no_handler results event = crash nil_pointer
  handle_event (simple t severity) results event =
      done (
        describe (codes "error in custom event handler ") severity event (e.execute_list t results))
  handle_event (json t severity) results event =
      if ltb (length results) 1 then done (err (codes "no regex matches found")) else do
        text ← group_one results
        done (describe_json t severity event (e.unmarshal text event.info))

  -- A handler keeps the type and the process of the event that it fills.
  pub handle_event_keeps :
      (h : EventHandler Tm) (results : List Text) (event event' : Event Info)
      → handle_event h results event ≡ done (ok event')
      → (event'.type ≡ event.type) × (event'.process ≡ event.process)
  unfolding handle_event
  handle_event_keeps no_handler results event event' x = cc
  handle_event_keeps (simple t severity) results event event' x = ground arith
  handle_event_keeps (json t severity) results event event' x = ground arith
