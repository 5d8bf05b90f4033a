-- ===== src/Instances/Line/Encoding.antt =====
-- What the publication of one line puts out.
use logyard_apps.Prelude.{◌≡◌, refl, ap, ◌∙◌, sym, false, Option, none, some, ◌∷◌, ◌++◌, arith}
use logyard_apps.Prelude.Text.{Text, codes}
use logyard_apps.Prelude.Run.{Error, Result, ok, err, done, done-injective}
use logyard_apps.Sieve.Event.{Published}
use logyard_apps.Instances.Files.{Instance}
use logyard_apps.Instances.Line.{
  Node, TailLine, Message, message_of, marked, with_valid_text, publish, publish_data, publish_line,
  publish_line_as, fatal_if,
}

app_guid-marked :
    {Time : Type 0} (node : Node Time) (o : Option Error) (msg : Message)
    → (marked node o msg).app_guid ≡ msg.app_guid
app_guid-marked node none msg = refl
app_guid-marked node (some e) msg = refl

module _ {Time : Type 0} (node : Node Time) where
  publish_data_done :
      (msg : Message) (r : Result Text) (out out' : Published)
      → fatal_if node (publish_data node msg false r out) ≡ done out'
      → (text : Text) × (r ≡ ok text) × (out' ≡ (codes "apptail." ++ msg.app_guid, text) ∷ out)
  unfolding publish_data
  publish_data_done msg (ok text) out out' h = (text, refl, sym (done-injective h))
  publish_data_done msg (err e) out out' h = absurd (ground (arith, h))

  module _ (i : Instance) (name : Text) where
    -- The JSON text of a line.
    abbrev pub encoded : TailLine Time → Result Text
    encoded line =
        node.marshal
          (with_valid_text node (marked node line.err (message_of node i i.type name line)))

    abbrev pub key_of : Text
    key_of = codes "apptail." ++ i.app_guid

    pub publish_line_lem :
        (line : TailLine Time) (out out' : Published)
        → publish_line node i name line out ≡ done out'
        → (text : Text) × (encoded line ≡ ok text) × (out' ≡ (key_of, text) ∷ out)
    unfolding publish_line publish_line_as publish
    publish_line_lem line out out' h =
        let msg = message_of node i i.type name line in
        let (text, same, all) =
          publish_data_done (marked node line.err msg) (encoded line) out out' h in
        let key = app_guid-marked node line.err msg in
        (text, same, all ∙ ap (λ g. (codes "apptail." ++ g, text) ∷ out) key)
