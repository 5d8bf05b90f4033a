-- ===== src/Instances/Tail/Publishing.antt =====
-- What is published of the lines of a file.
use logyard_apps.Prelude.{◌≡◌, refl, ap, sym, ◌∙◌, List, [], ◌∷◌, map}
use logyard_apps.Prelude.Text.{Text}
use logyard_apps.Prelude.Run.{ok, done, >>=-eq-done, done-injective}
use logyard_apps.Tracker.{Tracker, update}
use logyard_apps.Sieve.Event.{Published, push}
use logyard_apps.Instances.Files.{Instance}
use logyard_apps.Instances.Line.{Node, TailLine, publish_line}
use logyard_apps.Instances.Line.Encoding.{encoded, key_of, publish_line_lem}
use logyard_apps.Instances.Tail.{Feed, line_read, lines_closed, stopped, read_from_tail}

-- The lines that are read before the end.
abbrev pub lines_read : {Time : Type 0} → List (Feed Time) → List (TailLine Time)
lines_read [] = []
lines_read (lines_closed ∷ rest) = []
lines_read (stopped ∷ rest) = []
lines_read (line_read line offset ∷ rest) = line ∷ lines_read rest

module _ {Time : Type 0} (node : Node Time) (i : Instance) (name : Text) where
  module _ {M : Type 0} (id filename : Text) where
    -- A reading that did not stop the process has published each line that was read, in order and
    -- once, under the key of the application, as the JSON text of its message.
    pub read_from_tail-publishes :
        (feed : List (Feed Time)) (t t' : Tracker M) (out out' : Published)
        → read_from_tail node i id name filename feed t out ≡ done (t', out')
        → (texts : List Text) × (map (encoded node i name) (lines_read feed) ≡ map ok texts)
          × (out' ≡ push (key_of node i name) texts out)
    unfolding read_from_tail
    read_from_tail-publishes [] t t' out out' e = ([], refl, ap (λ p. p.1) (sym (done-injective e)))
    read_from_tail-publishes (lines_closed ∷ rest) t t' out out' e =
        ([], refl, ap (λ p. p.1) (sym (done-injective e)))
    read_from_tail-publishes (stopped ∷ rest) t t' out out' e =
        ([], refl, ap (λ p. p.1) (sym (done-injective e)))
    read_from_tail-publishes (line_read line offset ∷ rest) t t' out out' e =
        let (mid, published, later) = >>=-eq-done (publish_line node i name line out) _ e in
        let (text, same, first) = publish_line_lem node i name line out mid published in
        let (texts, each, all) =
          read_from_tail-publishes rest (update id filename offset t) t' mid out' later in
        (text ∷ texts, rw (same, each) refl, all ∙ ap (push (key_of node i name) texts) first)
