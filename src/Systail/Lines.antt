-- ===== src/Systail/Lines.antt =====
-- What is published of a file.
use logyard_apps.Prelude.{
  ◌≡◌, refl, ap, ◌⊎◌, inl, inr, Option, none, some, List, [], ◌∷◌, ◌++◌, map,
}
use logyard_apps.Prelude.Text.{Text, codes}
use logyard_apps.Prelude.Run.{Error, Result, Result-cases, ok, err}
use logyard_apps.Sieve.Event.{Published, push}
use logyard_apps.Instances.Line.{TailLine}
use logyard_apps.Systail.{Encoder, record_of, record_key, publish_lines}

module _ {Time : Type 0} (enc : Encoder Time) (name node_id : Text) where
  -- The JSON text of a line.
  abbrev pub encoded : TailLine Time → Result Text
  encoded line = enc.marshal (record_of enc name node_id line)

  -- `sent` are the lines before the first that cannot be encoded; they were published, and a line
  -- that cannot be encoded killed the tail.
  pub record IsPublished (lines : List (TailLine Time)) (out : Published)
      (r : Option Error × Published) : Type 0 where
    pub sent : List (TailLine Time)
    pub left : List (TailLine Time)
    pub texts : List Text
    pub all : sent ++ left ≡ lines
    pub each : map encoded sent ≡ map ok texts
    pub published : r.1 ≡ push (record_key enc name node_id) texts out
    pub ending :
        ((left ≡ []) × (r.0 ≡ none))
        ⊎ ((bad : TailLine Time) × (rest : List (TailLine Time)) × (e : Error) × (left ≡ bad ∷ rest)
            × (encoded bad ≡ err e)
            × (r.0 ≡ some (codes "Failed to encode to JSON: " ++ e)))

  -- Of a file's lines those before the first that cannot be encoded are published, in order and once,
  -- under the key of the file's name and the node, as the JSON texts of their records. The tail is
  -- killed exactly when there is a line that cannot be encoded.
  pub publish_lines-IsPublished :
      (lines : List (TailLine Time)) (out : Published)
      → IsPublished lines out (publish_lines enc name node_id lines out)
  unfolding publish_lines
  publish_lines-IsPublished [] out = record {
    sent = [];
    left = [];
    texts = [];
    all = refl;
    each = refl;
    published = refl;
    ending = inl (refl, refl);
  }
  publish_lines-IsPublished (line ∷ rest) out = elim (Result-cases (encoded line)) [
    | inl (text, good) ↦
        let later = publish_lines-IsPublished rest ((record_key enc name node_id, text) ∷ out) in
        rw (good, publish_lines)
          (record {
            sent = line ∷ later.sent;
            left = later.left;
            texts = text ∷ later.texts;
            all = ap (◌∷◌ line) later.all;
            each = rw (good, later.each) refl;
            published = later.published;
            ending = later.ending;
          })
    | inr (e, bad) ↦
        rw (bad, publish_lines)
          (record {
            sent = [];
            left = line ∷ rest;
            texts = [];
            all = refl;
            each = refl;
            published = refl;
            ending = inr (line, rest, e, refl, bad, refl);
          })
  ]
