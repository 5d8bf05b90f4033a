-- ===== src/Examples/SystailRuns.antt =====
-- A line of a system log, published by systail and parsed by logyard_sieve.
use logyard_apps.Prelude.{if◌then◌else◌, ◌≡◌, refl, arith, ap, true, none, some, List, [], ◌∷◌}
use logyard_apps.Prelude.Text.{codes, ◌==◌}
use logyard_apps.Prelude.Int.{ℤ, pos}
use logyard_apps.Prelude.Run.{ok, err, done}
use logyard_apps.Common.{new_message_common}
use logyard_apps.Sieve.Service.{on_message}
use logyard_apps.Instances.Line.{TailLine}
use logyard_apps.Examples.Codec.{put_record, get_record, get-put_record}
use logyard_apps.Examples.Literal.{literal}
use logyard_apps.Examples.SieveRuns.{parser, line, exit_event, parsed_exit, marshal}
use logyard_apps.Systail.{Encoder, record_of, record_key, publish_lines}
use logyard_apps.Systail.Events.{KeepsRecords, line_to_event}

abbrev encoder : Encoder ℤ
encoder = record {
  clock = record { unix = λ t. t; from_unix = λ t. t; format = λ t layout. layout };
  marshal = λ m. ok (put_record m);
  valid_string = λ s. true;
  to_valid = λ s. s;
}

encoder-KeepsRecords : KeepsRecords encoder (λ s. ok (get_record s))
encoder-KeepsRecords m bytes valid h =
    let same : put_record m ≡ bytes = ground (arith, h) in rw (← same) (ap ok (get-put_record m))

abbrev exit_line : TailLine ℤ
exit_line = record { text = line; time = pos 7; err = none }

line_to_event_example :
    ((publish_lines encoder (codes "supervisord") (codes "n1") (exit_line ∷ []) []).1
      ≡ (
        record_key encoder (codes "supervisord") (codes "n1"),
        put_record (record_of encoder (codes "supervisord") (codes "n1") exit_line),
      )
        ∷ [])
    × (on_message literal encoder.clock
          (λ s. ok (get_record s))
          marshal
          parser
          (put_record (record_of encoder (codes "supervisord") (codes "n1") exit_line))
          []
        ≡ done ((codes "event.process_exit", exit_event.desc) ∷ []))
unfolding new_message_common
line_to_event_example =
    line_to_event literal encoder (λ s. ok (get_record s)) marshal parser (codes "supervisord")
      (codes "n1") encoder-KeepsRecords exit_line exit_event
      (put_record (record_of encoder (codes "supervisord") (codes "n1") exit_line)) exit_event.desc
      [] [] refl refl refl parsed_exit refl

-- An encoder that refuses one text.
abbrev picky : Encoder ℤ
picky = record encoder {
  marshal = λ m. if m.common.text == codes "bad" then err (codes "invalid") else ok m.common.text;
}

abbrev three_lines : List (TailLine ℤ)
three_lines =
    record { text = codes "one"; time = pos 1; err = none }
    ∷ record { text = codes "bad"; time = pos 2; err = none }
    ∷ record { text = codes "two"; time = pos 3; err = none }
    ∷ []

only_one_published :
    publish_lines picky (codes "dea") (codes "n1") three_lines []
    ≡ (some (codes "Failed to encode to JSON: invalid"), (codes "systail.dea.n1", codes "one") ∷ [])
unfolding publish_lines ◌==◌ new_message_common
only_one_published = refl
