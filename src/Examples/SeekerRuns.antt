-- ===== src/Examples/SeekerRuns.antt =====
-- Runs of the seekable wrapper.
use logyard_apps.Prelude.{◌≡◌, refl, true, false, none, some, List, [], ◌∷◌, ◌++◌, arith, length}
use logyard_apps.Prelude.Text.{Text, codes}
use logyard_apps.Prelude.Int.{pos, neg, ◌+ℤ◌}
use logyard_apps.Seeker.{ReadSeekCloseWrapper, drain, seek, discard_loop}
use logyard_apps.Seeker.Discard.{seek_keeps_last}
use logyard_apps.Seeker.Flow.{Move, receive, finish, ask, flow, flow_lem, drain-asleep}
use Prim.Native.Nat.{min}

abbrev hello : ReadSeekCloseWrapper
hello = record { buffer = codes "hello"; asleep = false; ended = false }

seek_two_back :
    seek 2 (neg (pos 2)) (pos 2) hello ≡ some (none, record hello { buffer = codes "lo" })
unfolding seek discard_loop ◌+ℤ◌
seek_two_back = refl

seek_keeps_last_example :
    (front : Text) × (last : Text) × (seek 2 (neg (pos 2)) (pos 2) hello
      ≡ some (none, record hello { buffer = last }))
    × (front ++ last ≡ codes "hello")
    × (length last ≡ min 2 5)
seek_keeps_last_example = seek_keeps_last 2 2 hello (omega arith) (omega arith)

abbrev moves : List Move
moves =
    receive (codes "wo")
    ∷ ask 3
    ∷ finish none
    ∷ receive (codes "rld")
    ∷ finish (some (codes "EOF"))
    ∷ ask 10
    ∷ []

flow_lem_example :
    (flow moves hello).0 ++ (flow moves hello).1.buffer ≡ codes "hello" ++ codes "world"
flow_lem_example = flow_lem moves hello

abbrev waiting : ReadSeekCloseWrapper
waiting = record { buffer = []; asleep = true; ended = false }

drain-asleep_example : (drain ((codes "last", some (codes "EOF")) ∷ []) waiting).asleep ≡ true
drain-asleep_example = drain-asleep ((codes "last", some (codes "EOF")) ∷ []) waiting refl refl
