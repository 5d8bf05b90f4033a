-- ===== src/Seeker/Flow.antt =====
-- What flows through the wrapper, and who is woken.
use logyard_apps.Prelude.{
  ℕ, ◌≡◌, refl, sym, ap, ◌∙◌, Bool, true, false, ◌||◌, not, Option, none, some, List, [], ◌∷◌, ◌++◌,
  arith, ltb, length, take-append-drop,
}
use logyard_apps.Prelude.Text.{Text}
use logyard_apps.Prelude.Run.{Error}
use logyard_apps.Seeker.{ReadSeekCloseWrapper, write_chunk, drain_end, drain_round, drain, read}
use mathlib.Core.List.{append-nil, append_assoc}

-- What the drain goroutine and the readers do, in turn: it writes a chunk, it ends the round, and a
-- reader comes.
pub data Move : Type 0 where
  receive : Text → Move
  finish : Option Error → Move
  ask : ℕ → Move

abbrev got : Option Text → Text
got none = []
got (some bytes) = bytes

-- All bytes that were read, and the state in the end.
abbrev pub flow : List Move → ReadSeekCloseWrapper → Text × ReadSeekCloseWrapper
flow [] r = ([], r)
flow (receive chunk ∷ rest) r = flow rest (write_chunk chunk r)
flow (finish err ∷ rest) r = flow rest (drain_end err r)
flow (ask n ∷ rest) r =
    let (answer, r') = read n r in let (bytes, r'') = flow rest r' in (got answer ++ bytes, r'')

abbrev pub received : List Move → Text
received [] = []
received (receive chunk ∷ rest) = chunk ++ received rest
received (finish err ∷ rest) = received rest
received (ask n ∷ rest) = received rest

write_chunk-buffer :
    (chunk : Text) (r : ReadSeekCloseWrapper) → (write_chunk chunk r).buffer ≡ r.buffer ++ chunk
unfolding write_chunk
write_chunk-buffer [] r = ground (arith, append-nil r.buffer)
write_chunk-buffer (c ∷ chunk) r = ground arith

drain_end-buffer :
    (err : Option Error) (r : ReadSeekCloseWrapper) → (drain_end err r).buffer ≡ r.buffer
unfolding drain_end
drain_end-buffer err r = ground arith

read-buffer :
    (n : ℕ) (r : ReadSeekCloseWrapper) → got (read n r).0 ++ (read n r).1.buffer ≡ r.buffer
unfolding read
read-buffer n r = ground (arith, take-append-drop n r.buffer)

-- Nothing is lost, doubled or reordered: whatever the order of chunks, ends of rounds and reads, what
-- was read and what is still buffered is, in order, what was buffered at first and all that was
-- received, where the methods of the buffer exclude each other.
pub flow_lem :
    (moves : List Move) (r : ReadSeekCloseWrapper)
    → (flow moves r).0 ++ (flow moves r).1.buffer ≡ r.buffer ++ received moves
flow_lem [] r = sym (append-nil r.buffer)
flow_lem (receive chunk ∷ rest) r =
    flow_lem rest (write_chunk chunk r)
    ∙ rw write_chunk-buffer (append_assoc r.buffer chunk (received rest))
flow_lem (finish err ∷ rest) r = flow_lem rest (drain_end err r) ∙ rw drain_end-buffer refl
flow_lem (ask n ∷ rest) r =
    append_assoc (got (read n r).0) (flow rest (read n r).1).0 (flow rest (read n r).1).1.buffer
    ∙ ap (λ t. got (read n r).0 ++ t) (flow_lem rest (read n r).1)
    ∙ sym (append_assoc (got (read n r).0) (read n r).1.buffer (received rest))
    ∙ ap (λ t. t ++ received rest) (read-buffer n r)

-- A round without an error that leaves bytes in the buffer.
abbrev pub wakes : List (Text × Option Error) → Bool
wakes [] = false
wakes ((chunk, none) ∷ rest) = ltb 0 (length chunk) || wakes rest
wakes ((chunk, some e) ∷ rest) = false

drain_awake :
    (replies : List (Text × Option Error)) (r : ReadSeekCloseWrapper)
    → r.asleep ≡ false
    → (drain replies r).asleep ≡ false
unfolding drain drain_round
drain_awake [] r a = a
drain_awake ((chunk, some e) ∷ rest) r a = ground arith
drain_awake ((chunk, none) ∷ rest) r a =
    drain_awake rest (drain_round (chunk, none) r) (ground arith)

-- A reader that found the buffer empty sleeps on until the stream ends, unless a chunk comes in a
-- read without an error: bytes that come together with the end of the stream wake nobody.
pub drain-asleep :
    (replies : List (Text × Option Error)) (r : ReadSeekCloseWrapper)
    → r.asleep ≡ true
    → r.buffer ≡ []
    → (drain replies r).asleep ≡ not (wakes replies)
unfolding drain drain_round
drain-asleep [] r a b = a
drain-asleep ((chunk, some e) ∷ rest) r a b = ground arith
drain-asleep (([], none) ∷ rest) r a b =
    let still : drain_round ([], none) r ≡ r = ground arith in
    ap (λ (u : ReadSeekCloseWrapper). (drain rest u).asleep) still ∙ drain-asleep rest r a b
drain-asleep ((c ∷ chunk, none) ∷ rest) r a b =
    ground (arith, drain_awake rest (drain_round (c ∷ chunk, none) r))
