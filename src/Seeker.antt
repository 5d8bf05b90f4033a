-- ===== src/Seeker.antt =====
-- apptail/util/seeker.go: a buffer in front of a stream, drained by a goroutine and read by another.
-- The condition variable is the flag `asleep`: a reader that found the buffer empty sleeps until a
-- broadcast. The results of the underlying reader are a parameter. `int` has 64 bits.
-- Each method of `bytes.Buffer` is one step here. The code does not ensure that: `Drain` writes into
-- the buffer, and `Seek` empties it, without the lock that `Read` holds.
pub mod Flow
pub mod Discard
use logyard_apps.Prelude.{
  ℕ, zero, suc, ◌+◌, ◌-◌, ◌%◌, ◌^◌, ◌≡◌, Bool, true, false, not, Option, none, some, List, [], ◌∷◌,
  ◌++◌, ltb, nat_eq, length, take, drop, if◌then◌else◌,
}
use logyard_apps.Prelude.Text.{Text, codes}
use logyard_apps.Prelude.Int.{ℤ, pos, negsuc, pos_part, ltb_ℤ, ◌+ℤ◌}
use logyard_apps.Prelude.Run.{Error}

pub record ReadSeekCloseWrapper : Type 0 where
  pub buffer : Text
  pub asleep : Bool
  pub ended : Bool  -- the drain goroutine has returned

unfoldable pub wrap_read_seek_close : ReadSeekCloseWrapper
wrap_read_seek_close = record { buffer = []; asleep = false; ended = false }

broadcast : ReadSeekCloseWrapper → ReadSeekCloseWrapper
broadcast r = record r { asleep = false }

-- The tail of a round of `Drain`: `err2`, of a write to memory, is always nil.
unfoldable pub drain_end : Option Error → ReadSeekCloseWrapper → ReadSeekCloseWrapper
unfolding broadcast
drain_end (some e) r = record r { ended = true }
drain_end none r = if ltb 0 (length r.buffer) then broadcast r else r

-- The write into the buffer.
unfoldable pub write_chunk : Text → ReadSeekCloseWrapper → ReadSeekCloseWrapper
write_chunk chunk r = if ltb 0 (length chunk) then record r { buffer = r.buffer ++ chunk } else r

-- One round of `Drain`, for what `Read` returned, where no reader comes between its two steps.
unfoldable pub drain_round : Text × Option Error → ReadSeekCloseWrapper → ReadSeekCloseWrapper
unfolding drain_end write_chunk
drain_round (chunk, err) r = drain_end err (write_chunk chunk r)

-- The loop of `Drain`, which ends at the first error.
unfoldable pub drain : List (Text × Option Error) → ReadSeekCloseWrapper → ReadSeekCloseWrapper
drain [] r = r
drain ((chunk, none) ∷ rest) r = drain rest (drain_round (chunk, none) r)
drain ((chunk, some e) ∷ rest) r = drain_round (chunk, some e) r

-- `Read` into a slice of `n` bytes; `none` means that the reader waits.
unfoldable pub read : ℕ → ReadSeekCloseWrapper → Option Text × ReadSeekCloseWrapper
unfolding broadcast
read n r =
    if ltb (length r.buffer) 1
    then (none, record r { asleep = true })
    else let rest = drop n r.buffer in
      let r' = record r { buffer = rest; asleep = false } in
      (some (take n r.buffer), if ltb 0 (length rest) then broadcast r' else r')

abbrev pub max_int : ℕ
max_int = 2 ^ 63 - 1

-- The loop of `Seek` that discards in chunks; `none` means that the fuel ran out.
unfoldable pub discard_loop : ℕ → ℕ → Text → Option Text
discard_loop zero discard buffer = none
discard_loop (suc fuel) discard buffer =
    let chunk_size = discard % max_int in
    let rest = discard_loop fuel (discard - chunk_size) (drop chunk_size buffer) in
    if ltb 0 discard then rest else some buffer

abbrev is_two : ℤ → Bool
is_two (pos n) = nat_eq n 2
is_two (negsuc n) = false

abbrev is_zero : ℤ → Bool
is_zero (pos n) = nat_eq n 0
is_zero (negsuc n) = false

keep : ReadSeekCloseWrapper → Option Text → Option (Option Error × ReadSeekCloseWrapper)
keep r none = none
keep r (some buffer) = some (none, record r { buffer = buffer })

-- `Seek`: the error and the new state, or `none` where the loop does not end within the fuel.
unfoldable pub seek :
    ℕ → ℤ → ℤ → ReadSeekCloseWrapper → Option (Option Error × ReadSeekCloseWrapper)
unfolding keep
seek fuel offset whence r =
    if not (is_two whence)
    then some (some (codes "Seeking not implemented"), r)
    else if ltb_ℤ (pos 0) offset
    then some (some (codes "Seeking past EOF not supported"), r)
    else if is_zero offset
    then some (none, record r { buffer = [] })
    else keep r (discard_loop fuel (pos_part (pos (length r.buffer) +ℤ offset)) r.buffer)
