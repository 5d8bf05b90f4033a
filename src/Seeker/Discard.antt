-- ===== src/Seeker/Discard.antt =====
-- Seeking from the end keeps the last bytes.
use Prim.Native.Nat.{min}
use logyard_apps.Prelude.{
  inr, inl, Bool-cases, take-append-drop, take, ◌⊎◌, ◌≢◌, length-drop, lt→ltb, drop_all, sym, ap, ℕ,
  zero, suc, ◌-◌, ◌%◌, ◌≤◌, ◌<◌, ◌≡◌, refl, true, none, some, ◌++◌, arith, length, drop,
}
use logyard_apps.Prelude.Text.{codes, Text}
use logyard_apps.Prelude.Int.{ltb_ℤ, neg, ℤ, pos, negsuc, pos_part, ◌+ℤ◌}
use logyard_apps.Seeker.{Error, is_two, ReadSeekCloseWrapper, discard_loop, max_int, seek}

-- Two rounds suffice for the loop: it discards everything in one, and tests once more.
discard_loop_lem :
    (fuel discard : ℕ) (buffer : Text)
    → 2 ≤ fuel
    → discard < max_int
    → discard_loop fuel discard buffer ≡ some (drop discard buffer)
unfolding discard_loop
discard_loop_lem zero discard buffer f h = absurd (omega arith)
discard_loop_lem (suc zero) discard buffer f h = absurd (omega arith)
discard_loop_lem (suc (suc fuel)) zero buffer f h = refl
discard_loop_lem (suc (suc fuel)) (suc discard) buffer f h =
    let all : suc discard % max_int ≡ suc discard = omega arith in
    let none_left : suc discard - suc discard ≡ 0 = omega arith in
    rw (lt→ltb 0 (suc discard) (omega arith)) (rw all (rw none_left refl))

discard_of : (len back : ℕ) → pos_part (pos len +ℤ negsuc back) ≡ len - suc back
unfolding ◌+ℤ◌
discard_of len back = ground arith

-- Where the wrapper's buffer is left after a seek to `back` bytes before the end.
abbrev pub kept : ℕ → Text → Text
kept back buffer = drop (length buffer - back) buffer

-- A seek from the end to `back` bytes before it returns without an error and keeps exactly the last
-- `back` bytes, or the whole buffer if it is shorter: the discarding loop ends after two tests,
-- because the buffer is no longer than the largest `int`.
pub seek_back :
    (fuel back : ℕ) (r : ReadSeekCloseWrapper)
    → 2 ≤ fuel
    → length r.buffer ≤ max_int
    → seek fuel (neg (pos back)) (pos 2) r ≡ some (none, record r { buffer = kept back r.buffer })
unfolding seek
seek_back fuel zero r f h =
    ap (λ (b : Text). some (none, record r { buffer = b }))
      (sym (drop_all (length r.buffer - 0) r.buffer (omega arith)))
seek_back fuel (suc back) r f h = ground (
  arith,
  discard_of (length r.buffer) back,
  discard_loop_lem fuel (length r.buffer - suc back) r.buffer f (omega arith),
)

-- What a seek from the end keeps: as many bytes as were asked for, or all; and they are the last.
pub kept_lem :
    (back : ℕ) (buffer : Text)
    → (length (kept back buffer) ≡ min back (length buffer))
      × ((front : Text) × (front ++ kept back buffer ≡ buffer))
kept_lem back buffer = (
  omega (arith, length-drop (length buffer - back) buffer),
  (take (length buffer - back) buffer, take-append-drop (length buffer - back) buffer),
)

-- A seek from the end to `back` bytes before it returns without an error and keeps exactly the last
-- `back` bytes of the buffer, or all of a shorter buffer. Fuel for two tests of the discarding loop
-- is enough, because the buffer is no longer than the largest `int`.
pub seek_keeps_last :
    (fuel back : ℕ) (r : ReadSeekCloseWrapper)
    → 2 ≤ fuel
    → length r.buffer ≤ max_int
    → (front : Text) × (last : Text) × (seek fuel (neg (pos back)) (pos 2) r
        ≡ some (none, record r { buffer = last }))
      × (front ++ last ≡ r.buffer)
      × (length last ≡ min back (length r.buffer))
seek_keeps_last fuel back r f h =
    let (size, (front, whole)) = kept_lem back r.buffer in
    (front, kept back r.buffer, seek_back fuel back r f h, whole, size)

is_two→eq : (whence : ℤ) → is_two whence ≡ true → whence ≡ pos 2
is_two→eq (pos n) h = ground arith
is_two→eq (negsuc n) h = cc

-- Any other seek returns an error and leaves the wrapper as it is.
seek_refused :
    (fuel : ℕ) (offset whence : ℤ) (r : ReadSeekCloseWrapper)
    → (whence ≢ pos 2) ⊎ (ltb_ℤ (pos 0) offset ≡ true)
    → (e : Error) × (seek fuel offset whence r ≡ some (some e, r))
unfolding seek
seek_refused fuel offset whence r h = elim (Bool-cases (is_two whence)) [
  | inl two ↦ (codes "Seeking past EOF not supported", ground (arith, is_two→eq whence))
  | inr other ↦ (codes "Seeking not implemented", ground arith)
]
