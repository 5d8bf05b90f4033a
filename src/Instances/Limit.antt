-- ===== src/Instances/Limit.antt =====
-- apptail/instance.go, `getReadLimit`: how much of a file is read, with the 64-bit product written
-- out. `stat` gives the size of a file.
use logyard_apps.Prelude.{
  ℕ, ◌-◌, ◌*◌, ◌%◌, ◌^◌, ◌<◌, ◌≡◌, false, not, List, [], ◌∷◌, ◌++◌, ltb, if◌then◌else◌, arith,
}
use logyard_apps.Prelude.Text.{Text, codes, ◌==◌}
use logyard_apps.Prelude.Int.{ℤ, pos, negsuc, ltb_ℤ}
use logyard_apps.Prelude.Run.{Error, Result, ok, err, Run, done, crash, bad_config}

-- The events that an instance sends to the timeline, by where they are sent.
pub data Notice : Type 0 where
  skipping_much : Text → ℤ → ℤ → Notice
  many_logs : List Text → Notice
  not_absolute : Text → Notice
  ignoring_path : Text → Notice
  no_log_files : Notice
  warning : Error → Notice
  cannot_tail : Text → Error → Notice
  tail_error : Text → Error → Notice

-- The 64 bits of an int64, and back.
abbrev pub bits : ℤ → ℕ
bits (pos n) = n % 2 ^ 64
bits (negsuc n) = 2 ^ 64 - 1 - n % 2 ^ 64

abbrev pub of_bits : ℕ → ℤ
of_bits b = if ltb b (2 ^ 63) then pos b else negsuc (2 ^ 64 - 1 - b)

-- `FileSizeLimit * 1024 * 1024`
unfoldable pub filesize_limit : ℤ → ℤ
filesize_limit read_limit = of_bits (bits read_limit * 2 ^ 20 % 2 ^ 64)

limit_of_size : Text → ℤ → ℤ → Result ℤ × List Notice
limit_of_size logname limit size =
    if ltb_ℤ limit size then (ok limit, skipping_much logname size limit ∷ []) else (ok size, [])

limit_of_stat : Text → Text → ℤ → Result ℤ → Result ℤ × List Notice
unfolding limit_of_size
limit_of_stat logname filename limit (err e) =
    (err (codes "Cannot stat file (" ++ filename ++ codes "); " ++ e), [])
limit_of_stat logname filename limit (ok size) = limit_of_size logname limit size

unfoldable pub get_read_limit : ℤ → (Text → Result ℤ) → Text → Text → Run (Result ℤ × List Notice)
unfolding limit_of_stat
get_read_limit read_limit stat logname filename =
    let limit = filesize_limit read_limit in
    if not (ltb_ℤ (pos 0) limit)
    then crash bad_config
    else if filename == []
    then done (ok limit, [])
    else done (limit_of_stat logname filename limit (stat filename))

filesize_limit_lem : (k : ℕ) → k < 2 ^ 43 → filesize_limit (pos k) ≡ pos (k * 2 ^ 20)
unfolding filesize_limit
filesize_limit_lem k h = ground (arith, h)

-- For a `read_limit` below 2^43 that is not 0, the limit of a file that can be read is its size, and
-- the configured number of megabytes where the size is greater, which is reported.
pub get_read_limit_lem :
    (k size : ℕ) (stat : Text → Result ℤ) (logname filename : Text)
    → 0 < k
    → k < 2 ^ 43
    → (filename == []) ≡ false
    → stat filename ≡ ok (pos size)
    → get_read_limit (pos k) stat logname filename ≡ (
        if ltb (k * 2 ^ 20) size
        then done (ok (pos (k * 2 ^ 20)), skipping_much logname (pos size) (pos (k * 2 ^ 20)) ∷ [])
        else done (ok (pos size), []))
unfolding get_read_limit limit_of_stat limit_of_size
get_read_limit_lem k size stat logname filename positive small named sized =
    rw (filesize_limit_lem k small) ground (arith, positive, named, sized)
