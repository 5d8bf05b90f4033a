-- ===== src/Instances/Tailers/Streams.antt =====
-- A log stream of docker, behind the wrapper of apptail/util/seeker.go.
use logyard_apps.Prelude.{ℕ, ◌≤◌, ◌≡◌, none, some, List, ◌++◌, length, arith}
use Prim.Native.Nat.{min}
use logyard_apps.Prelude.Text.{Text}
use logyard_apps.Prelude.Int.{ℤ, pos, neg}
use logyard_apps.Prelude.Run.{ok, done}
use logyard_apps.Seeker.{ReadSeekCloseWrapper, max_int, seek}
use logyard_apps.Seeker.Discard.{seek_keeps_last}
use logyard_apps.Instances.Limit.{Notice}
use logyard_apps.Instances.Tail.{SeekInfo, Whence, seek_set, seek_end}
use logyard_apps.Instances.Tailers.{Client, tail_stream_start, with_limit, with_status}

-- os.SEEK_SET and os.SEEK_END
abbrev pub whence_number : Whence → ℤ
whence_number seek_set = pos 0
whence_number seek_end = pos 2

started_at :
    (client : Client) (docker_id stream : Text) (k : ℕ) (n n' : List Notice) (at : SeekInfo)
    → tail_stream_start client docker_id stream (done (ok (pos k), n)) ≡ done (some at, n')
    → at ≡ record { offset = neg (pos k); whence = seek_end }
unfolding tail_stream_start with_limit with_status
started_at client docker_id stream k n n' at h = ground (arith, h)

-- A stream that is tailed starts where the wrapper lets it: the seek to the start that `tailStream`
-- gives for a limit of `k` bytes ends without an error, and leaves exactly the last `k` bytes that
-- have come, or all of them.
seek-tail_stream_start :
    (client : Client) (docker_id stream : Text) (k : ℕ) (n n' : List Notice) (at : SeekInfo)
    (r : ReadSeekCloseWrapper)
    → tail_stream_start client docker_id stream (done (ok (pos k), n)) ≡ done (some at, n')
    → length r.buffer ≤ max_int
    → (front : Text) × (last : Text) × (seek 2 at.offset (whence_number at.whence) r
        ≡ some (none, record r { buffer = last }))
      × (front ++ last ≡ r.buffer)
      × (length last ≡ min k (length r.buffer))
seek-tail_stream_start client docker_id stream k n n' at r h small =
    rw (started_at client docker_id stream k n n' at h) (seek_keeps_last 2 k r (omega arith) small)
