-- ===== src/Instances/Rate.antt =====
-- apptail/config.go: how many lines a tailer may read.
use logyard_apps.Prelude.{ℕ, ◌+◌, ◌*◌, ◌/◌, ◌≤◌, ◌<◌, ◌≡◌, ltb, if◌then◌else◌, arith}
use logyard_apps.Prelude.Int.{ℤ, pos, pos_part, ltb_ℤ}

pub record Config : Type 0 where
  pub max_record_size : ℤ
  pub max_lines_per_second : ℤ
  pub max_lines_burst : ℕ  -- uint16
  pub file_size_limit : ℤ
  pub persist_position_interval_seconds : ℤ

-- time.Second
abbrev pub second : ℕ
second = 1000000000

abbrev pub rate_of : Config → ℕ
rate_of c = if ltb_ℤ c.max_lines_per_second (pos 1) then 100 else pos_part c.max_lines_per_second

-- The arguments of `NewLeakyBucket`: the size of a burst, and the nanoseconds between two lines.
pub record LeakyBucket : Type 0 where
  pub size : ℕ
  pub interval : ℕ

unfoldable pub get_leaky_bucket : Config → LeakyBucket
get_leaky_bucket c = record {
  size = if ltb c.max_lines_burst 1 then 10000 else c.max_lines_burst;
  interval = second / rate_of c;
}

rate_pos : (c : Config) → 0 < rate_of c
rate_pos c = ground arith

div_bounds : (n r : ℕ) → 0 < r → (n / r * r ≤ n) × (n < (n / r + 1) * r)
div_bounds n r h = grind arith

-- Whatever the configuration says, the bucket has room for a line, its interval is the largest for
-- which no less than the configured lines fit into a second, and the interval is 0, so that there is
-- no limit, exactly for rates of more than one line for each nanosecond.
get_leaky_bucket_bounds :
    (c : Config)
    → (0 < (get_leaky_bucket c).size)
      × ((get_leaky_bucket c).interval * rate_of c ≤ second)
      × (second < ((get_leaky_bucket c).interval + 1) * rate_of c)
      × ((get_leaky_bucket c).interval ≡ 0 → second < rate_of c)
      × (second < rate_of c → (get_leaky_bucket c).interval ≡ 0)
unfolding get_leaky_bucket
get_leaky_bucket_bounds c =
    let (low, high) = div_bounds second (rate_of c) (rate_pos c) in
    (ground arith, low, high, λ z. omega (arith, (rw z at high)), λ z. grind arith)
