-- ===== src/Clock.antt =====
-- src/common/clock.h: the time of the monotonic clock in three units.
use act.Common.{ℕ, ◌+◌, ◌*◌, ◌/◌, ◌^◌, ◌<◌, ◌≡◌, arith}
use act.Common.Word.{u64}

-- `struct timespec`, as `clock_gettime` fills it.
pub record Timespec : Type 0 where
  pub tv_sec : ℕ
  pub tv_nsec : ℕ

pub get_ms : Timespec → ℕ
get_ms ts = u64 (ts.tv_nsec / 1000000 + u64 (ts.tv_sec * 1000))

pub get_us : Timespec → ℕ
get_us ts = u64 (ts.tv_nsec / 1000 + u64 (ts.tv_sec * 1000000))

pub get_ns : Timespec → ℕ
get_ns ts = u64 (ts.tv_nsec + u64 (ts.tv_sec * 1000000000))

-- Until the nanoseconds pass 2 ^ 64 the three times are that of one clock, rounded down.
pub get_us-get_ns :
    (ts : Timespec)
    → ts.tv_nsec < 1000000000
    → ts.tv_sec * 1000000000 + ts.tv_nsec < 2 ^ 64
    → (get_us ts ≡ get_ns ts / 1000) × (get_ms ts ≡ get_ns ts / 1000000)
unfolding get_us get_ns get_ms
get_us-get_ns ts valid small = (omega (arith, valid, small), omega (arith, valid, small))
