-- ===== src/Histogram.antt =====
-- src/common/histogram.c and histogram.h: counters of time intervals, one for each power of two.
pub mod Msb
pub mod Insert
pub mod Dump
use Prim.Native.Nat.{bit_and}
use act.Common.{
  ℕ, zero, suc, ◌+◌, ◌-◌, ◌*◌, ◌/◌, ◌%◌, Bool, true, false, Option, none, some, List, [], ◌∷◌, ◌++◌,
  ◌==◌, ltb, leb, if◌then◌else◌,
}
use act.Common.Lists.{get_or, set, replicate}
use act.Common.Word.{u64}

abbrev pub n_buckets : ℕ
n_buckets = 1 + 64

-- HIST_MILLISECONDS, HIST_MICROSECONDS, and any other value.
pub data HistogramScale : Type 0 where
  milliseconds microseconds scale_max_plus_1 : HistogramScale

pub record Histogram : Type 0 where
  pub time_div : ℕ
  pub counts : List ℕ

abbrev pub byte_msb_table : List ℕ
byte_msb_table =
    0 ∷ 1 ∷ 2 ∷ 2 ∷ 3 ∷ 3 ∷ 3 ∷ 3 ∷ replicate 8 4
    ++ replicate 16 5
    ++ replicate 32 6
    ++ replicate 64 7
    ++ replicate 128 8

-- BYTE_MSB[n].
pub byte_msb : ℕ → ℕ
byte_msb n = get_or byte_msb_table n 0

-- `malloced` says whether the histogram could be allocated; `none` is NULL.
unfoldable pub histogram_create : Bool → HistogramScale → Option Histogram
histogram_create false scale = none
histogram_create true milliseconds =
    some (record { time_div = 1000 * 1000; counts = replicate n_buckets 0 })
histogram_create true microseconds =
    some (record { time_div = 1000; counts = replicate n_buckets 0 })
histogram_create true scale_max_plus_1 = none

-- The loop of `msb` on fuel; `none` means that the fuel ran out.
pub msb_loop : ℕ → ℕ → ℕ → Option ℕ
msb_loop zero shift n = none
msb_loop (suc fuel) shift n =
    let rest = msb_loop fuel (shift + 8) (n / 256) in
    if n / 256 == 0 then some (shift + byte_msb n) else rest

abbrev pub from_loop : Option ℕ → ℕ
from_loop none = 0
from_loop (some k) = k

-- Eight rounds for the eight bytes of a uint64_t.
pub msb : ℕ → ℕ
msb n = from_loop (msb_loop 8 0 n)

pub bucket_of : Histogram → ℕ → ℕ
bucket_of h delta_ns =
    let delta_t = delta_ns / h.time_div in if delta_t == 0 then 0 else msb delta_t

pub histogram_insert_data_point : Histogram → ℕ → Histogram
histogram_insert_data_point h delta_ns =
    let bucket = bucket_of h delta_ns in
    record h { counts = set h.counts bucket (u64 (get_or h.counts bucket 0 + 1)) }
