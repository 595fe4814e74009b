-- ===== src/Tests/Commons.antt =====
-- The histograms, the random numbers and the transfers at concrete inputs.
use act.Common.{
  ℕ, ◌+◌, ◌-◌, ◌*◌, ◌%◌, ◌≤◌, ◌<◌, ◌≡◌, ◌^◌, refl, true, some, arith, ◌==◌, ltb, if◌then◌else◌,
}
use act.Common.Lists.{get_or, replicate}
use act.Common.Memory.{Bytes}
use act.Common.Word.{u64}
use act.Histogram.{
  Histogram, microseconds, n_buckets, histogram_create, histogram_insert_data_point, msb, msb_loop,
}
use act.Histogram.Msb.{IsMsb, msb_lem}
use act.Histogram.Insert.{IsValid, Holds, histogram_create-IsValid, histogram_insert_lem}
use act.Io.{pread_all}
use act.Io.Transfer.{Moved, pread_all-Moved}
use act.Random.{rand_fill, xorshift128plus}
use act.Random.Nonzero
use act.Random.Nonzero.{IsZero, xorshift128plus_lem}
use act.Random.Fill.{rand_fill_lem, state_after, words, output_byte}
use act.Tests.Given.{seeds, short_calls, short_calls-Bounded}

abbrev empty_histogram : Histogram
empty_histogram = record { time_div = 1000; counts = replicate n_buckets 0 }

creates : histogram_create true microseconds ≡ some empty_histogram
unfolding histogram_create
creates = refl

-- Five milliseconds.
histogram_insert_example :
    let h' = histogram_insert_data_point empty_histogram 5000000 in
    IsValid h'
    × (h'.time_div ≡ empty_histogram.time_div)
    × ((b : ℕ) × (b < n_buckets)
        × Holds empty_histogram b 5000000
        × ((c : ℕ)
            → get_or h'.counts c 0 ≡ (
                if b == c
                then u64 (get_or empty_histogram.counts c 0 + 1)
                else get_or empty_histogram.counts c 0)))
histogram_insert_example =
    histogram_insert_lem empty_histogram 5000000
      (histogram_create-IsValid true microseconds empty_histogram creates) (omega arith)

pread_all_example :
    Moved short_calls (λ i. 0) 0 (λ i. i) 100 10 (pread_all 11 short_calls (λ i. i) (λ i. 0) 10 100)
pread_all_example =
    pread_all-Moved 11 short_calls (λ i. i) (λ i. 0) 10 100 short_calls-Bounded (omega arith)
      (omega arith)

rand_fill_example :
    (m' : Bytes) × (rand_fill seeds (λ i. 0) 12 ≡ some (m', state_after (words 12) seeds))
    × ((x : ℕ) → m' x ≡ (if ltb x (8 * words 12) then output_byte seeds x else 0))
    × (8 * words 12 ≡ 12 + (8 - 12 % 8) % 8)
rand_fill_example = rand_fill_lem seeds (λ i. 0) 12

msb_example : (msb_loop 8 0 1000 ≡ some (msb 1000)) × IsMsb (msb 1000) 1000 × (msb 1000 ≤ 64)
msb_example = msb_lem 1000 (omega arith)

xorshift128plus_example :
    let (n, s') = xorshift128plus seeds in (n < 2 ^ 64) × Nonzero.IsValid s' × (¬ IsZero s')
xorshift128plus_example =
    xorshift128plus_lem seeds (record { wide0 = omega arith; wide1 = omega arith })
      (λ z. omega (arith, z))
