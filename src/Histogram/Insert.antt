-- ===== src/Histogram/Insert.antt =====
-- `histogram_create` and `histogram_insert_data_point` of histogram.c.
use native.Mathlib.Nat.{
  div-le_self, lt-mul-div-succ, div-mul-le_self, mul-le-mul_left, mul-le-mul_right, pow-suc,
}
use act.Common.{
  ℕ, zero, suc, ◌+◌, ◌-◌, ◌*◌, ◌/◌, ◌^◌, ◌≤◌, ◌<◌, ◌≡◌, refl, sym, ap, ◌∙◌, ◌⊎◌, inl, inr, Bool,
  true, false, some, arith, Bool-cases, ◌==◌, ==→eq, ==_false→ne, if◌then◌else◌,
}
use act.Common.Lists.{length, get_or, length-set, get_or-set_self, get_or-set_ne}
use act.Common.Word.{u64}
use act.Histogram.{
  Histogram, HistogramScale, n_buckets, histogram_create, bucket_of, histogram_insert_data_point,
  msb,
}
use act.Histogram.Msb.{IsMsb, msb_lem}

pub record IsValid (h : Histogram) : Type 0 where
  pub positive : 0 < h.time_div
  pub buckets : length h.counts ≡ n_buckets

-- Bucket 0 holds the intervals below one time unit, bucket `b` those from 2 ^ (b - 1) units up to
-- 2 ^ b units.
abbrev pub Holds : Histogram → ℕ → ℕ → Type 0
Holds h b delta_ns =
    (delta_ns < 2 ^ b * h.time_div) × ((b ≡ 0) ⊎ (2 ^ (b - 1) * h.time_div ≤ delta_ns))

-- A histogram that is created has a time unit that is not 0, and all its buckets.
pub histogram_create-IsValid :
    (malloced : Bool) (scale : HistogramScale) (h : Histogram)
    → histogram_create malloced scale ≡ some h
    → IsValid h
unfolding histogram_create
histogram_create-IsValid true HistogramScale.milliseconds h e = ground arith
histogram_create-IsValid true HistogramScale.microseconds h e = ground arith
histogram_create-IsValid true HistogramScale.scale_max_plus_1 h e = cc
histogram_create-IsValid false HistogramScale.milliseconds h e = cc
histogram_create-IsValid false HistogramScale.microseconds h e = cc
histogram_create-IsValid false HistogramScale.scale_max_plus_1 h e = cc

-- The position of the highest bit of the number of time units bounds the interval itself.
Holds-units : (h : Histogram) (k d : ℕ) → 0 < h.time_div → IsMsb k (d / h.time_div) → Holds h k d
Holds-units h zero d p m =
    (omega (arith, lt-mul-div-succ d p, ap (λ t. h.time_div * t) (omega_zero m.0)), inl refl)
  where
    omega_zero : d / h.time_div < 2 ^ 0 → d / h.time_div + 1 ≡ 1
    omega_zero l = omega arith
Holds-units h (suc k) d p m = (
  omega (
    arith,
    lt-mul-div-succ d p,
    mul-le-mul_left {m = d / h.time_div + 1} {n = 2 ^ suc k} h.time_div (omega arith),
  ),
  inr (
      rw here (
        omega (
          arith,
          div-mul-le_self d h.time_div,
          mul-le-mul_right {m = 2 ^ k} {n = d / h.time_div} h.time_div lower,
        ))),
)
  where
    here : suc k - 1 ≡ k
    here = omega arith

    lower : 2 ^ k ≤ d / h.time_div
    lower = omega (arith, m.1, pow-suc 2 k)

bucket_of_lem :
    (h : Histogram) (delta_ns : ℕ)
    → IsValid h
    → delta_ns < 2 ^ 64
    → (bucket_of h delta_ns ≤ 64) × Holds h (bucket_of h delta_ns) delta_ns
unfolding bucket_of
bucket_of_lem h d v l = elim (Bool-cases (d / h.time_div == 0)) [
  | inl z ↦ rw z (omega arith, Holds-units h 0 d v.positive (omega (arith, ==→eq _ _ z)))
  | inr n ↦
      let (_, m, small) = msb_lem (d / h.time_div) (omega (arith, div-le_self d h.time_div)) in
      rw n (small, Holds-units h (msb (d / h.time_div)) d v.positive m)
]

-- An interval of less than 2 ^ 64 ns goes to the one bucket whose range holds it: its count goes up by
-- one, modulo 2 ^ 64, and the others stay. A valid histogram stays valid.
pub histogram_insert_lem :
    (h : Histogram) (delta_ns : ℕ)
    → IsValid h
    → delta_ns < 2 ^ 64
    → let h' = histogram_insert_data_point h delta_ns in
      IsValid h'
      × (h'.time_div ≡ h.time_div)
      × ((b : ℕ) × (b < n_buckets)
          × Holds h b delta_ns
          × ((c : ℕ)
              → get_or h'.counts c 0
                ≡ (if b == c then u64 (get_or h.counts c 0 + 1) else get_or h.counts c 0)))
unfolding histogram_insert_data_point
histogram_insert_lem h d v l =
    let (small, holds) = bucket_of_lem h d v l in
    (
      record { positive = v.positive; buckets = length-set h.counts (bucket_of h d) _ ∙ v.buckets },
      refl,
      (bucket_of h d, omega arith, holds, counted),
    )
  where
    slots : bucket_of h d < length h.counts
    slots = omega (arith, bucket_of_lem h d v l, v.buckets)

    count : ℕ → ℕ
    count c = get_or (histogram_insert_data_point h d).counts c 0

    counted :
        (c : ℕ)
        → count c
          ≡ (if bucket_of h d == c then u64 (get_or h.counts c 0 + 1) else get_or h.counts c 0)
    counted c = elim (Bool-cases (bucket_of h d == c)) [
      | inl hit ↦ rw hit (
          ap count (sym (==→eq _ _ hit))
          ∙ get_or-set_self h.counts (bucket_of h d) _ 0 slots
          ∙ ap (λ t. u64 (get_or h.counts t 0 + 1)) (==→eq _ _ hit))
      | inr miss ↦ rw miss (get_or-set_ne h.counts (bucket_of h d) c _ 0 (==_false→ne _ _ miss))
    ]
