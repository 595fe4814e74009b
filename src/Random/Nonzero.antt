-- ===== src/Random/Nonzero.antt =====
-- The seeds of the generator of random.c: their width, and the state that is all zeros.
use act.Common.{ℕ, ◌*◌, ◌/◌, ◌^◌, ◌<◌, ◌≡◌, sym, ap, ◌∙◌, arith}
use act.Common.Word.{u64}
use act.Common.Xor.{bit_xor-lt, bit_or-lt, bit_xor-zero, eq_of_xor}
use Prim.Native.Nat.{bit_xor}
use act.Random.{Seeds, rand_seed_thread, mix, advance, xorshift128plus}

pub record IsValid (s : Seeds) : Type 0 where
  pub wide0 : s.seed0 < 2 ^ 64
  pub wide1 : s.seed1 < 2 ^ 64

abbrev pub IsZero : Seeds → Type 0
IsZero s = (s.seed0 ≡ 0) × (s.seed1 ≡ 0)

-- From results of `rand` below 2 ^ 31 the seeds have 64 bits.
pub rand_seed_thread-IsValid :
    (a b c d : ℕ)
    → a < 2 ^ 31
    → b < 2 ^ 31
    → c < 2 ^ 31
    → d < 2 ^ 31
    → IsValid (rand_seed_thread a b c d)
unfolding rand_seed_thread
rand_seed_thread-IsValid a b c d ha hb hc hd = record {
  wide0 = bit_or-lt 64 _ _ (omega arith) (omega arith);
  wide1 = bit_or-lt 64 _ _ (omega arith) (omega arith);
}

-- A word that equals its own left shift is zero.
shift_zero : (a : ℕ) → a < 2 ^ 64 → a ≡ u64 (a * 2 ^ 23) → a ≡ 0
shift_zero a h e = omega arith

advance-IsValid : {s : Seeds} → IsValid s → IsValid (advance s)
unfolding advance
advance-IsValid {s} v = record {
  wide0 = v.wide1;
  wide1 =
      bit_xor-lt 64 _ _ (bit_xor-lt 64 _ _ (bit_xor-lt 64 _ _ wide v.wide1) (omega (arith, wide)))
        (omega (arith, v.wide1));
}
  where
    wide : bit_xor s.seed0 (u64 (s.seed0 * 2 ^ 23)) < 2 ^ 64
    wide = bit_xor-lt 64 _ _ v.wide0 (omega arith)

-- If the new state is zero, so is the old one.
IsZero-of_advance : {s : Seeds} → IsValid s → IsZero (advance s) → IsZero s
unfolding advance
IsZero-of_advance {s} v (z0, z1) = (shift_zero s.seed0 v.wide0 (eq_of_xor _ _ mixed), z0)
  where
    t : ℕ
    t = bit_xor s.seed0 (u64 (s.seed0 * 2 ^ 23))

    cleared : mix t s.seed1 ≡ bit_xor t (t / 2 ^ 17)
    cleared =
        ap (mix t) z0
        ∙ bit_xor-zero (bit_xor (bit_xor t 0) (t / 2 ^ 17))
        ∙ ap (λ w. bit_xor w (t / 2 ^ 17)) (bit_xor-zero t)

    mixed : t ≡ 0
    mixed = omega (arith, eq_of_xor t (t / 2 ^ 17) (sym cleared ∙ z1))

-- From seeds of 64 bits that are not both zero, a step gives a 64-bit number and seeds of 64 bits that
-- are not both zero.
pub xorshift128plus_lem :
    (s : Seeds)
    → IsValid s
    → ¬ IsZero s
    → let (n, s') = xorshift128plus s in (n < 2 ^ 64) × IsValid s' × (¬ IsZero s')
unfolding xorshift128plus
xorshift128plus_lem s v n = (omega arith, advance-IsValid v, λ z. n (IsZero-of_advance v z))
