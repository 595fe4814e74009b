-- ===== src/Histogram/Msb.antt =====
-- `msb` of histogram.c: the position of the highest set bit, by bytes.
use native.Mathlib.Nat.{pow-suc, pow-le-pow_right, add_comm}
use native.Mathlib.Numerals.{towards_suc}
use act.Common.{
  false, if◌then◌else◌, ℕ, zero, suc, ◌+◌, ◌*◌, ◌/◌, ◌^◌, ◌≤◌, ◌<◌, ◌≡◌, refl, ap, ◌∙◌, ◌≢◌, inl,
  inr, Bool, true, ◌&&◌, some, arith, dec_lt, Bool-cases, ◌==◌, ltb, leb, ==→eq, ==_false→ne,
}
use act.Histogram.{byte_msb, msb_loop, msb}

-- `k` bits are enough for `n`, and no fewer are. At 0 this says `k ≡ 0`.
abbrev pub IsMsb : ℕ → ℕ → Type 0
IsMsb k n = (n < 2 ^ k) × (2 ^ k ≤ 2 * n + 1)

-- Every entry of a table of `top` entries passes a test.
entries_pass : (ℕ → Bool) → ℕ → Bool
entries_pass test zero = true
entries_pass test (suc top) =
    let others = entries_pass test top in if test top then others else false

entry_lem : (test : ℕ → Bool) (top n : ℕ) → n < top → entries_pass test top ≡ true → test n ≡ true
unfolding entries_pass
entry_lem test zero n p e = absurd (omega arith)
entry_lem test (suc top) n p e = ground (arith, entry_lem test top n)

abbrev is_msb : ℕ → Bool
is_msb n = ltb n (2 ^ byte_msb n) && leb (2 ^ byte_msb n) (2 * n + 1)

whole_table : entries_pass is_msb 256 ≡ true
unfolding entries_pass byte_msb
whole_table = refl

byte_msb-IsMsb : (n : ℕ) → n < 256 → IsMsb (byte_msb n) n
byte_msb-IsMsb n h = let e = entry_lem is_msb 256 n h whole_table in ground arith

pow_eight : (k : ℕ) → 2 ^ (8 + k) ≡ 256 * 2 ^ k
pow_eight k = ap (λ t. 2 ^ t) (add_comm 8 k) ∙ simp towards_suc (omega arith)

-- One byte more below a number that is not zero.
IsMsb-byte : (k n : ℕ) → n / 256 ≢ 0 → IsMsb k (n / 256) → IsMsb (8 + k) n
IsMsb-byte zero n h m = absurd (omega arith)
IsMsb-byte (suc k) n h m = omega (arith, pow_eight (suc k), pow-suc 2 k)

msb_loop_lem :
    (fuel shift n : ℕ)
    → n < 256 ^ fuel
    → 0 < fuel
    → (k : ℕ) × (msb_loop fuel shift n ≡ some (shift + k)) × IsMsb k n
unfolding msb_loop
msb_loop_lem zero shift n h p = absurd (omega arith)
msb_loop_lem (suc zero) shift n h p =
    (byte_msb n, ground (arith, last), byte_msb-IsMsb n (omega arith))
  where
    last : n / 256 ≡ 0
    last = omega arith
msb_loop_lem (suc (suc fuel)) shift n h p = elim (Bool-cases (n / 256 == 0)) [
  | inl last ↦ (byte_msb n, rw last, byte_msb-IsMsb n (omega (arith, ==→eq _ _ last)))
  | inr more ↦
      let (k, e, m) = msb_loop_lem (suc fuel) (shift + 8) (n / 256) below (omega arith) in
      (8 + k, rw more (e ∙ ap some (omega arith)), IsMsb-byte k n (==_false→ne _ _ more) m)
]
  where
    below : n / 256 < 256 ^ suc fuel
    below = omega (arith, pow-suc 256 (suc fuel))

-- Eight rounds are enough for a 64-bit number, and the result is the position of its highest set
-- bit, counted from 1; it is 0 at 0 and at most 64.
pub msb_lem :
    (n : ℕ) → n < 2 ^ 64 → (msb_loop 8 0 n ≡ some (msb n)) × IsMsb (msb n) n × (msb n ≤ 64)
unfolding msb
msb_lem n h =
    let (k, e, m) = msb_loop_lem 8 0 n h (omega arith) in
    let e' : msb_loop 8 0 n ≡ some k = e ∙ ap some (omega arith) in
    (rw e' refl, rw e' m, rw e' (small k m))
  where
    small : (k : ℕ) → IsMsb k n → k ≤ 64
    small k m = elim (dec_lt 64 k) [
      | yes l ↦ absurd (omega (arith, pow-le-pow_right {n = 2} (omega arith) {i = 65} {j = k} l))
      | no l ↦ omega arith
    ]
