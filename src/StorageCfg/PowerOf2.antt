-- ===== src/StorageCfg/PowerOf2.antt =====
-- `is_power_of_2` and `round_up_to_rblock` of cfg_storage.c: the bit tricks and what they compute.
use Prim.Native.Nat.{bit_and}
use native.Mathlib.Nat.{pow-suc, mod_self}
use act.Common.{
  ℕ, zero, suc, ◌+◌, ◌-◌, ◌*◌, ◌/◌, ◌%◌, ◌^◌, ◌≤◌, ◌<◌, ◌≡◌, ◌⊎◌, ◌↔◌, inl, inr, refl, sym, ap, ap₂,
  ◌∙◌, true, arith, ℕ_discrete, ==→eq, eq→==,
}
use act.Common.Bits.{bit_and-ones, bit_and-shift, bit_and-pred_odd, bit_and-pred_even, zero-bit_and}
use act.Common.Word.{u32, sub32}
use act.StorageCfg.{is_power_of_2, rblock_size, round_up_to_rblock}

-- Halving a number whose lowest set bit is its only one.
power_fuel : (n v : ℕ) → v ≤ n → 0 < v → bit_and v (v - 1) ≡ 0 → (k : ℕ) × (v ≡ 2 ^ k)
power_fuel zero v h p e = absurd (omega arith)
power_fuel (suc n) v h p e = elim (ℕ_discrete (v % 2) 0) [
  | yes even ↦
      let u : ℕ = v / 2 in
      let twice : v ≡ u * 2 = omega arith in
      let (k, is) =
        power_fuel n u (omega arith) (omega arith)
          (omega (arith, bit_and-pred_even u (omega arith), ap (λ t. bit_and t (t - 1)) twice)) in
      (suc k, omega (arith, is, pow-suc 2 k))
  | no odd ↦
      let u : ℕ = v / 2 in
      let twice : v ≡ u * 2 + 1 = omega arith in
      let pred : v - 1 ≡ u * 2 = omega arith in
      (0, omega (arith, bit_and-pred_odd u, ap₂ bit_and twice pred))
]

power_value : (k v : ℕ) → v ≡ 2 ^ k → bit_and v (v - 1) ≡ 0
power_value k v e = ap (λ t. bit_and t (t - 1)) e ∙ bit_and-ones k (2 ^ k) ∙ mod_self (2 ^ k)

-- For a 32-bit value the test is true exactly of 0 and the powers of 2.
pub is_power_of_2_iff :
    (value : ℕ)
    → value < 2 ^ 32
    → (is_power_of_2 value ≡ true) ↔ ((value ≡ 0) ⊎ ((k : ℕ) × (value ≡ 2 ^ k)))
unfolding is_power_of_2
is_power_of_2_iff zero h = (λ e. inl refl, λ p. eq→== _ 0 (zero-bit_and (sub32 0 1)))
is_power_of_2_iff (suc v) h = (
  λ e. inr (power_fuel (suc v) (suc v) (omega arith) (omega arith) (sym same ∙ ==→eq _ 0 e)),
  λ p. eq→== _ 0 (same ∙ value p),
)
  where
    same : bit_and (suc v) (sub32 (suc v) 1) ≡ bit_and (suc v) (suc v - 1)
    same = ap (bit_and (suc v)) (omega arith)

    value : (suc v ≡ 0) ⊎ ((k : ℕ) × (suc v ≡ 2 ^ k)) → bit_and (suc v) (suc v - 1) ≡ 0
    value (inl z) = absurd (omega arith)
    value (inr (k, e)) = power_value k (suc v) e

-- The mask cuts the low four bits off.
round_up_to_rblock-masked :
    (size : ℕ) → round_up_to_rblock size ≡ u32 (size + 15) / 16 % 2 ^ 28 * 16
unfolding round_up_to_rblock
round_up_to_rblock-masked size =
    bit_and-shift 4 (u32 (size + 15)) (2 ^ 28 - 1)
    ∙ ap (λ t. t * 16) (bit_and-ones 28 (u32 (size + 15) / 16))

pub round_up_to_rblock-small : (size : ℕ) → round_up_to_rblock size < 2 ^ 32
round_up_to_rblock-small size = omega (arith, round_up_to_rblock-masked size)

-- Below 2 ^ 32 - 15 a size is rounded up to the next multiple of 16.
pub round_up_to_rblock_lem :
    (size : ℕ)
    → size + 15 < 2 ^ 32
    → (round_up_to_rblock size % rblock_size ≡ 0)
      × (size ≤ round_up_to_rblock size)
      × (round_up_to_rblock size < size + rblock_size)
round_up_to_rblock_lem size h = omega (arith, round_up_to_rblock-masked size)
