-- ===== src/Common/Bits.antt =====
-- `&` and `^` at variables: masks of low ones, shifted masks, and the lowest set bit.
use Prim.Native.Nat.{
  ℕ, zero, suc, ◌+◌, ◌-◌, ◌*◌, ◌/◌, ◌%◌, ◌^◌, ◌≤◌, ◌<◌, min, bit_and, digits, bit_and-bitwise,
}
use mathlib.Core.Path.{◌≡◌, refl, sym, ap, ap₂, ◌∙◌, ◌≡⟨◌⟩◌, ◌∎}
use native.Mathlib.Nat.{
  mul_comm, mul_assoc, mul-one, div-one, mod-one, pow-suc, mul-div_cancel, div-div-eq-div-mul,
  one-le-pow, mod-lt, mod-eq_of_lt, div-add-mod, mul-add-mod_self_left,
}
use native.Mathlib.Omega.{arith}
use act.Common.Digits.{bitwise-suc}

pub pow_pos : (k : ℕ) → 0 < 2 ^ k
pow_pos k = one-le-pow k 2 (omega arith)

pub zero-bit_and : (y : ℕ) → bit_and 0 y ≡ 0
zero-bit_and y = bit_and-bitwise 0 y

-- One digit at a time.
pub bit_and_step : (x y : ℕ) → min (x % 2) (y % 2) + bit_and (x / 2) (y / 2) * 2 ≡ bit_and x y
bit_and_step zero y = omega (arith, zero-bit_and (y / 2), zero-bit_and y)
bit_and_step (suc x) y = omega (
  arith,
  bit_and-bitwise (suc x) y,
  bitwise-suc (λ b. 0) min x y,
  bit_and-bitwise (suc x / 2) (y / 2),
)

no_digits : (k x : ℕ) → digits (λ b. 0) min k x 0 ≡ 0
no_digits zero x = refl
no_digits (suc k) zero = refl
no_digits (suc k) (suc x) = omega (arith, no_digits k (suc x / 2))

bit_and-zero : (x : ℕ) → bit_and x 0 ≡ 0
bit_and-zero x = bit_and-bitwise x 0 ∙ no_digits x x

-- One factor 2 of a mask moves out.
bit_and-double : (a m : ℕ) → bit_and a (m * 2) ≡ bit_and (a / 2) m * 2
bit_and-double a m = omega (
  arith,
  bit_and_step a (m * 2),
  ap (λ (b : ℕ). bit_and (a / 2) b * 2) (mul-div_cancel m {n = 2} (omega arith)),
)

-- A mask that is shifted left by `k`.
pub bit_and-shift : (k a m : ℕ) → bit_and a (m * 2 ^ k) ≡ bit_and (a / 2 ^ k) m * 2 ^ k
bit_and-shift zero a m =
    ap₂ bit_and (sym (div-one a)) (mul-one m) ∙ sym (mul-one (bit_and (a / 2 ^ 0) m))
bit_and-shift (suc k) a m =
    bit_and a (m * 2 ^ suc k)
    ≡⟨ ap (bit_and a) (ap (λ t. m * t) (pow-suc 2 k) ∙ sym (mul_assoc m (2 ^ k) 2)) ⟩
      bit_and a (m * 2 ^ k * 2)
    ≡⟨ bit_and-double a (m * 2 ^ k) ⟩ bit_and (a / 2) (m * 2 ^ k) * 2
    ≡⟨ ap (λ t. t * 2) (bit_and-shift k (a / 2) m) ⟩ bit_and (a / 2 / 2 ^ k) m * 2 ^ k * 2
    ≡⟨ mul_assoc (bit_and (a / 2 / 2 ^ k) m) (2 ^ k) 2
      ∙ ap₂ (λ s t. bit_and s m * t) quotient (sym (pow-suc 2 k)) ⟩
      bit_and (a / 2 ^ suc k) m * 2 ^ suc k ∎
  where
    quotient : a / 2 / 2 ^ k ≡ a / 2 ^ suc k
    quotient =
        div-div-eq-div-mul a 2 (2 ^ k) ∙ ap (λ t. a / t) (mul_comm 2 (2 ^ k) ∙ sym (pow-suc 2 k))

-- A mask of `k` ones keeps the low `k` bits.
pub bit_and-ones : (k a : ℕ) → bit_and a (2 ^ k - 1) ≡ a % 2 ^ k
bit_and-ones zero a = bit_and-zero a ∙ sym (mod-one a)
bit_and-ones (suc k) a = omega (
  arith,
  bit_and_step a (2 ^ suc k - 1),
  ap (λ (b : ℕ). bit_and (a / 2) b) half,
  bit_and-ones k (a / 2),
  pow-suc 2 k,
  pow_pos k,
  low,
)
  where
    half : (2 ^ suc k - 1) / 2 ≡ 2 ^ k - 1
    half = omega (arith, pow-suc 2 k, pow_pos k)

    small : a / 2 % 2 ^ k * 2 + a % 2 < 2 ^ suc k
    small = omega (arith, pow-suc 2 k, mod-lt (a / 2) (pow_pos k))

    split : a ≡ 2 ^ suc k * (a / 2 / 2 ^ k) + (a / 2 % 2 ^ k * 2 + a % 2)
    split = omega (arith, div-add-mod (a / 2) (2 ^ k), ap (λ t. t * (a / 2 / 2 ^ k)) (pow-suc 2 k))

    low : a % 2 ^ suc k ≡ a / 2 % 2 ^ k * 2 + a % 2
    low = omega (
      arith,
      ap (λ t. t % 2 ^ suc k) split,
      mul-add-mod_self_left (2 ^ suc k) (a / 2 / 2 ^ k) (a / 2 % 2 ^ k * 2 + a % 2),
      mod-eq_of_lt {n = a / 2 % 2 ^ k * 2 + a % 2} {m = 2 ^ suc k} small,
    )

same_digits : (k x : ℕ) → x ≤ k → digits (λ b. 0) min k x x ≡ x
same_digits zero zero enough = refl
same_digits zero (suc x) enough = absurd (omega arith)
same_digits (suc k) zero enough = refl
same_digits (suc k) (suc x) enough = omega (arith, same_digits k (suc x / 2) (omega arith))

pub bit_and_self : (x : ℕ) → bit_and x x ≡ x
bit_and_self x = bit_and-bitwise x x ∙ same_digits x x (omega arith)

-- `a & (a - 1)` at an odd and at an even number.
pub bit_and-pred_odd : (u : ℕ) → bit_and (u * 2 + 1) (u * 2) ≡ u * 2
bit_and-pred_odd u =
    omega (arith, bit_and_step (u * 2 + 1) (u * 2), ap₂ bit_and odd even, bit_and_self u)
  where
    odd : (u * 2 + 1) / 2 ≡ u
    odd = omega arith

    even : u * 2 / 2 ≡ u
    even = omega arith

pub bit_and-pred_even : (u : ℕ) → 0 < u → bit_and (u * 2) (u * 2 - 1) ≡ bit_and u (u - 1) * 2
bit_and-pred_even u h = omega (arith, bit_and_step (u * 2) (u * 2 - 1), ap₂ bit_and even odd)
  where
    even : u * 2 / 2 ≡ u
    even = omega arith

    odd : (u * 2 - 1) / 2 ≡ u - 1
    odd = omega arith
