-- ===== src/Common/Digits.antt =====
-- The recursion on binary digits behind `&`, `|` and `^`: its count of digits to go does not matter once
-- it is large enough, so each of the operations works on one digit at a time.
use Prim.Native.Nat.{ℕ, zero, suc, ◌+◌, ◌*◌, ◌/◌, ◌%◌, ◌≤◌, digits, bitwise}
use mathlib.Core.Path.{◌≡◌, refl, ap, ◌∙◌}
use native.Mathlib.Omega.{arith}
use native.Mathlib.Decide.{dec_le}

module _ (z : ℕ → ℕ) (f : ℕ → ℕ → ℕ) where
  -- A count that is large enough may be larger by one.
  one_more : (k x y : ℕ) → x ≤ k → digits z f (suc k) x y ≡ digits z f k x y
  one_more zero zero y enough = refl
  one_more zero (suc x) y enough = absurd (omega arith)
  one_more (suc k) zero y enough = refl
  one_more (suc k) (suc x) y enough =
      ap (λ rest. rest * 2 + f (suc x % 2) (y % 2)) (one_more k (suc x / 2) (y / 2) (omega arith))

  settle : (k x y : ℕ) → x ≤ k → digits z f k x y ≡ bitwise z f x y
  settle zero zero y enough = refl
  settle zero (suc x) y enough = absurd (omega arith)
  settle (suc k) x y enough = elim (dec_le x k) [
    | yes p ↦ one_more k x y p ∙ settle k x y p
    | no np ↦ ap (λ n. digits z f n x y) (let e : suc k ≡ x = omega arith in e)
  ]

  -- The lowest digit, and the others.
  pub bitwise-suc :
      (x y : ℕ)
      → bitwise z f (suc x) y ≡ bitwise z f (suc x / 2) (y / 2) * 2 + f (suc x % 2) (y % 2)
  bitwise-suc x y =
      ap (λ rest. rest * 2 + f (suc x % 2) (y % 2)) (settle x (suc x / 2) (y / 2) (omega arith))
