-- ===== src/Common/Text/Tokens.antt =====
-- `strtok` on a word that a delimiter ends, and the bytes of a text one by one.
use Prim.Native.Nat.{ℕ, zero, suc, ◌+◌, ◌%◌, ◌/◌, ◌^◌, ◌<◌, ◌≤◌}
use mathlib.Core.Path.{◌≡◌, refl}
use mathlib.Core.Logic.{inl, inr}
use mathlib.Core.Bool.{Bool, true, false, not, ◌&&◌}
use mathlib.Core.List.{[], ◌∷◌, ◌++◌}
use mathlib.Core.Option.{some}
use native.Mathlib.Omega.{arith}
use act.Common.Tests.{ltb, Bool-cases}
use act.Common.Lists.{length}
use act.Common.Text.{Text, one_of, token_end, strtok, is_digit}
use act.Common.Text.Decimal.{decimal, decimal_fuel}

abbrev pub all : (ℕ → Bool) → Text → Bool
all p [] = true
all p (c ∷ s) = p c && all p s

pub both : (a b : Bool) → (a && b) ≡ true → (a ≡ true) × (b ≡ true)
both true true h = (refl, refl)
both true false h = absurd (ground (arith, h))
both false b h = absurd (ground (arith, h))

pub all-append :
    (p : ℕ → Bool) (s t : Text) → all p s ≡ true → all p t ≡ true → all p (s ++ t) ≡ true
all-append p [] t hs ht = ht
all-append p (c ∷ s) t hs ht =
    let (hc, hs') = both (p c) (all p s) hs in rw hc (all-append p s t hs' ht)

pub all-weaken :
    (p q : ℕ → Bool) (s : Text)
    → ((c : ℕ) → p c ≡ true → q c ≡ true)
    → all p s ≡ true
    → all q s ≡ true
all-weaken p q [] f h = refl
all-weaken p q (c ∷ s) f h =
    let (hc, hs) = both (p c) (all p s) h in rw (f c hc) (all-weaken p q s f hs)

-- The bytes that are no delimiter.
abbrev pub outside : Text → ℕ → Bool
outside delims c = not (one_of delims c)

pub outside→not : (b : Bool) → not b ≡ true → b ≡ false
outside→not true h = absurd (ground (arith, h))
outside→not false h = refl

module _ (delims : Text) (d : ℕ) (found : one_of delims d ≡ true) where
  token_end-outside :
      (s rest : Text)
      → all (outside delims) s ≡ true
      → token_end delims (s ++ (d ∷ rest)) ≡ (s, rest)
  token_end-outside [] rest h = rw found refl
  token_end-outside (c ∷ s) rest h =
      let (hc, hs) = both (outside delims c) (all (outside delims) s) h in
      rw (outside→not (one_of delims c) hc, token_end-outside s rest hs) refl

  -- The first token of a text that starts with a word is the word.
  pub strtok-outside :
      (c : ℕ) (s rest : Text)
      → all (outside delims) (c ∷ s) ≡ true
      → strtok delims ((c ∷ s) ++ (d ∷ rest)) ≡ (some (c ∷ s), rest)
  strtok-outside c s rest h =
      let (hc, hs) = both (outside delims c) (all (outside delims) s) h in
      rw (outside→not (one_of delims c) hc, token_end-outside s rest hs) refl

decimal_fuel-append :
    (fuel n : ℕ) (s t : Text) → decimal_fuel fuel n (s ++ t) ≡ decimal_fuel fuel n s ++ t
decimal_fuel-append zero n s t = refl
decimal_fuel-append (suc fuel) n s t = elim (Bool-cases (ltb n 10)) [
  | inl small ↦ rw small refl
  | inr large ↦ rw large (decimal_fuel-append fuel (n / 10) ((b'0' + n % 10) ∷ s) t)
]

pub decimal-append : (n : ℕ) (t : Text) → decimal n t ≡ decimal n [] ++ t
unfolding decimal
decimal-append n t = decimal_fuel-append (n + 1) n [] t

last_is_digit : (n : ℕ) → is_digit (b'0' + n % 10) ≡ true
last_is_digit n = ground arith

decimal_fuel-digits :
    (fuel n : ℕ) (s : Text) → all is_digit s ≡ true → all is_digit (decimal_fuel fuel n s) ≡ true
decimal_fuel-digits zero n s h = h
decimal_fuel-digits (suc fuel) n s h = elim (Bool-cases (ltb n 10)) [
  | inl small ↦ rw (small, last_is_digit n) h
  | inr large ↦
      rw large (decimal_fuel-digits fuel (n / 10) ((b'0' + n % 10) ∷ s) (rw (last_is_digit n) h))
]

pub decimal-digits : (n : ℕ) → all is_digit (decimal n []) ≡ true
unfolding decimal
decimal-digits n = decimal_fuel-digits (n + 1) n [] refl

pub length-decimal_fuel :
    (fuel k n : ℕ) (s : Text) → n < 10 ^ suc k → length (decimal_fuel fuel n s) ≤ suc k + length s
length-decimal_fuel zero k n s h = omega arith
length-decimal_fuel (suc fuel) zero n s h = rw (small) (omega arith)
  where
    small : ltb n 10 ≡ true
    small = ground arith
length-decimal_fuel (suc fuel) (suc k) n s h = elim (Bool-cases (ltb n 10)) [
  | inl small ↦ rw small (omega arith)
  | inr large ↦
      rw large
        (omega (arith, length-decimal_fuel fuel k (n / 10) ((b'0' + n % 10) ∷ s) (shorter n h)))
]
  where
    shorter : (m : ℕ) → m < 10 ^ suc (suc k) → m / 10 < 10 ^ suc k
    shorter m h' = omega arith

-- A number of 32 bits has at most ten digits.
pub length-decimal : (n : ℕ) → n < 2 ^ 32 → length (decimal n []) ≤ 10
unfolding decimal
length-decimal n h = length-decimal_fuel (n + 1) 9 n [] (omega arith)
