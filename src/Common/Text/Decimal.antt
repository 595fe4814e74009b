-- ===== src/Common/Text/Decimal.antt =====
-- Decimal numerals, as `printf` writes them, and `strtoul` on them.
use Prim.Native.Nat.{ℕ, zero, suc, ◌+◌, ◌*◌, ◌/◌, ◌%◌, ◌<◌}
use mathlib.Core.Path.{◌≡◌, refl, sym, ap, ◌∙◌}
use mathlib.Core.Logic.{inl, inr}
use mathlib.Core.Bool.{true, false}
use mathlib.Core.List.{[], ◌∷◌}
use native.Mathlib.Omega.{arith}
use act.Common.Tests.{ltb, ◌==◌, if◌then◌else◌, ltb→lt, ltb_false→le, Bool-cases}
use act.Common.Text.{
  Text, digits_value, strtoul, starts_with_digit, skip_spaces, signed_part, is_digit, is_space,
  clamp_ulong,
}

-- The numeral on fuel, with `rest` behind it.
abbrev pub decimal_fuel : ℕ → ℕ → Text → Text
decimal_fuel zero n rest = rest
decimal_fuel (suc fuel) n rest =
    let last = b'0' + n % 10 in
    let longer = decimal_fuel fuel (n / 10) (last ∷ rest) in
    if ltb n 10 then last ∷ rest else longer

-- `%lu`, with `rest` behind it.
unfoldable pub decimal : ℕ → Text → Text
decimal n rest = decimal_fuel (n + 1) n rest

digits_value_digit :
    (acc d : ℕ) (rest : Text)
    → d < 10
    → digits_value acc ((b'0' + d) ∷ rest) ≡ digits_value (acc * 10 + d) rest
digits_value_digit acc d rest h = rw digit (ap (λ k. digits_value k rest) (omega arith))
  where
    digit : is_digit (b'0' + d) ≡ true
    digit = ground arith

digits_value-decimal_fuel :
    (fuel n : ℕ) (rest : Text)
    → n < fuel
    → digits_value 0 (decimal_fuel fuel n rest) ≡ digits_value n rest
digits_value-decimal_fuel zero n rest h = absurd (omega arith)
digits_value-decimal_fuel (suc fuel) n rest h = elim (Bool-cases (ltb n 10)) [
  | inl small ↦ rw small (
      digits_value_digit 0 (n % 10) rest (omega arith)
      ∙ ap (λ k. digits_value k rest) (omega (arith, ltb→lt n 10 small)))
  | inr large ↦ rw large (
      digits_value-decimal_fuel fuel (n / 10) ((b'0' + n % 10) ∷ rest)
        (omega (arith, ltb_false→le n 10 large))
      ∙ digits_value_digit (n / 10) (n % 10) rest (omega arith)
      ∙ ap (λ k. digits_value k rest) (omega arith))
]

-- What follows a numeral.
abbrev pub NotDigit : Text → Type 0
NotDigit rest = starts_with_digit rest ≡ false

digits_value_stop : (n : ℕ) (rest : Text) → NotDigit rest → digits_value n rest ≡ (n, rest)
digits_value_stop n [] h = refl
digits_value_stop n (c ∷ s) h = rw h refl

-- A numeral starts with a digit, so it is read from its start.
pub starts :
    (fuel n : ℕ) (rest : Text)
    → (c : ℕ) × (s : Text) × (decimal_fuel (suc fuel) n rest ≡ c ∷ s) × (is_digit c ≡ true)
starts zero n rest = elim (Bool-cases (ltb n 10)) [
  | inl small ↦ rw small (b'0' + n % 10, rest, refl, ground arith)
  | inr large ↦ rw large (b'0' + n % 10, rest, refl, ground arith)
]
starts (suc fuel) n rest = elim (Bool-cases (ltb n 10)) [
  | inl small ↦ rw small (b'0' + n % 10, rest, refl, ground arith)
  | inr large ↦ rw large (starts fuel (n / 10) ((b'0' + n % 10) ∷ rest))
]

digit_lem :
    (whole : Text) (c : ℕ) (s : Text)
    → is_digit c ≡ true
    → signed_part whole (skip_spaces (c ∷ s))
      ≡ (let (v, r) = digits_value 0 (c ∷ s) in (clamp_ulong false v, r))
digit_lem whole c s h = rw (spaceless, plus, minus, h) refl
  where
    spaceless : is_space c ≡ false
    spaceless = ground arith

    minus : (c == b'-') ≡ false
    minus = ground arith

    plus : (c == b'+') ≡ false
    plus = ground arith

pub strtoul-decimal :
    (n : ℕ) (rest : Text) → NotDigit rest → strtoul (decimal n rest) ≡ (clamp_ulong false n, rest)
unfolding strtoul decimal
strtoul-decimal n rest h =
    let (c, s, e, d) = starts n n rest in
    let e' : decimal_fuel (n + 1) n rest ≡ c ∷ s =
      ap (λ k. decimal_fuel k n rest) (omega_suc n) ∙ e in
    let value : digits_value 0 (c ∷ s) ≡ (n, rest) =
      ap (digits_value 0) (sym e')
      ∙ digits_value-decimal_fuel (n + 1) n rest (omega arith)
      ∙ digits_value_stop n rest h in
    ap (λ t. signed_part t (skip_spaces t)) e'
    ∙ digit_lem (c ∷ s) c s d
    ∙ ap (λ p. (clamp_ulong false p.0, p.1)) value
  where
    omega_suc : (k : ℕ) → k + 1 ≡ suc k
    omega_suc k = omega arith
