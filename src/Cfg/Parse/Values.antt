-- ===== src/Cfg/Parse/Values.antt =====
-- `parse_uint32` and `parse_yes_no` on the values that a file may have.
use act.Common.{
  ℕ, zero, suc, ◌+◌, ◌-◌, ◌%◌, ◌/◌, ◌^◌, ◌≡◌, refl, sym, ap, ◌∙◌, inl, inr, Bool, true, false, some,
  [], ◌∷◌, ◌++◌, ltb, if◌then◌else◌, arith, Bool-cases,
}
use act.Common.Text.{Text, text, strtok, token_end, one_of, is_digit}
use act.Common.Text.Decimal.{starts, decimal, decimal_fuel, strtoul-decimal}
use act.Cfg.Parse.{white_space, parse_uint32, uint32_of, parse_yes_no, parse_scheduler_mode}

digit_no_space : (c : ℕ) → is_digit c ≡ true → one_of white_space c ≡ false
digit_no_space c h = ground arith

token_end_digit :
    (c : ℕ) (s : Text)
    → is_digit c ≡ true
    → token_end white_space (c ∷ s) ≡ (let (t, r) = token_end white_space s in (c ∷ t, r))
token_end_digit c s h = rw (digit_no_space c h) refl

last_digit : (n : ℕ) → is_digit (b'0' + n % 10) ≡ true
last_digit n = ground arith

-- The token of a numeral is the numeral.
token_end-decimal :
    (fuel n : ℕ) (rest : Text)
    → token_end white_space (decimal_fuel fuel n rest)
      ≡ (let (t, r) = token_end white_space rest in (decimal_fuel fuel n t, r))
token_end-decimal zero n rest = refl
token_end-decimal (suc fuel) n rest = elim (Bool-cases (ltb n 10)) [
  | inl small ↦ rw small (token_end_digit (b'0' + n % 10) rest (last_digit n))
  | inr large ↦ rw large (
      token_end-decimal fuel (n / 10) ((b'0' + n % 10) ∷ rest)
      ∙ ap (λ p. (decimal_fuel fuel (n / 10) p.0, p.1))
          (token_end_digit (b'0' + n % 10) rest (last_digit n)))
]

strtok_digit :
    (c : ℕ) (s : Text)
    → is_digit c ≡ true
    → strtok white_space (c ∷ s) ≡ (let (t, r) = token_end white_space (c ∷ s) in (some t, r))
strtok_digit c s h = rw (digit_no_space c h) refl

-- The first token of a numeral that ends its line.
strtok-decimal :
    (n : ℕ) (rest : Text)
    → strtok white_space (decimal n (b'\n' ∷ rest)) ≡ (some (decimal n []), rest)
unfolding decimal
strtok-decimal n rest =
    let (c, s, e, d) = starts n n (b'\n' ∷ rest) in
    let e' : decimal_fuel (n + 1) n (b'\n' ∷ rest) ≡ c ∷ s =
      ap (λ k. decimal_fuel k n (b'\n' ∷ rest)) (omega_suc n) ∙ e in
    ap (strtok white_space) e'
    ∙ strtok_digit c s d
    ∙ ap (λ t. let (a, r) = token_end white_space t in (some a, r)) (sym e')
    ∙ ap (λ p. (some p.0, p.1)) (token_end-decimal (n + 1) n (b'\n' ∷ rest))
  where
    omega_suc : (k : ℕ) → k + 1 ≡ suc k
    omega_suc k = omega arith

-- A numeral is read as its number where that fits 32 bits, and as 0 where it does not.
pub parse_uint32-decimal :
    (n : ℕ) (rest : Text)
    → parse_uint32 (b' ' ∷ decimal n (b'\n' ∷ rest)) ≡ (if ltb n (2 ^ 32) then n else 0)
unfolding parse_uint32
parse_uint32-decimal n rest =
    ap (λ p. uint32_of p.0) (strtok-decimal n rest)
    ∙ ap (λ p. if ltb (2 ^ 32 - 1) p.0 then 0 else p.0) (strtoul-decimal n [] refl)
    ∙ ground arith

-- The texts of a Boolean value.
abbrev pub yes_no : Bool → Text
yes_no b = if b then text "yes" else text "no"

pub parse_yes_no-yes_no : (b : Bool) → parse_yes_no (b' ' ∷ (yes_no b ++ (b'\n' ∷ []))) ≡ b
unfolding parse_yes_no
parse_yes_no-yes_no true = refl
parse_yes_no-yes_no false = refl

-- The texts of the two schedulers.
abbrev pub mode_text : Bool → Text
mode_text cfq = if cfq then text "cfq" else text "noop"

pub parse_scheduler_mode-mode_text :
    (cfq : Bool) → parse_scheduler_mode (b' ' ∷ (mode_text cfq ++ (b'\n' ∷ []))) ≡ mode_text cfq
unfolding parse_scheduler_mode
parse_scheduler_mode-mode_text true = refl
parse_scheduler_mode-mode_text false = refl
