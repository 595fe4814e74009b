-- ===== src/Common/Text.antt =====
-- C strings as lists of bytes without the final NUL, and the functions of string.h and stdlib.h that
-- the program calls on them.
pub mod Decimal
pub mod Tokens
use Prim.Native.Nat.{ℕ, zero, suc, ◌+◌, ◌-◌, ◌*◌, ◌^◌, ◌%◌}
use Prim.Native.Char.{code}
use Prim.Native.String.{String}
use mathlib.Core.Bool.{Bool, true, false, ◌&&◌, ◌||◌}
use mathlib.Core.List.{List, [], ◌∷◌, ◌++◌}
use mathlib.Core.Option.{Option, none, some}
use act.Common.Tests.{ltb, leb, ◌==◌, if◌then◌else◌}
use act.Common.Word.{u64}

abbrev pub Text : Type 0
Text = List ℕ

-- A string literal.
abbrev pub text : String → Text
text String.[] = []
text (String.◌∷◌ c s) = code c ∷ text s

-- `strcmp(s, t) == 0`.
abbrev pub text_eq : Text → Text → Bool
text_eq [] [] = true
text_eq [] (d ∷ t) = false
text_eq (c ∷ s) [] = false
text_eq (c ∷ s) (d ∷ t) = c == d && text_eq s t

abbrev pub one_of : Text → ℕ → Bool
one_of [] c = false
one_of (d ∷ ds) c = c == d || one_of ds c

-- The bytes up to one of `delims`, and what follows it.
abbrev pub token_end : Text → Text → Text × Text
token_end delims [] = ([], [])
token_end delims (c ∷ s) =
    let (token, rest) = token_end delims s in if one_of delims c then ([], s) else (c ∷ token, rest)

-- `strtok` from the position that its last call left: the token, if there is one, and the new position.
abbrev pub strtok : Text → Text → Option Text × Text
strtok delims [] = (none, [])
strtok delims (c ∷ s) =
    let later = strtok delims s in
    let (token, rest) = token_end delims s in
    if one_of delims c then later else (some (c ∷ token), rest)

abbrev pub is_digit : ℕ → Bool
is_digit c = leb b'0' c && leb c b'9'

-- The value of the digits that follow a value, without a limit, and what follows them.
abbrev pub digits_value : ℕ → Text → ℕ × Text
digits_value n [] = (n, [])
digits_value n (c ∷ s) =
    let (value, rest) = digits_value (n * 10 + (c - b'0')) s in
    if is_digit c then (value, rest) else (n, c ∷ s)

abbrev pub starts_with_digit : Text → Bool
starts_with_digit [] = false
starts_with_digit (c ∷ s) = is_digit c

abbrev pub is_space : ℕ → Bool
is_space c = c == b' ' || (leb 9 c && leb c 13)

abbrev pub skip_spaces : Text → Text
skip_spaces [] = []
skip_spaces (c ∷ s) = let later = skip_spaces s in if is_space c then later else c ∷ s

-- ULONG_MAX where the value does not fit an unsigned long; a minus sign negates it in 64 bits.
abbrev pub clamp_ulong : Bool → ℕ → ℕ
clamp_ulong minus n = if ltb n (2 ^ 64) then (if minus then u64 (2 ^ 64 - n) else n) else 2 ^ 64 - 1

-- The value of the digits at `s`, or the whole string again where there are none.
abbrev pub unsigned_part : Bool → Text → Text → ℕ × Text
unsigned_part minus whole s =
    let (value, rest) = digits_value 0 s in
    if starts_with_digit s then (clamp_ulong minus value, rest) else (0, whole)

abbrev pub signed_part : Text → Text → ℕ × Text
signed_part whole [] = (0, whole)
signed_part whole (c ∷ s) =
    if c == b'-'
    then unsigned_part true whole s
    else (if c == b'+' then unsigned_part false whole s else unsigned_part false whole (c ∷ s))

-- `strtoul(s, &end, 10)`: the value, and the text from `end` on.
unfoldable pub strtoul : Text → ℕ × Text
strtoul s = signed_part s (skip_spaces s)
