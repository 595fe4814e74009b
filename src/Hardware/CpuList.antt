-- ===== src/Hardware/CpuList.antt =====
-- `read_list` of hardware.c: the CPUs of a list in the format of the system.
use act.Common.{
  ℕ, zero, suc, ◌+◌, ◌-◌, ◌≤◌, ◌<◌, ◌≡◌, inl, inr, refl, sym, ap, ◌∙◌, Bool, true, false, not, ◌&&◌,
  ◌||◌, Option, some, List, [], ◌∷◌, ◌++◌, ◌==◌, ltb, leb, arith,
}
use mathlib.Core.List.{append_assoc}
use act.Common.Lists.{length, length-append}
use act.Common.Text.{Text, strtoul, is_digit}
use act.Common.Text.Decimal.{decimal, strtoul-decimal, NotDigit}
use act.Common.Text.Tokens.{
  all, all-append, all-weaken, decimal-append, decimal-digits, both, outside→not,
}
use act.Hardware.{
  FileRes, ok, opened, Files, CpuSet, no_cpus, set_cpus, cpu_setsize, range_end, list_loop,
  read_list, cut_last, until_nul,
}
use act.Hardware.Reading.{Serves, read_file-ReadAll}

-- A CPU, or the CPUs from one to a later one.
pub data Range : Type 0 where
  one : ℕ → Range
  from_to : ℕ → ℕ → Range

abbrev pub IsRange : Range → Type 0
IsRange (one c) = c < cpu_setsize
IsRange (from_to a b) = (a ≤ b) × (b < cpu_setsize)

abbrev pub AreRanges : List Range → Type 0
AreRanges [] = Unit {0}
AreRanges (r ∷ rs) = IsRange r × AreRanges rs

abbrev pub in_range : ℕ → Range → Bool
in_range c (one a) = c == a
in_range c (from_to a b) = leb a c && leb c b

abbrev pub in_ranges : ℕ → List Range → Bool
in_ranges c [] = false
in_ranges c (r ∷ rs) = in_range c r || in_ranges c rs

-- The range with `rest` behind it.
abbrev pub print_range : Range → Text → Text
print_range (one a) rest = decimal a rest
print_range (from_to a b) rest = decimal a (b'-' ∷ decimal b rest)

-- Ranges with commas between them.
abbrev pub print_ranges : Range → List Range → Text
print_ranges r [] = print_range r []
print_ranges r (r' ∷ rs) = print_range r (b',' ∷ print_ranges r' rs)

set_cpus_lem :
    (n i : ℕ) (mask : CpuSet) (c : ℕ) → set_cpus n i mask c ≡ (leb i c && ltb c (i + n) || mask c)
set_cpus_lem zero i mask c = ground arith
set_cpus_lem (suc n) i mask c = set_cpus_lem n (i + 1) (λ c'. c' == i || mask c') c ∙ ground arith

pub strtoul_lem :
    (n : ℕ) (rest : Text) → n < cpu_setsize → NotDigit rest → strtoul (decimal n rest) ≡ (n, rest)
strtoul_lem n rest h d = strtoul-decimal n rest d ∙ ap (λ k. (k, rest)) (ground arith)

abbrev low : Range → ℕ
low (one a) = a
low (from_to a b) = a

abbrev high : Range → ℕ
high (one a) = a
high (from_to a b) = b

-- What may follow a range.
abbrev Follows : Text → Type 0
Follows [] = Unit {0}
Follows (c ∷ s) = c ≡ b','

not_digit : (rest : Text) → Follows rest → NotDigit rest
not_digit [] f = refl
not_digit (c ∷ s) f = ap is_digit f

range_end-print_range :
    (r : Range) (rest : Text)
    → IsRange r
    → Follows rest
    → range_end (strtoul (print_range r rest)) ≡ some (low r, high r, rest)
range_end-print_range (one a) [] h f = ap range_end (strtoul_lem a [] h refl)
range_end-print_range (one a) (c ∷ s) h f =
    ap range_end (strtoul_lem a (c ∷ s) h (not_digit (c ∷ s) f)) ∙ rw f refl
range_end-print_range (from_to a b) rest (h, k) f =
    ap range_end (strtoul_lem a (b'-' ∷ decimal b rest) (omega (arith, h, k)) refl)
    ∙ ap (λ p. some (a, p.0, p.1)) (strtoul_lem b rest k (not_digit rest f))

abbrev CpusOf : List Range → CpuSet → Option (FileRes × CpuSet) → Type 0
CpusOf rs mask r =
    (mask' : CpuSet) × (r ≡ some (ok, mask')) × ((c : ℕ) → mask' c ≡ (in_ranges c rs || mask c))

low_high : (r : Range) → IsRange r → (low r ≤ high r) × (high r < cpu_setsize)
low_high (one a) h = (omega arith, h)
low_high (from_to a b) h = h

accepted :
    (a b : ℕ)
    → a ≤ b
    → b < cpu_setsize
    → (leb cpu_setsize a || leb cpu_setsize b || ltb b a) ≡ false
accepted a b h k = ground arith

mask_lem :
    (r : Range) (mask : CpuSet) (c : ℕ)
    → IsRange r
    → set_cpus (high r + 1 - low r) (low r) mask c ≡ (in_range c r || mask c)
mask_lem (one a) mask c h = set_cpus_lem (a + 1 - a) a mask c ∙ ground arith
mask_lem (from_to a b) mask c (h, k) = set_cpus_lem (b + 1 - a) a mask c ∙ ground arith

or_swap : (a b c : Bool) → (b || (a || c)) ≡ ((a || b) || c)
or_swap true true c = refl
or_swap true false c = refl
or_swap false true c = refl
or_swap false false c = refl

-- The loop on ranges with commas between them.
list_loop-print_ranges :
    (fuel : ℕ) (r : Range) (rs : List Range) (mask : CpuSet)
    → IsRange r
    → AreRanges rs
    → length rs < fuel
    → CpusOf (r ∷ rs) mask (list_loop fuel (print_ranges r rs) mask)
unfolding list_loop
list_loop-print_ranges zero r rs mask h hs enough = absurd (omega arith)
list_loop-print_ranges (suc fuel) r [] mask h hs enough =
    let (l, k) = low_high r h in
    rw (range_end-print_range r [] h tt, accepted (low r) (high r) l k)
      (_, refl, λ c. mask_lem r mask c h ∙ ground arith)
list_loop-print_ranges (suc fuel) r (r' ∷ rs) mask h hs enough =
    let (l, k) = low_high r h in
    let (mask', e, of) =
      list_loop-print_ranges fuel r' rs (set_cpus (high r + 1 - low r) (low r) mask) hs.0 hs.1
        (omega arith) in
    rw
      (range_end-print_range r (b',' ∷ print_ranges r' rs) h refl, accepted (low r) (high r) l k, e)
      (
        _,
        refl,
        λ c.
            of c
            ∙ ap (λ b. in_ranges c (r' ∷ rs) || b) (mask_lem r mask c h)
            ∙ or_swap (in_range c r) (in_ranges c (r' ∷ rs)) (mask c),
      )

print_range-append : (r : Range) (rest : Text) → print_range r rest ≡ print_range r [] ++ rest
print_range-append (one a) rest = decimal-append a rest
print_range-append (from_to a b) rest =
    decimal-append a (b'-' ∷ decimal b rest)
    ∙ ap (λ t. decimal a [] ++ (b'-' ∷ t)) (decimal-append b rest)
    ∙ sym (append_assoc (decimal a []) (b'-' ∷ decimal b []) rest)
    ∙ ap (λ t. t ++ rest) (sym (decimal-append a (b'-' ∷ decimal b [])))

abbrev pub not_nul : ℕ → Bool
not_nul c = not (c == 0)

pub digit_not_nul : (c : ℕ) → is_digit c ≡ true → not_nul c ≡ true
digit_not_nul c h = ground arith

pub decimal-not_nul :
    (a : ℕ) (rest : Text) → all not_nul rest ≡ true → all not_nul (decimal a rest) ≡ true
decimal-not_nul a rest h =
    ap (all not_nul) (decimal-append a rest)
    ∙ all-append not_nul (decimal a []) rest
        (all-weaken is_digit not_nul (decimal a []) digit_not_nul (decimal-digits a)) h

print_range-not_nul :
    (r : Range) (rest : Text) → all not_nul rest ≡ true → all not_nul (print_range r rest) ≡ true
print_range-not_nul (one a) rest h = decimal-not_nul a rest h
print_range-not_nul (from_to a b) rest h =
    decimal-not_nul a (b'-' ∷ decimal b rest) (decimal-not_nul b rest h)

print_ranges-not_nul : (r : Range) (rs : List Range) → all not_nul (print_ranges r rs) ≡ true
print_ranges-not_nul r [] = print_range-not_nul r [] refl
print_ranges-not_nul r (r' ∷ rs) =
    print_range-not_nul r (b',' ∷ print_ranges r' rs) (print_ranges-not_nul r' rs)

length-print_ranges : (r : Range) (rs : List Range) → length rs ≤ length (print_ranges r rs)
length-print_ranges r [] = omega arith
length-print_ranges r (r' ∷ rs) = omega (
  arith,
  ap length (print_range-append r (b',' ∷ print_ranges r' rs)),
  length-append (print_range r []) (b',' ∷ print_ranges r' rs),
  length-print_ranges r' rs,
)

pub until_nul_lem : (s : Text) → all not_nul s ≡ true → until_nul s ≡ s
until_nul_lem [] h = refl
until_nul_lem (c ∷ s) h =
    let (hc, hs) = both (not_nul c) (all not_nul s) h in
    rw (outside→not (c == 0) hc) (ap (λ t. c ∷ t) (until_nul_lem s hs))

pub cut_last-append : (s : Text) (d : ℕ) → cut_last (s ++ (d ∷ [])) ≡ some s
cut_last-append [] d = refl
cut_last-append (c ∷ []) d = refl
cut_last-append (c ∷ e ∷ s) d = rw (cut_last-append (e ∷ s) d) refl

abbrev pub list_file : Range → List Range → Text
list_file r rs = print_ranges r rs ++ (b'\n' ∷ [])

-- A list of CPUs and ranges of them that the system serves is read as the CPUs in it.
pub read_list-list_file :
    (files : Files) (path : Text) (r : Range) (rs : List Range)
    → files.open_file path ≡ opened
    → Serves (files.read path) (list_file r rs)
    → length (list_file r rs) < 1000
    → IsRange r
    → AreRanges rs
    → (mask : CpuSet) × (read_list files path ≡ some (ok, mask))
      × ((c : ℕ) → mask c ≡ in_ranges c (r ∷ rs))
unfolding read_list
read_list-list_file files path r rs o serves short h hs =
    elim (read_file-ReadAll files path 1000 (list_file r rs) o serves) [
      | inr (long, e) ↦ absurd (omega (arith, long, short))
      | inl (l, e) ↦
          let (mask, e', of) =
            list_loop-print_ranges (length (print_ranges r rs) + 1) r rs no_cpus h hs
              (omega (arith, length-print_ranges r rs)) in
          rw
            (
              e,
              cut_last-append (print_ranges r rs) b'\n',
              until_nul_lem (print_ranges r rs) (print_ranges-not_nul r rs),
              e',
            )
            (mask, refl, λ c. of c ∙ ground arith)
    ]
