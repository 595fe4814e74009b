-- ===== src/Histogram/Dump/Printed.antt =====
-- How the loop of `histogram_dump` over the columns puts them on lines.
use act.Common.{
  ℕ, zero, suc, ◌+◌, ◌%◌, ◌≤◌, ◌<◌, ◌≡◌, ◌≢◌, inl, inr, refl, ap, ◌∙◌, false, Option, some, List,
  [], ◌∷◌, ◌++◌, ◌==◌, leb, if◌then◌else◌, arith, Bool-cases, ne→==_false, eq→==,
}
use act.Common.Lists.{length, length-append, get_or}
use act.Common.Partial.{◌>>=◌}
use act.Common.Text.{Text}
use act.Histogram.Dump.{column, add_column, columns_loop}

-- Four columns to a line.
abbrev pub in_fours : List Text → List Text
in_fours [] = []
in_fours (a ∷ []) = a ∷ []
in_fours (a ∷ b ∷ []) = (a ++ b) ∷ []
in_fours (a ∷ b ∷ c ∷ []) = ((a ++ b) ++ c) ∷ []
in_fours (a ∷ b ∷ c ∷ d ∷ cs) = (((a ++ b) ++ c) ++ d) ∷ in_fours cs

-- Columns that have room in a line of four.
abbrev pub AllShort : List Text → Type 0
AllShort [] = Unit {0}
AllShort (c ∷ cs) = (0 < length c) × (length c ≤ 24) × AllShort cs

-- The loop over columns that are given.
abbrev pub group : List Text → Text → ℕ → Option (List Text)
group [] buf k = some (if length buf == 0 then [] else buf ∷ [])
group (c ∷ cs) buf k = add_column (λ buf' k'. group cs buf' k') buf k c

goes_on :
    (c : Text) (cs : List Text) (buf : Text) (k : ℕ)
    → length buf + length c < 100
    → k % 4 ≢ 3
    → group (c ∷ cs) buf k ≡ group cs (buf ++ c) (k + 1)
goes_on c cs buf k h e = rw (room, ne→==_false (k % 4) 3 e) refl
  where
    room : leb 100 (length (buf ++ c)) ≡ false
    room = ground (arith, length-append buf c)

ends :
    (c : Text) (cs : List Text) (buf : Text) (k : ℕ)
    → length buf + length c < 100
    → k % 4 ≡ 3
    → group (c ∷ cs) buf k ≡ (group cs [] (k + 1) >>= (λ lines. some ((buf ++ c) ∷ lines)))
ends c cs buf k h e = rw (room, eq→== (k % 4) 3 e) refl
  where
    room : leb 100 (length (buf ++ c)) ≡ false
    room = ground (arith, length-append buf c)

last_line : (buf : Text) (k : ℕ) → 0 < length buf → group [] buf k ≡ some (buf ∷ [])
last_line buf k h = rw (ne→==_false (length buf) 0 (λ e. omega (arith, e, h))) refl

module _ (a b c : Text) (cs : List Text) (k : ℕ) (e : k % 4 ≡ 0) (la : length a ≤ 24) where
  first : group (a ∷ cs) [] k ≡ group cs a (k + 1)
  first = goes_on a cs [] k (omega (arith, la)) (λ e'. omega (arith, e, e'))

  module _ (lb : length b ≤ 24) where
    first_two : group (a ∷ b ∷ cs) [] k ≡ group cs (a ++ b) (k + 1 + 1)
    first_two =
        goes_on a (b ∷ cs) [] k (omega (arith, la)) (λ e'. omega (arith, e, e'))
        ∙ goes_on b cs a (k + 1) (omega (arith, la, lb)) (λ e'. omega (arith, e, e'))

    module _ (lc : length c ≤ 24) where
      first_three : group (a ∷ b ∷ c ∷ cs) [] k ≡ group cs ((a ++ b) ++ c) (k + 1 + 1 + 1)
      first_three =
          goes_on a (b ∷ c ∷ cs) [] k (omega (arith, la)) (λ e'. omega (arith, e, e'))
          ∙ goes_on b (c ∷ cs) a (k + 1) (omega (arith, la, lb)) (λ e'. omega (arith, e, e'))
          ∙ goes_on c cs (a ++ b) (k + 1 + 1) (omega (arith, length-append a b, la, lb, lc))
              (λ e'. omega (arith, e, e'))

pub group-in_fours :
    (cs : List Text) (k : ℕ) → k % 4 ≡ 0 → AllShort cs → group cs [] k ≡ some (in_fours cs)
group-in_fours [] k e h = refl
group-in_fours (a ∷ []) k e (pa, la, h) = first a a a [] k e la ∙ last_line a (k + 1) pa
group-in_fours (a ∷ b ∷ []) k e (pa, la, (pb, lb, h)) =
    first_two a b a [] k e la lb
    ∙ last_line (a ++ b) (k + 1 + 1) (omega (arith, length-append a b, pa))
group-in_fours (a ∷ b ∷ c ∷ []) k e (pa, la, (pb, lb, (pc, lc, h))) =
    first_three a b c [] k e la lb lc
    ∙ last_line ((a ++ b) ++ c) (k + 1 + 1 + 1)
        (omega (arith, length-append a b, length-append (a ++ b) c, pa))
group-in_fours (a ∷ b ∷ c ∷ d ∷ cs) k e (pa, la, (pb, lb, (pc, lc, (pd, ld, h)))) =
    first_three a b c (d ∷ cs) k e la lb lc
    ∙ ends d cs ((a ++ b) ++ c) (k + 1 + 1 + 1)
        (omega (arith, length-append a b, length-append (a ++ b) c, la, lb, lc, ld))
        (omega (arith, e))
    ∙ ap (λ o. o >>= (λ lines. some ((((a ++ b) ++ c) ++ d) ∷ lines)))
        (group-in_fours cs (k + 1 + 1 + 1 + 1) (omega (arith, e)) h)

-- The columns of the `n` buckets from `i` on.
abbrev pub window : ℕ → List ℕ → ℕ → List Text
window zero counts i = []
window (suc n) counts i =
    let later = window n counts (i + 1) in
    if get_or counts i 0 == 0 then later else column i (get_or counts i 0) ∷ later

pub columns_loop-group :
    (n : ℕ) (counts : List ℕ) (i : ℕ) (buf : Text) (k : ℕ)
    → columns_loop n counts i buf k ≡ group (window n counts i) buf k
unfolding columns_loop
columns_loop-group zero counts i buf k = refl
columns_loop-group (suc n) counts i buf k = elim (Bool-cases (get_or counts i 0 == 0)) [
  | inl z ↦ rw z (columns_loop-group n counts (i + 1) buf k)
  | inr p ↦ rw p (
      ap (λ more. add_column more buf k (column i (get_or counts i 0)))
        (λ t buf' k'. columns_loop-group n counts (i + 1) buf' k' t))
]
