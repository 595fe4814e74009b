-- ===== src/Histogram/Dump/Whole.antt =====
-- The whole of what `histogram_dump` prints.
use act.Common.{
  ℕ, suc, ◌+◌, ◌-◌, ◌%◌, ◌^◌, ◌≤◌, ◌<◌, ◌≡◌, inl, inr, refl, ap, ◌∙◌, subst, some, List, [], ◌∷◌,
  ◌++◌, ◌==◌, arith, Bool-cases,
}
use act.Common.Lists.{length, length-append, length-replicate, replicate}
use act.Common.Partial.{◌>>=◌}
use act.Common.Text.{Text, text}
use act.Common.Text.Decimal.{decimal}
use act.Common.Text.Tokens.{length-decimal_fuel}
use act.Histogram.{Histogram, n_buckets}
use act.Histogram.Insert.{IsValid}
use act.Histogram.Dump.{padded, column, Extent, extent_loop, histogram_dump}
use act.Histogram.Dump.Printed.{in_fours, AllShort, group, group-in_fours, columns_loop-group}
use act.Histogram.Dump.Window.{
  Covers, get, columns, sum, extent_loop-Covers, window-extent, extent_loop-sum, extent_loop-small,
}

-- Counts of at most 17 digits.
abbrev pub AllCounts : List ℕ → Type 0
AllCounts [] = Unit {0}
AllCounts (n ∷ counts) = (n < 10 ^ 17) × AllCounts counts

length-digits : (k n : ℕ) → n < 10 ^ suc k → length (decimal n []) ≤ suc k
unfolding decimal
length-digits k n h = omega (arith, length-decimal_fuel (n + 1) k n [] h)

length-padded : (width k n : ℕ) → n < 10 ^ suc k → width ≤ suc k → length (padded width n) ≤ suc k
length-padded width k n h w = omega (
  arith,
  length-append (replicate (width - length (decimal n [])) b'0') (decimal n []),
  length-replicate {A = ℕ} (width - length (decimal n [])) b'0',
  length-digits k n h,
  w,
)

-- A column has no more than 24 bytes.
column-short : (i n : ℕ) → i < 100 → n < 10 ^ 17 → length (column i n) ≤ 24
column-short i n hi hn = omega (
  arith,
  length-append (padded 2 i) (text ": " ++ (padded 10 n ++ text ")")),
  length-append (padded 10 n) (text ")"),
  length-padded 2 1 i (omega (arith, hi)) (omega arith),
  length-padded 10 16 n hn (omega arith),
)

columns-short :
    (counts : List ℕ) (b : ℕ)
    → b + length counts ≤ 100
    → AllCounts counts
    → AllShort (columns b counts)
columns-short [] b l h = tt
columns-short (n ∷ counts) b l (hn, h) =
    let later = columns-short counts (b + 1) (omega (arith, l)) h in
    elim (Bool-cases (n == 0)) [
      | inl z ↦ rw z later
      | inr p ↦ rw p (omega arith, column-short b n (omega (arith, l)) hn, later)
    ]

-- A valid histogram whose counts have at most 17 digits is printed without a write outside `buf`: a line
-- with the sum of the counts, modulo 2 ^ 64, and then a column for each bucket that is not empty, in
-- order and with four columns to a line.
pub histogram_dump_lem :
    (h : Histogram) (tag : Text)
    → IsValid h
    → AllCounts h.counts
    → histogram_dump h tag
      ≡ some (
          (tag ++ (text " (" ++ decimal (sum h.counts % 2 ^ 64) (text " total)")))
          ∷ in_fours (columns 0 h.counts))
unfolding histogram_dump
histogram_dump_lem h tag v short =
    ap (λ o. o >>= (λ lines. some (header e.total_count ∷ lines)))
      (columns_loop-group (e.j + 1 - e.i) h.counts e.i [] 0
        ∙ ap (λ cs. group cs [] 0) (window-extent h.counts e covers (omega (arith, v.buckets)))
        ∙ group-in_fours (columns 0 h.counts) 0 refl
            (columns-short h.counts 0 (omega (arith, v.buckets)) short))
    ∙ ap (λ n. some (header n ∷ in_fours (columns 0 h.counts))) total
  where
    none_yet : Extent
    none_yet = record { i = n_buckets; j = 0; total_count = 0 }

    e : Extent
    e = extent_loop 0 h.counts none_yet

    header : ℕ → Text
    header n = tag ++ (text " (" ++ decimal n (text " total)"))

    total : e.total_count ≡ sum h.counts % 2 ^ 64
    total = omega (
      arith,
      extent_loop-sum h.counts h.counts 0 none_yet,
      extent_loop-small h.counts h.counts 0 none_yet (omega arith),
    )

    omega_zero : (n : ℕ) → 0 + n ≡ n
    omega_zero n = omega arith

    covers : Covers h.counts (length h.counts) e
    covers =
        subst (λ k. Covers h.counts k e) (omega_zero (length h.counts))
          (extent_loop-Covers h.counts h.counts 0 none_yet (λ k. ap (get h.counts) (omega arith))
            ((λ x l nz. absurd (omega arith)), inr refl))
