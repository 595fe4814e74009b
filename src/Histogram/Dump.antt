-- ===== src/Histogram/Dump.antt =====
-- src/common/histogram.c: `histogram_dump`.
pub mod Printed
pub mod Window
pub mod Whole
use act.Common.{
  ℕ, zero, suc, ◌+◌, ◌-◌, ◌*◌, ◌/◌, ◌%◌, ◌^◌, Bool, true, false, Option, none, some, List, [], ◌∷◌,
  ◌++◌, ◌==◌, ltb, leb, if◌then◌else◌,
}
use act.Common.Lists.{length, get_or, replicate}
use act.Common.Partial.{◌>>=◌}
use act.Common.Text.{Text, text}
use act.Common.Text.Decimal.{decimal}
use act.Common.Word.{u64}
use act.Histogram.{Histogram, n_buckets}

-- `%0<width>lu`.
abbrev pub padded : ℕ → ℕ → Text
padded width n = let digits = decimal n [] in replicate (width - length digits) b'0' ++ digits

-- `" (%02d: %010lu)"`.
abbrev pub column : ℕ → ℕ → Text
column i n = text " (" ++ (padded 2 i ++ (text ": " ++ (padded 10 n ++ text ")")))

-- `i`, `j` and `total_count`.
pub record Extent : Type 0 where
  pub i : ℕ
  pub j : ℕ
  pub total_count : ℕ

-- The loop over the counts, with those from the bucket `b` on left.
pub extent_loop : ℕ → List ℕ → Extent → Extent
extent_loop b [] e = e
extent_loop b (n ∷ counts) e = extent_loop (b + 1) counts (
    if n == 0
    then e
    else record { i = if ltb b e.i then b else e.i; j = b; total_count = u64 (e.total_count + n) })

-- What is printed of a column: `buf` with it, or a line; `more` goes on with the columns after it.
-- `none` is a write outside the 100 bytes of `buf`.
abbrev pub add_column : (Text → ℕ → Option (List Text)) → Text → ℕ → Text → Option (List Text)
add_column more buf k printed =
    let buf' = buf ++ printed in
    let same_line = more buf' (k + 1) in
    let next_line = (do lines ← more [] (k + 1); some (buf' ∷ lines)) in
    if leb 100 (length buf') then none else (if k % 4 == 3 then next_line else same_line)

-- The loop over the columns from `i` on, with `n` of them left, and what follows it.
pub columns_loop : ℕ → List ℕ → ℕ → Text → ℕ → Option (List Text)
columns_loop zero counts i buf k = some (if length buf == 0 then [] else buf ∷ [])
columns_loop (suc n) counts i buf k =
    let skip = columns_loop n counts (i + 1) buf k in
    let print =
      add_column (λ buf' k'. columns_loop n counts (i + 1) buf' k') buf k
        (column i (get_or counts i 0)) in
    if get_or counts i 0 == 0 then skip else print

-- The lines that are printed.
unfoldable pub histogram_dump : Histogram → Text → Option (List Text)
histogram_dump h tag = do
  let e = extent_loop 0 h.counts (record { i = n_buckets; j = 0; total_count = 0 })
  lines ← columns_loop (e.j + 1 - e.i) h.counts e.i [] 0
  some ((tag ++ (text " (" ++ decimal e.total_count (text " total)"))) ∷ lines)
