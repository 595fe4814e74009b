-- ===== src/Tests/Systems.antt =====
-- The files of the system, and what is printed, at concrete inputs.
use act.Common.{
  ℕ, zero, suc, ◌%◌, ◌^◌, ◌≤◌, ◌<◌, ◌≡◌, refl, ap, ◌∙◌, subst, Option, some, List, [], ◌∷◌, ◌++◌,
  arith, if◌then◌else◌,
}
use act.Common.Lists.{length, replicate}
use act.Common.Text.{Text, text, text_eq}
use act.Common.Text.Decimal.{decimal}
use act.Hardware.{
  ok, opened, absent, Files, CpuSet, read_file, read_list, num_cpus, online_path, package_path,
}
use act.Hardware.CpuList.{Range, one, from_to, in_ranges, list_file, read_list-list_file}
use act.Hardware.Cpus.{HasPackage, index_file, count_from, num_cpus_lem}
use act.Hardware.Reading.{Serves, ReadAll, read_file-ReadAll}
use act.Histogram.{Histogram}
use act.Histogram.Insert.{IsValid}
use act.Histogram.Dump.{histogram_dump}
use act.Histogram.Dump.Printed.{in_fours}
use act.Histogram.Dump.Window.{columns, sum}
use act.Histogram.Dump.Whole.{AllCounts, histogram_dump_lem}

abbrev take : ℕ → Text → Text
take zero s = []
take (suc n) [] = []
take (suc n) (c ∷ s) = c ∷ take n s

abbrev drop : ℕ → Text → Text
drop zero s = s
drop (suc n) [] = []
drop (suc n) (c ∷ s) = drop n s

-- A file that is given as much as it is asked for.
abbrev serve : Text → ℕ → ℕ → Option Text
serve file at size = some (take size (drop at file))

drop-length : (before after : Text) → drop (length before) (before ++ after) ≡ after
drop-length [] after = refl
drop-length (c ∷ before) after = drop-length before after

take-drop : (n : ℕ) (s : Text) → s ≡ take n s ++ drop n s
take-drop zero s = refl
take-drop (suc n) [] = refl
take-drop (suc n) (c ∷ s) = ap (λ t. c ∷ t) (take-drop n s)

length-take : (n : ℕ) (s : Text) → length (take n s) ≤ n
length-take zero s = omega arith
length-take (suc n) [] = omega arith
length-take (suc n) (c ∷ s) = omega (arith, length-take n s)

take-nothing : (n : ℕ) (s : Text) → 0 < n → take n s ≡ [] → s ≡ []
take-nothing zero s h e = absurd (omega arith)
take-nothing (suc n) [] h e = refl
take-nothing (suc n) (c ∷ s) h e = absurd (omega (arith, ap length e))

serve-Serves : (file : Text) → Serves (serve file) file
serve-Serves file before after size e h = (
  take size after,
  drop size after,
  ap (λ t. some (take size t)) (ap (drop (length before)) e ∙ drop-length before after),
  take-drop size after,
  length-take size after,
  take-nothing size after h,
)

abbrev ranges : List Range
ranges = one 5 ∷ []

abbrev list_text : Text
list_text = text "0-3,5\n"

-- Four CPUs, of which the list has all, and CPU 5, which has no package.
abbrev files : Files
files = record {
  open_file = λ path. if text_eq path (package_path 4) then absent else opened;
  read = λ path. serve (if text_eq path online_path then list_text else index_file 0);
}

read_file_example : ReadAll 1000 list_text (read_file files online_path 1000)
read_file_example = read_file-ReadAll files online_path 1000 list_text refl (serve-Serves list_text)

lists : list_text ≡ list_file (from_to 0 3) ranges
unfolding decimal
lists = refl

served_list : Serves (files.read online_path) (list_file (from_to 0 3) ranges)
served_list = subst (Serves (serve list_text)) lists (serve-Serves list_text)

short : length (list_file (from_to 0 3) ranges) < 1000
short = subst (λ s. length s < 1000) lists (omega arith)

in_order : (0 ≤ 3) × (3 < 1024)
in_order = (omega arith, omega arith)

read_list_example :
    (mask : CpuSet) × (read_list files online_path ≡ some (ok, mask))
    × ((c : ℕ) → mask c ≡ in_ranges c (from_to 0 3 ∷ ranges))
read_list_example =
    read_list-list_file files online_path (from_to 0 3) ranges refl served_list short in_order
      (omega arith, tt)

packages : (c : ℕ) → c < 4 → HasPackage files c
unfolding decimal
packages zero h = (0, omega arith, refl, serve-Serves (index_file 0))
packages (suc zero) h = (0, omega arith, refl, serve-Serves (index_file 0))
packages (suc (suc zero)) h = (0, omega arith, refl, serve-Serves (index_file 0))
packages (suc (suc (suc zero))) h = (0, omega arith, refl, serve-Serves (index_file 0))
packages (suc (suc (suc (suc c)))) h = absurd (omega arith)

no_more : files.open_file (package_path 4) ≡ absent
unfolding decimal
no_more = refl

num_cpus_example : num_cpus files ≡ some (count_from 4 (from_to 0 3 ∷ ranges) 0)
num_cpus_example =
    num_cpus_lem files (from_to 0 3) ranges 4 online_opened served_list short in_order
      (omega arith, tt) (omega arith) packages no_more
  where
    online_opened : files.open_file online_path ≡ opened
    online_opened = refl

-- Five buckets that are not empty.
abbrev latencies : Histogram
latencies = record {
  time_div = 1000;
  counts = 7 ∷ 0 ∷ 41 ∷ 100000 ∷ 12345678901 ∷ 0 ∷ 3 ∷ replicate 58 0;
}

latencies-IsValid : IsValid latencies
latencies-IsValid = record { positive = omega arith; buckets = refl }

AllCounts-zeros : (n : ℕ) → AllCounts (replicate n 0)
AllCounts-zeros zero = tt
AllCounts-zeros (suc n) = (omega arith, AllCounts-zeros n)

latencies-AllCounts : AllCounts latencies.counts
latencies-AllCounts = (
  omega arith,
  (
    omega arith,
    (omega arith, (omega arith, (omega arith, (omega arith, (omega arith, AllCounts-zeros 58))))),
  ),
)

histogram_dump_example :
    histogram_dump latencies (text "reads")
    ≡ some (
        (text "reads" ++ (text " (" ++ decimal (sum latencies.counts % 2 ^ 64) (text " total)")))
        ∷ in_fours (columns 0 latencies.counts))
histogram_dump_example =
    histogram_dump_lem latencies (text "reads") latencies-IsValid latencies-AllCounts
