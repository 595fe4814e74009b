-- ===== src/Hardware/Cpus.antt =====
-- `num_cpus` of hardware.c: how many CPUs it counts.
use act.Common.{
  ℕ, zero, suc, ◌+◌, ◌<◌, ◌≡◌, inl, inr, refl, ap, ◌∙◌, Bool, some, List, [], ◌∷◌, ◌++◌,
  if◌then◌else◌, arith,
}
use act.Common.Lists.{length, length-append}
use act.Common.Text.{Text}
use act.Common.Text.Decimal.{decimal}
use act.Common.Text.Tokens.{length-decimal}
use act.Hardware.{
  ok, not_found, opened, absent, Files, CpuSet, cpu_setsize, index_of, read_file, read_index,
  online_path, package_path, count_cpu, cpus_loop, cpus_online, num_cpus,
}
use act.Hardware.Reading.{Serves, read_file-ReadAll}
use act.Hardware.CpuList.{
  Range, IsRange, AreRanges, in_ranges, list_file, read_list-list_file, cut_last-append,
  until_nul_lem, decimal-not_nul, strtoul_lem,
}

-- The number of a package, as the system writes it.
abbrev pub index_file : ℕ → Text
index_file x = decimal x [] ++ (b'\n' ∷ [])

pub read_index-index_file :
    (files : Files) (path : Text) (x : ℕ)
    → x < cpu_setsize
    → files.open_file path ≡ opened
    → Serves (files.read path) (index_file x)
    → read_index files path ≡ some (ok, x)
unfolding read_index
read_index-index_file files path x h o serves =
    let digits = length-decimal x (omega (arith, h)) in
    elim (read_file-ReadAll files path 100 (index_file x) o serves) [
      | inr (long, e) ↦
          absurd (omega (arith, long, length-append (decimal x []) (b'\n' ∷ []), digits))
      | inl (l, e) ↦
          rw
            (
              e,
              cut_last-append (decimal x []) b'\n',
              until_nul_lem (decimal x []) (decimal-not_nul x [] refl),
              strtoul_lem x [] h refl,
            )
            (small x h)
    ]
  where
    small : (n : ℕ) → n < cpu_setsize → (some (index_of (n, [])) ≡ some (ok, n))
    small n h' = ground arith

-- A CPU that has a package.
abbrev pub HasPackage : Files → ℕ → Type 0
HasPackage files c =
    (x : ℕ) × (x < cpu_setsize)
    × (files.open_file (package_path c) ≡ opened)
    × Serves (files.read (package_path c)) (index_file x)

-- How many of the `m` CPUs from `i` on are in the list.
abbrev pub count_from : ℕ → List Range → ℕ → ℕ
count_from zero rs i = 0
count_from (suc m) rs i = (if in_ranges i rs then 1 else 0) + count_from m rs (i + 1)

module _ (files : Files) (rs : List Range) (online : CpuSet)
    (listed : (c : ℕ) → online c ≡ in_ranges c rs) (n : ℕ)
    (packages : (c : ℕ) → c < n → HasPackage files c)
    (last : files.open_file (package_path n) ≡ absent) where
  absent_lem :
      (path : Text) → files.open_file path ≡ absent → read_index files path ≡ some (not_found, 0)
  unfolding read_index read_file
  absent_lem path e = rw e refl

  cpus_loop_lem :
      (m left i k : ℕ)
      → i + m ≡ n
      → m < left
      → cpus_loop left files online i k ≡ some (k + count_from m rs i)
  unfolding cpus_loop
  cpus_loop_lem m zero i k e h = absurd (omega arith)
  cpus_loop_lem zero (suc left) i k e h =
      ap (count_cpu (cpus_loop left files online (i + 1) (if online i then k + 1 else k)) k) (
        absent_lem (package_path i)
          (ap (λ j. files.open_file (package_path j)) (omega (arith, e)) ∙ last))
      ∙ ap some (omega arith)
  cpus_loop_lem (suc m) (suc left) i k e h =
      let (x, small, o, serves) = packages i (omega (arith, e)) in
      ap (count_cpu (cpus_loop left files online (i + 1) (if online i then k + 1 else k)) k)
        (read_index-index_file files (package_path i) x small o serves)
      ∙ cpus_loop_lem m left (i + 1) (if online i then k + 1 else k) (omega (arith, e))
          (omega (arith, h))
      ∙ ap some (by_bit (online i) (in_ranges i rs) (listed i))
    where
      by_bit :
          (b b' : Bool)
          → b ≡ b'
          → (if b then k + 1 else k) + count_from m rs (i + 1)
            ≡ k + ((if b' then 1 else 0) + count_from m rs (i + 1))
      by_bit b b' e' = ground (arith, e')

-- Where the system lists the CPUs that are online, and has a package for each CPU below `n`, which is
-- less than 1024, and no CPU `n`, the result is the number of CPUs below `n` in the list.
pub num_cpus_lem :
    (files : Files) (r : Range) (rs : List Range) (n : ℕ)
    → files.open_file online_path ≡ opened
    → Serves (files.read online_path) (list_file r rs)
    → length (list_file r rs) < 1000
    → IsRange r
    → AreRanges rs
    → n < cpu_setsize
    → ((c : ℕ) → c < n → HasPackage files c)
    → files.open_file (package_path n) ≡ absent
    → num_cpus files ≡ some (count_from n (r ∷ rs) 0)
unfolding num_cpus
num_cpus_lem files r rs n o serves short h hs small packages last =
    let (online, e, listed) = read_list-list_file files online_path r rs o serves short h hs in
    ap (cpus_online files) e
    ∙ cpus_loop_lem files (r ∷ rs) online listed n packages last n cpu_setsize 0 0 (omega arith)
        (omega (arith, small))
    ∙ ap some (omega arith)
