-- ===== src/Hardware.antt =====
-- src/common/hardware.c: reading the files of the system about CPUs, and the scheduler of a device.
pub mod Reading
pub mod CpuList
pub mod Cpus
pub mod Scheduler
use act.Common.{
  ℕ, zero, suc, ◌+◌, ◌-◌, Bool, true, false, ◌&&◌, ◌||◌, Option, none, some, List, [], ◌∷◌, ◌++◌,
  ◌==◌, ltb, leb, if◌then◌else◌,
}
use act.Common.Lists.{length}
use act.Common.Partial.{◌>>=◌}
use act.Common.Text.{Text, text, strtoul}
use act.Common.Text.Decimal.{decimal}

-- `file_res`.
pub data FileRes : Type 0 where
  ok not_found error : FileRes

-- The result of `open`: a descriptor, ENOENT, or another error.
pub data Opening : Type 0 where
  opened absent refused : Opening

-- What the system answers on a path; `read` is given the position in the file and the size asked for,
-- and `none` is its -1.
pub record Files : Type 0 where
  pub open_file : Text → Opening
  pub read : Text → ℕ → ℕ → Option Text

-- What follows the loop of `read_file`.
abbrev pub whole : ℕ → Text → FileRes × Text
whole limit buf = if length buf == limit then (error, buf) else (ok, buf)

-- What follows a call of `read`.
abbrev pub reading :
    (Text → Option (FileRes × Text)) → ℕ → Text → Option Text → Option (FileRes × Text)
reading more limit buf none = some (error, buf)
reading more limit buf (some []) = some (whole limit buf)
reading more limit buf (some (c ∷ s)) = more (buf ++ (c ∷ s))

-- The loop of `read_file` on fuel; `buf` are the bytes read so far.
pub read_loop : ℕ → (ℕ → ℕ → Option Text) → ℕ → Text → Option (FileRes × Text)
read_loop zero read limit buf = none
read_loop (suc fuel) read limit buf =
    let next =
      reading (λ buf'. read_loop fuel read limit buf') limit buf
        (read (length buf) (limit - length buf)) in
    if ltb (length buf) limit then next else some (whole limit buf)

abbrev pub open_then : Option (FileRes × Text) → Opening → Option (FileRes × Text)
open_then r opened = r
open_then r absent = some (not_found, [])
open_then r refused = some (error, [])

-- The bytes of the file; every round but the last reads a byte.
unfoldable pub read_file : Files → Text → ℕ → Option (FileRes × Text)
read_file files path limit =
    open_then (read_loop (limit + 1) (files.read path) limit []) (files.open_file path)

abbrev pub cpu_setsize : ℕ
cpu_setsize = 1024

-- `buf[limit - 1] = '\0'`: `none` is a write outside the buffer.
abbrev pub cut_last : Text → Option Text
cut_last [] = none
cut_last (c ∷ []) = some []
cut_last (c ∷ d ∷ s) = elim (cut_last (d ∷ s)) [ none ↦ none | some t ↦ some (c ∷ t) ]

-- The string in the buffer.
abbrev pub until_nul : Text → Text
until_nul [] = []
until_nul (c ∷ s) = let later = until_nul s in if c == 0 then [] else c ∷ later

abbrev pub index_of : ℕ × Text → FileRes × ℕ
index_of (x, []) = if leb cpu_setsize x then (error, 0) else (ok, x)
index_of (x, c ∷ end) = (error, 0)

-- What follows `read_file` in `read_index`: `none` is a fault, or a `read_file` that does not end.
abbrev pub index_in : Option (FileRes × Text) → Option (FileRes × ℕ)
index_in none = none
index_in (some (not_found, buf)) = some (not_found, 0)
index_in (some (error, buf)) = some (error, 0)
index_in (some (ok, buf)) = cut_last buf >>= (λ s. some (index_of (strtoul (until_nul s))))

unfoldable pub read_index : Files → Text → Option (FileRes × ℕ)
read_index files path = index_in (read_file files path 100)

-- `cpu_set_t`.
abbrev pub CpuSet : Type 0
CpuSet = ℕ → Bool

-- The loop of CPU_SET, for the `n` CPUs from `i` on.
abbrev pub set_cpus : ℕ → ℕ → CpuSet → CpuSet
set_cpus zero i mask = mask
set_cpus (suc n) i mask = set_cpus n (i + 1) (λ c. c == i || mask c)

-- The end of a range that starts with `from`, and where its delimiter is; `none` where the list is
-- invalid.
abbrev pub range_end : ℕ × Text → Option (ℕ × ℕ × Text)
range_end (from, []) = some (from, from, [])
range_end (from, c ∷ s) =
    let (thru, delim) = strtoul s in
    if c == b','
    then some (from, from, c ∷ s)
    else if c == b'-'
    then some (from, thru, delim)
    else none

-- What follows the numbers of a range: an error, the end of the list, or the ranges from `at` on.
abbrev pub add_range :
    (Text → CpuSet → Option (FileRes × CpuSet))
    → CpuSet
    → Option (ℕ × ℕ × Text)
    → Option (FileRes × CpuSet)
add_range more mask none = some (error, mask)
add_range more mask (some (from, thru, [])) =
    if leb cpu_setsize from || leb cpu_setsize thru || ltb thru from
    then some (error, mask)
    else some (ok, set_cpus (thru + 1 - from) from mask)
add_range more mask (some (from, thru, c ∷ at)) =
    if leb cpu_setsize from || leb cpu_setsize thru || ltb thru from
    then some (error, mask)
    else more at (set_cpus (thru + 1 - from) from mask)

-- The loop of `read_list` on fuel.
pub list_loop : ℕ → Text → CpuSet → Option (FileRes × CpuSet)
list_loop zero at mask = none
list_loop (suc fuel) at mask =
    add_range (λ at' mask'. list_loop fuel at' mask') mask (range_end (strtoul at))

-- CPU_ZERO.
abbrev pub no_cpus : CpuSet
no_cpus c = false

abbrev pub list_in : Option (FileRes × Text) → Option (FileRes × CpuSet)
list_in none = none
list_in (some (not_found, buf)) = some (not_found, no_cpus)
list_in (some (error, buf)) = some (error, no_cpus)
list_in (some (ok, buf)) = cut_last buf >>= (λ s. list_loop (length s + 1) (until_nul s) no_cpus)

-- Every round but the last takes a delimiter.
unfoldable pub read_list : Files → Text → Option (FileRes × CpuSet)
read_list files path = list_in (read_file files path 1000)

abbrev pub online_path : Text
online_path = text "/sys/devices/system/cpu/online"

abbrev pub package_path : ℕ → Text
package_path n =
    text "/sys/devices/system/cpu/cpu" ++ decimal n (text "/topology/physical_package_id")

-- What follows `read_index` for a CPU: `more` is the count with it and those after it.
abbrev pub count_cpu : Option ℕ → ℕ → Option (FileRes × ℕ) → Option ℕ
count_cpu more n_cpus none = none
count_cpu more n_cpus (some (not_found, x)) = some n_cpus
count_cpu more n_cpus (some (error, x)) = some 0
count_cpu more n_cpus (some (ok, x)) = more

-- The loop of `num_cpus` over the CPUs from `n` on, with `left` of them left.
pub cpus_loop : ℕ → Files → CpuSet → ℕ → ℕ → Option ℕ
cpus_loop zero files online n n_cpus = some 0
cpus_loop (suc left) files online n n_cpus =
    let more = cpus_loop left files online (n + 1) (if online n then n_cpus + 1 else n_cpus) in
    count_cpu more n_cpus (read_index files (package_path n))

abbrev pub cpus_online : Files → Option (FileRes × CpuSet) → Option ℕ
cpus_online files none = none
cpus_online files (some (not_found, online)) = some 0
cpus_online files (some (error, online)) = some 0
cpus_online files (some (ok, online)) = cpus_loop cpu_setsize files online 0 0

-- `none` is a fault.
unfoldable pub num_cpus : Files → Option ℕ
num_cpus files = cpus_online files (read_list files online_path)

-- The part of a name after its last slash.
abbrev pub after_slash : Text → Option Text
after_slash [] = none
after_slash (c ∷ s) =
    let later = after_slash s in
    let here = if c == b'/' then some s else none in elim later [ none ↦ here | some t ↦ some t ]

abbrev pub or_whole : Text → Option Text → Text
or_whole name none = name
or_whole name (some tag) = tag

abbrev pub device_tag : Text → Text
device_tag name = or_whole name (after_slash name)

-- The file that `set_scheduler` writes the mode to.
pub scheduler_file_name : Text → Text
scheduler_file_name name = text "/sys/block/" ++ (device_tag name ++ text "/queue/scheduler")
