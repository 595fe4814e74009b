-- ===== src/Process.antt =====
-- What the processes of src/storage/act_storage.c and src/index/act_index.c do as a whole: the calls that
-- `main` makes one after the other, where they stop it, and the loop of the reports.
pub mod Totals
pub mod Reports
pub mod Whole
pub mod Failing
use act.Common.{
  ℕ, zero, suc, ◌+◌, ◌-◌, ◌*◌, ◌/◌, ◌%◌, ◌^◌, Bool, true, false, not, ◌&&◌, Option, none, some,
  List, [], ◌∷◌, ◌++◌, ltb, if◌then◌else◌,
}
use act.Common.Partial.{◌>>=◌}
use act.Common.Text.{Text, text}
use act.Common.Text.Decimal.{decimal}
use act.Common.Word.{u32, u64, sub64}

-- A call of `main`, or a change of `g_running`, of a program with these threads, queues and histograms.
pub data Event (Thread Queue Hist : Type 0) : Type 0 where
  prints : Text → Event Thread Queue Hist
  sets_scheduler : (device_name mode : Text) → Event Thread Queue Hist
  creates_histogram : Hist → Event Thread Queue Hist
  creates_queue : Queue → Event Thread Queue Hist
  discovers : ℕ → Event Thread Queue Hist
  seeds_rand : Event Thread Queue Hist
  starts : Event Thread Queue Hist
  creates_thread : Thread → Event Thread Queue Hist
  sleeps : ℕ → Event Thread Queue Hist
  dumps : Hist → Text → Event Thread Queue Hist
  stops : Event Thread Queue Hist
  joins : Thread → Event Thread Queue Hist
  destroys_queue : Queue → Event Thread Queue Hist
  closes_descriptors : ℕ → Event Thread Queue Hist
  frees_histogram : Hist → Event Thread Queue Hist

-- What the clock and the other threads show to `main`: the n-th `get_us`, `g_running` before it, and
-- `g_reqs_queued` at the n-th report.
pub record Seen : Type 0 where
  pub clock : ℕ → ℕ
  pub running : ℕ → Bool
  pub queued : ℕ → ℕ

-- The calls that were made, and the status of the process.
pub record Run (Thread Queue Hist : Type 0) : Type 0 where
  pub events : List (Event Thread Queue Hist)
  pub status : ℕ

-- What `main` sleeps before report `count`, as an int64_t, in microseconds; a time that is not positive
-- is left out.
abbrev pub sleep_us : ℕ → ℕ → ℕ → ℕ → ℕ
sleep_us interval count now start = sub64 (u64 (count * interval)) (sub64 now start)

module _ {Thread Queue Hist : Type 0} where
  -- The calls of `main` that end the process when they fail.
  abbrev pub may_fail : Event Thread Queue Hist → Bool
  may_fail (prints s) = false
  may_fail (sets_scheduler name mode) = false
  may_fail (creates_histogram h) = true
  may_fail (creates_queue q) = true
  may_fail (discovers d) = true
  may_fail seeds_rand = false
  may_fail starts = false
  may_fail (creates_thread t) = true
  may_fail (sleeps us) = false
  may_fail (dumps h tag) = false
  may_fail stops = false
  may_fail (joins t) = false
  may_fail (destroys_queue q) = false
  may_fail (closes_descriptors d) = false
  may_fail (frees_histogram h) = false

  -- `for (k = 0; k < n; k++)`, of which `left` rounds are left.
  abbrev pub for_from :
      ℕ → ℕ → (ℕ → List (Event Thread Queue Hist)) → List (Event Thread Queue Hist)
  for_from k zero body = []
  for_from k (suc left) body = body k ++ for_from (k + 1) left body

  abbrev pub for_each : ℕ → (ℕ → List (Event Thread Queue Hist)) → List (Event Thread Queue Hist)
  for_each n body = for_from 0 n body

  -- `if (b) { ... }`.
  abbrev pub when : Bool → List (Event Thread Queue Hist) → List (Event Thread Queue Hist)
  when b calls = if b then calls else []

  -- The calls in order, up to one that fails, and whether none did. `ok` says which calls succeed.
  pub until_failure :
      (Event Thread Queue Hist → Bool)
      → List (Event Thread Queue Hist)
      → List (Event Thread Queue Hist) × Bool
  until_failure ok [] = ([], true)
  until_failure ok (e ∷ calls) =
      let (made, all) = until_failure ok calls in
      if may_fail e && not (ok e) then (e ∷ [], false) else (e ∷ made, all)

  abbrev pub sleep_calls : ℕ → List (Event Thread Queue Hist)
  sleep_calls us = when (ltb 0 us && ltb us (2 ^ 63)) (sleeps (u32 us) ∷ [])

  -- What a report prints, of which `dumped` are the histograms.
  abbrev pub printed :
      Seen → ℕ → ℕ → List (Event Thread Queue Hist) → List (Event Thread Queue Hist)
  printed seen interval count dumped =
      prints (text "after " ++ decimal (u64 (count * interval) / 1000000) (text " sec:"))
      ∷ prints (text "requests-queued: " ++ decimal (seen.queued count) [])
      ∷ (dumped ++ (prints [] ∷ []))

  -- A report: the sleep until it is due, and what it prints.
  abbrev pub report :
      Seen → ℕ → ℕ → ℕ → List (Event Thread Queue Hist) → List (Event Thread Queue Hist)
  report seen interval start count dumped =
      sleep_calls (sleep_us interval count (seen.clock count) start)
      ++ printed seen interval count dumped

  -- The loop of the reports on fuel: `count` reports have been made, and the clock was read `count`
  -- times after `start`. `none` means that the fuel ran out.
  pub report_loop :
      ℕ
      → Seen
      → ℕ
      → ℕ
      → ℕ
      → List (Event Thread Queue Hist)
      → ℕ
      → Option (List (Event Thread Queue Hist))
  report_loop zero seen interval start stop dumped count = none
  report_loop (suc fuel) seen interval start stop dumped count =
      let rest = report_loop fuel seen interval start stop dumped (count + 1) in
      let more = (do later ← rest; some (report seen interval start (count + 1) dumped ++ later)) in
      if seen.running (count + 1) && ltb (seen.clock (count + 1)) stop then more else some []

  -- From the start-up calls on: `exit(-1)` at the first that fails; otherwise the reports from the time
  -- `seen.clock 0` on, for `run_us`, and the calls at the end.
  pub run_process :
      ℕ
      → (Event Thread Queue Hist → Bool)
      → Seen
      → (interval run_us : ℕ) → (startup dumped ending : List (Event Thread Queue Hist))
      → Option (Run Thread Queue Hist)
  run_process fuel ok seen interval run_us startup dumped ending =
      let (made, all) = until_failure ok startup in
      let start = seen.clock 0 in
      let whole = (do
        reports ← report_loop fuel seen interval start (u64 (start + run_us)) dumped 0
        some (record { events = made ++ (reports ++ (stops ∷ ending)); status = 0 })) in
      if all then whole else some (record { events = made; status = 255 })
