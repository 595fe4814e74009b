-- ===== src/Process/Reports.antt =====
-- The loop of the reports: how often it reports, and when.
use native.Mathlib.Nat.{add-mul, one-mul, zero-mul, lt-div-mul-add}
use act.Common.{
  ℕ, zero, suc, ◌+◌, ◌*◌, ◌/◌, ◌^◌, ◌≤◌, ◌<◌, ◌≡◌, ◌⊎◌, refl, ap, ◌∙◌, true, false, ◌&&◌, Option,
  some, List, [], ◌∷◌, ◌++◌, ltb, if◌then◌else◌, arith, Bool-cases, inl, inr, subst,
}
use act.Common.Word.{u32, u64}
use act.Process.{
  Event, prints, sets_scheduler, creates_histogram, creates_queue, discovers, seeds_rand, starts,
  creates_thread, sleeps, dumps, stops, joins, destroys_queue, closes_descriptors, frees_histogram,
  Seen, sleep_us, printed, report, report_loop,
}

-- The microseconds that `usleep` is given before report `count`.
abbrev pub slept : Seen → ℕ → ℕ → ℕ
slept seen interval count =
    let us = sleep_us interval count (seen.clock count) (seen.clock 0) in
    if ltb 0 us && ltb us (2 ^ 63) then u32 us else 0

-- The clock does not go back during the run, and shows the time that was slept.
pub record Honest (seen : Seen) (interval run_us : ℕ) : Type 0 where
  pub first : seen.clock 0 ≤ seen.clock 1
  pub later :
      (n : ℕ)
      → seen.clock (n + 1) < seen.clock 0 + run_us
      → seen.clock (n + 1) + slept seen interval (n + 1) ≤ seen.clock (n + 1 + 1)
  pub some_time : 0 < interval
  pub short : interval < 2 ^ 32
  pub wide : seen.clock 0 + run_us < 2 ^ 62

next_multiple : (n interval : ℕ) → (n + 1) * interval ≡ n * interval + interval
next_multiple n interval = add-mul n 1 interval ∙ ap (λ a. n * interval + a) (one-mul interval)

-- The reports from `count` on, `n` of them.
abbrev pub reports :
    {Thread Queue Hist : Type 0}
    → Seen
    → ℕ
    → List (Event Thread Queue Hist)
    → ℕ
    → ℕ
    → List (Event Thread Queue Hist)
reports seen interval dumped count zero = []
reports seen interval dumped count (suc n) =
    report seen interval (seen.clock 0) (count + 1) dumped
    ++ reports seen interval dumped (count + 1) n

-- From the time `t` on, none of these calls prints or dumps before the time `due`, where a sleep takes the
-- time that it is given.
abbrev pub NotBefore :
    {Thread Queue Hist : Type 0} → ℕ → ℕ → List (Event Thread Queue Hist) → Type 0
NotBefore due t [] = Unit {0}
NotBefore due t (sleeps us ∷ calls) = NotBefore due (t + us) calls
NotBefore due t (prints s ∷ calls) = (due ≤ t) × NotBefore due t calls
NotBefore due t (dumps h tag ∷ calls) = (due ≤ t) × NotBefore due t calls
NotBefore due t (e ∷ calls) = NotBefore due t calls

late :
    {Thread Queue Hist : Type 0} (due now : ℕ) (calls : List (Event Thread Queue Hist))
    → due ≤ now
    → NotBefore due now calls
late due now [] p = tt
late due now (prints s ∷ calls) p = (p, late due now calls p)
late due now (sets_scheduler n m ∷ calls) p = late due now calls p
late due now (creates_histogram h ∷ calls) p = late due now calls p
late due now (creates_queue q ∷ calls) p = late due now calls p
late due now (discovers d ∷ calls) p = late due now calls p
late due now (seeds_rand ∷ calls) p = late due now calls p
late due now (starts ∷ calls) p = late due now calls p
late due now (creates_thread t ∷ calls) p = late due now calls p
late due now (sleeps us ∷ calls) p = late due (now + us) calls (omega (arith, p))
late due now (dumps h tag ∷ calls) p = (p, late due now calls p)
late due now (stops ∷ calls) p = late due now calls p
late due now (joins t ∷ calls) p = late due now calls p
late due now (destroys_queue q ∷ calls) p = late due now calls p
late due now (closes_descriptors d ∷ calls) p = late due now calls p
late due now (frees_histogram h ∷ calls) p = late due now calls p

-- Of `n` reports from `count` on none is early: report `k`, from the reading of the clock that it starts
-- with, sleeps until `k` intervals are over before it prints or dumps. The reading after it shows that time
-- too.
abbrev pub Punctual :
    {Thread Queue Hist : Type 0} → Seen → ℕ → List (Event Thread Queue Hist) → ℕ → ℕ → Type 0
Punctual seen interval dumped count zero = seen.clock 0 + count * interval ≤ seen.clock (count + 1)
Punctual seen interval dumped count (suc n) =
    (seen.clock 0 + count * interval ≤ seen.clock (count + 1))
    × NotBefore (seen.clock 0 + (count + 1) * interval) (seen.clock (count + 1))
        (report seen interval (seen.clock 0) (count + 1) dumped)
    × Punctual seen interval dumped (count + 1) n

module _ (seen : Seen) (interval run_us : ℕ) (h : Honest seen interval run_us) where
  -- What is slept before a report is enough.
  slept_enough :
      (n : ℕ)
      → seen.clock 0 + n * interval ≤ seen.clock (n + 1)
      → seen.clock (n + 1) < seen.clock 0 + run_us
      → seen.clock 0 + (n + 1) * interval ≤ seen.clock (n + 1) + slept seen interval (n + 1)
  slept_enough n before inside = ground (arith, next_multiple n interval, h.short, h.wide)

  -- One sleep: from a reading within the run to the next one.
  wait :
      (n : ℕ)
      → seen.clock 0 + n * interval ≤ seen.clock (n + 1)
      → seen.clock (n + 1) < seen.clock 0 + run_us
      → seen.clock 0 + (n + 1) * interval ≤ seen.clock (n + 1 + 1)
  wait n before inside = omega (arith, h.later n inside, slept_enough n before inside)

  -- A round that goes on is within the run.
  goes_on :
      (n : ℕ)
      → (seen.running n && ltb (seen.clock n) (u64 (seen.clock 0 + run_us))) ≡ true
      → seen.clock n < seen.clock 0 + run_us
  goes_on n e = ground (arith, h.wide)

  ends :
      (n : ℕ)
      → (seen.running n && ltb (seen.clock n) (u64 (seen.clock 0 + run_us))) ≡ false
      → (seen.running n ≡ false) ⊎ (seen.clock 0 + run_us ≤ seen.clock n)
  ends n e = ground (arith, h.wide)

  module _ {Thread Queue Hist : Type 0} (dumped : List (Event Thread Queue Hist)) where
    -- The loop has made `n` reports, at most `fuel`, and none of them early; then the test was over or the
    -- time was up.
    abbrev pub Reported : ℕ → ℕ → Option (List (Event Thread Queue Hist)) → Type 0
    Reported fuel count r =
        (n : ℕ) × (n ≤ fuel)
        × (r ≡ some (reports seen interval dumped count n))
        × Punctual seen interval dumped count n
        × ((seen.running (count + n + 1) ≡ false)
            ⊎ (seen.clock 0 + run_us ≤ seen.clock (count + n + 1)))

    report-NotBefore :
        (n : ℕ)
        → seen.clock 0 + n * interval ≤ seen.clock (n + 1)
        → seen.clock (n + 1) < seen.clock 0 + run_us
        → NotBefore
            (seen.clock 0 + (n + 1) * interval)
            (seen.clock (n + 1))
            (report seen interval (seen.clock 0) (n + 1) dumped)
    report-NotBefore n before inside = elim (Bool-cases (ltb 0 us && ltb us (2 ^ 63))) [
      | inl e ↦
          rw e (
            late _ _ (printed seen interval (n + 1) dumped)
              (rw e at (slept_enough n before inside)))
      | inr e ↦
          let enough : seen.clock 0 + (n + 1) * interval ≤ seen.clock (n + 1) =
            omega (arith, rw e at (slept_enough n before inside)) in
          rw e (late _ _ (printed seen interval (n + 1) dumped) enough)
    ]
      where
        us : ℕ
        us = sleep_us interval (n + 1) (seen.clock (n + 1)) (seen.clock 0)

    none_more :
        (fuel count : ℕ)
        → seen.clock 0 + count * interval ≤ seen.clock (count + 1)
        → (seen.running (count + 1) ≡ false) ⊎ (seen.clock 0 + run_us ≤ seen.clock (count + 1))
        → Reported fuel count (some [])
    none_more fuel count before over = (
      0,
      omega arith,
      refl,
      before,
      subst (λ k. (seen.running (k + 1) ≡ false) ⊎ (seen.clock 0 + run_us ≤ seen.clock (k + 1)))
          (let e : count ≡ count + 0 = omega arith in e) over,
    )

    report_loop-Reported :
        (fuel count : ℕ)
        → seen.clock 0 + count * interval ≤ seen.clock (count + 1)
        → run_us ≤ (count + fuel) * interval
        → Reported fuel count (
            report_loop
              (suc fuel)
              seen
              interval
              (seen.clock 0)
              (u64 (seen.clock 0 + run_us))
              dumped
              count)
    unfolding report_loop
    report_loop-Reported zero count before enough =
        elim (Bool-cases (
          seen.running (count + 1) && ltb (seen.clock (count + 1)) (u64 (seen.clock 0 + run_us)))) [
            | inl e ↦ absurd (
                omega (
                  arith,
                  goes_on (count + 1) e,
                  ap (λ a. a * interval) (let q : count + 0 ≡ count = omega arith in q),
                ))
            | inr e ↦ rw e (none_more zero count before (ends (count + 1) e))
          ]
    report_loop-Reported (suc fuel) count before enough =
        elim (Bool-cases (
          seen.running (count + 1) && ltb (seen.clock (count + 1)) (u64 (seen.clock 0 + run_us)))) [
            | inr e ↦ rw e (none_more (suc fuel) count before (ends (count + 1) e))
            | inl e ↦
                let (n, few, rest, punctual, over) =
                  report_loop-Reported fuel (count + 1) (wait count before (goes_on (count + 1) e))
                    (omega (
                      arith,
                      enough,
                      ap (λ a. a * interval)
                          (let q : count + suc fuel ≡ count + 1 + fuel = omega arith in q),
                    )) in
                rw (e, rest)
                  (
                    suc n,
                    omega arith,
                    refl,
                    (before, report-NotBefore count before (goes_on (count + 1) e), punctual),
                    subst
                        (λ k.
                          (seen.running (k + 1) ≡ false)
                          ⊎ (seen.clock 0 + run_us ≤ seen.clock (k + 1)))
                        (let q : count + 1 + n ≡ count + suc n = omega arith in q) over,
                  )
          ]

    enough_fuel : run_us ≤ (run_us / interval + 1) * interval
    enough_fuel =
        omega (
          arith,
          next_multiple (run_us / interval) interval,
          lt-div-mul-add {a = run_us} h.some_time,
        )

    -- With as much fuel as the run has intervals, and one more, the loop ends.
    pub report_loop-ends : Reported (run_us / interval + 1) 0 (
        report_loop
          (run_us / interval + 2)
          seen
          interval
          (seen.clock 0)
          (u64 (seen.clock 0 + run_us))
          dumped
          0)
    report_loop-ends =
        subst
          (λ fuel.
            Reported (run_us / interval + 1) 0 (
              report_loop fuel seen interval (seen.clock 0) (u64 (seen.clock 0 + run_us)) dumped 0))
          (let e : suc (run_us / interval + 1) ≡ run_us / interval + 2 = omega arith in e)
          (report_loop-Reported (run_us / interval + 1) 0
            (let f = h.first in omega (arith, zero-mul interval))
            (omega (
              arith,
              enough_fuel,
              ap (λ a. a * interval)
                  (let e : 0 + (run_us / interval + 1) ≡ run_us / interval + 1 = omega arith in e),
            )))
