-- ===== src/Process/Failing.antt =====
-- A run in which a call may fail.
use act.Common.{
  ℕ, zero, suc, ◌+◌, ◌/◌, ◌≤◌, ◌<◌, ◌≡◌, sym, subst, ◌==◌, ==→eq, ==_false→ne, arith, ◌⊎◌, inl, inr,
  refl, ap, Bool, true, false, not, ◌&&◌, Option, some, List, [], ◌∷◌, ◌++◌, Bool-cases,
}
use act.Process.{
  Event, prints, sets_scheduler, creates_histogram, creates_queue, discovers, seeds_rand, starts,
  creates_thread, sleeps, dumps, stops, joins, destroys_queue, closes_descriptors, frees_histogram,
  Seen, Run, may_fail, for_from, until_failure, run_process,
}
use act.Process.Reports.{Honest, reports, report_loop-ends}

module _ {Thread Queue Hist : Type 0} (ok : Event Thread Queue Hist → Bool) where
  -- A call of one of the four kinds that have a result to test: it succeeds, or it fails.
  abbrev pub Passed : Event Thread Queue Hist → Type 0
  Passed (creates_histogram h) = ok (creates_histogram h) ≡ true
  Passed (creates_queue q) = ok (creates_queue q) ≡ true
  Passed (discovers d) = ok (discovers d) ≡ true
  Passed (creates_thread t) = ok (creates_thread t) ≡ true
  Passed e = Unit {0}

  abbrev pub Failed : Event Thread Queue Hist → Type 0
  Failed (creates_histogram h) = ok (creates_histogram h) ≡ false
  Failed (creates_queue q) = ok (creates_queue q) ≡ false
  Failed (discovers d) = ok (discovers d) ≡ false
  Failed (creates_thread t) = ok (creates_thread t) ≡ false
  Failed e = ⊥

  abbrev Verdict : Event Thread Queue Hist → Bool → Type 0
  Verdict e good =
      (((good && not (ok e)) ≡ false) × Passed e) ⊎ (((good && not (ok e)) ≡ true) × Failed e)

  verdict : (e : Event Thread Queue Hist) → Verdict e (may_fail e)
  verdict (prints s) = inl (refl, tt)
  verdict (sets_scheduler n m) = inl (refl, tt)
  verdict (creates_histogram h) = elim (Bool-cases (ok (creates_histogram h))) [
    | inl e ↦ inl (rw e refl, e)
    | inr e ↦ inr (rw e refl, e)
  ]
  verdict (creates_queue q) = elim (Bool-cases (ok (creates_queue q))) [
    | inl e ↦ inl (rw e refl, e)
    | inr e ↦ inr (rw e refl, e)
  ]
  verdict (discovers d) = elim (Bool-cases (ok (discovers d))) [
    | inl e ↦ inl (rw e refl, e)
    | inr e ↦ inr (rw e refl, e)
  ]
  verdict seeds_rand = inl (refl, tt)
  verdict starts = inl (refl, tt)
  verdict (creates_thread t) = elim (Bool-cases (ok (creates_thread t))) [
    | inl e ↦ inl (rw e refl, e)
    | inr e ↦ inr (rw e refl, e)
  ]
  verdict (sleeps us) = inl (refl, tt)
  verdict (dumps h s) = inl (refl, tt)
  verdict stops = inl (refl, tt)
  verdict (joins t) = inl (refl, tt)
  verdict (destroys_queue q) = inl (refl, tt)
  verdict (closes_descriptors d) = inl (refl, tt)
  verdict (frees_histogram h) = inl (refl, tt)

  -- No call that may fail does.
  abbrev pub AllSucceed : List (Event Thread Queue Hist) → Type 0
  AllSucceed [] = Unit {0}
  AllSucceed (e ∷ calls) = Passed e × AllSucceed calls

  pub AllSucceed-append :
      (a b : List (Event Thread Queue Hist)) → AllSucceed (a ++ b) → AllSucceed a × AllSucceed b
  AllSucceed-append [] b h = (tt, h)
  AllSucceed-append (e ∷ a) b (p, h) =
      let (left, right) = AllSucceed-append a b h in ((p, left), right)

  pub AllSucceed-for_from :
      (k n i : ℕ) (body : ℕ → List (Event Thread Queue Hist))
      → AllSucceed (for_from k n body)
      → k ≤ i
      → i < k + n
      → AllSucceed (body i)
  AllSucceed-for_from k zero i body h l r = absurd (omega arith)
  AllSucceed-for_from k (suc n) i body h l r = elim (Bool-cases (i == k)) [
    | inl here ↦
        subst (λ t. AllSucceed (body t)) (sym (==→eq i k here)) (AllSucceed-append (body k) _ h).0
    | inr on ↦
        AllSucceed-for_from (k + 1) n i body (AllSucceed-append (body k) _ h).1
          (omega (arith, l, ==_false→ne i k on)) (omega (arith, r))
  ]

  -- The calls that were made are those up to the first that failed, and that one.
  abbrev pub FailsIn : List (Event Thread Queue Hist) → List (Event Thread Queue Hist) → Type 0
  FailsIn calls made =
      (before : List (Event Thread Queue Hist)) × (e : Event Thread Queue Hist) × (after : List
        (Event Thread Queue Hist))
      × (calls ≡ before ++ (e ∷ after))
      × AllSucceed before
      × Failed e
      × (made ≡ before ++ (e ∷ []))

  until_failure-cases :
      (calls : List (Event Thread Queue Hist))
      → ((until_failure ok calls ≡ (calls, true)) × AllSucceed calls)
        ⊎ ((made : List (Event Thread Queue Hist)) × (until_failure ok calls ≡ (made, false))
            × FailsIn calls made)
  unfolding until_failure
  until_failure-cases [] = inl (refl, tt)
  until_failure-cases (e ∷ calls) = elim (verdict e) [
    | inr (bad, f) ↦ inr (e ∷ [], rw (bad) refl, ([], e, calls, refl, tt, f, refl))
    | inl (good, passed) ↦ elim (until_failure-cases calls) [
      | inl (all, each) ↦ inl (rw (all, good) refl, (passed, each))
      | inr (made, some_made, (before, f, after, split, each, bad, same)) ↦ inr (
        e ∷ made,
        rw (some_made, good) refl,
        (e ∷ before, f, after, ap (λ t. e ∷ t) split, (passed, each), bad, ap (λ t. e ∷ t) same),
      )
    ]
  ]

  -- The process ends: with 255 at the first call of the start-up that fails, and without a report, or
  -- with 0, where none does.
  abbrev pub EndsEither : List (Event Thread Queue Hist) → Option (Run Thread Queue Hist) → Type 0
  EndsEither startup r =
      (run : Run Thread Queue Hist) × (r ≡ some run)
      × (((run.status ≡ 0) × AllSucceed startup)
          ⊎ ((run.status ≡ 255) × FailsIn startup run.events))

  pub run_process-EndsEither :
      (seen : Seen) (interval run_us : ℕ) (startup dumped ending : List (Event Thread Queue Hist))
      → Honest seen interval run_us
      → EndsEither startup
          (run_process (run_us / interval + 2) ok seen interval run_us startup dumped ending)
  unfolding run_process
  run_process-EndsEither seen interval run_us startup dumped ending h =
      elim (until_failure-cases startup) [
        | inl (all, each) ↦
            let (n, few, e, punctual, over) = report_loop-ends seen interval run_us h dumped in
            (
              record {
                events = startup ++ (reports seen interval dumped 0 n ++ (stops ∷ ending));
                status = 0;
              },
              rw (all, e) refl,
              inl (refl, each),
            )
        | inr (made, some_made, fails) ↦
            (record { events = made; status = 255 }, rw (some_made) refl, inr (refl, fails))
      ]
