-- ===== src/Process/Whole.antt =====
-- A run in which no call fails: that it ends, and what its calls add up to.
use act.Common.{
  ℕ, zero, suc, ◌+◌, ◌/◌, ◌≤◌, ◌≡◌, ◌⊎◌, refl, ap, ◌∙◌, Bool, true, false, Option, some, List, [],
  ◌∷◌, ◌++◌, map, arith,
}
use act.Common.Text.{Text}
use act.Process.{
  Event, prints, dumps, sleeps, stops, Seen, Run, report, run_process, for_from, when,
}
use act.Process.Totals.{
  total, total-append, total_laws, until_failure-all, threads_created, threads_joined,
  queues_created, queues_destroyed, hists_created, hists_freed,
}
use act.Process.Reports.{Honest, Punctual, reports, report_loop-ends}

module _ {Thread Queue Hist : Type 0} where
  -- Every thread is created as often as it is joined, whatever weights are given to the threads: with the
  -- weight 1 for one of them and 0 for the others, that one is. So are the queues created and destroyed
  -- and the histograms created and freed.
  pub record Balanced (events : List (Event Thread Queue Hist)) : Type 0 where
    pub threads :
        (f : Thread → ℕ) → total (threads_created f) events ≡ total (threads_joined f) events
    pub queues :
        (f : Queue → ℕ) → total (queues_created f) events ≡ total (queues_destroyed f) events
    pub hists : (f : Hist → ℕ) → total (hists_created f) events ≡ total (hists_freed f) events

  -- The name that a dumped histogram goes by.
  abbrev pub name_of : Event Thread Queue Hist → Event Thread Queue Hist
  name_of (dumps h tag) = prints tag
  name_of e = e

  -- The call, with the histogram dumped under the name that `tag` gives it.
  abbrev pub tagged : (Hist → Text) → Event Thread Queue Hist → Event Thread Queue Hist
  tagged tag (dumps h s) = dumps h (tag h)
  tagged tag e = e

  pub map-append :
      (g : Event Thread Queue Hist → Event Thread Queue Hist) (a b : List (Event Thread Queue Hist))
      → map g (a ++ b) ≡ map g a ++ map g b
  map-append g [] b = refl
  map-append g (e ∷ a) b = ap (λ t. g e ∷ t) (map-append g a b)

  pub map-for_from :
      (g : Event Thread Queue Hist → Event Thread Queue Hist) (k n : ℕ)
      (body : ℕ → List (Event Thread Queue Hist))
      → map g (for_from k n body) ≡ for_from k n (λ i. map g (body i))
  map-for_from g k zero body = refl
  map-for_from g k (suc n) body =
      map-append g (body k) (for_from (k + 1) n body)
      ∙ ap (λ t. map g (body k) ++ t) (map-for_from g (k + 1) n body)

  pub map-when :
      (g : Event Thread Queue Hist → Event Thread Queue Hist) (b : Bool)
      (calls : List (Event Thread Queue Hist))
      → map g (when b calls) ≡ when b (map g calls)
  map-when g true calls = refl
  map-when g false calls = refl

  -- The weight of no call in a report.
  pub record Quiet (w : Event Thread Queue Hist → ℕ) (dumped : List (Event Thread Queue Hist))
      : Type 0 where
    pub sleeping : (us : ℕ) → w (sleeps us) ≡ 0
    pub printing : (s : Text) → w (prints s) ≡ 0
    pub stopping : w stops ≡ 0
    pub dumping : total w dumped ≡ 0

  module _ (w : Event Thread Queue Hist → ℕ) (dumped : List (Event Thread Queue Hist))
      (q : Quiet w dumped) (seen : Seen) (interval : ℕ) where
    total-report : (count : ℕ) → total w (report seen interval (seen.clock 0) count dumped) ≡ 0
    total-report count = simp (total_laws, q.sleeping, q.printing, q.dumping) refl

    pub total-reports : (count n : ℕ) → total w (reports seen interval dumped count n) ≡ 0
    total-reports count zero = refl
    total-reports count (suc n) =
        total-append w (report seen interval (seen.clock 0) (count + 1) dumped)
          (reports seen interval dumped (count + 1) n)
        ∙ omega (arith, total-report (count + 1), total-reports (count + 1) n)

    -- Calls before, during and after the reports.
    pub total-whole :
        (startup ending : List (Event Thread Queue Hist)) (n : ℕ)
        → total w (startup ++ (reports seen interval dumped 0 n ++ (stops ∷ ending)))
          ≡ total w startup + total w ending
    total-whole startup ending n =
        total-append w startup (reports seen interval dumped 0 n ++ (stops ∷ ending))
        ∙ ap (λ a. total w startup + a)
            (total-append w (reports seen interval dumped 0 n) (stops ∷ ending))
        ∙ omega (arith, total-reports 0 n, q.stopping)

  -- What is created at the start is given back at the end.
  pub balance :
      (w v : Event Thread Queue Hist → ℕ) (dumped startup ending : List (Event Thread Queue Hist))
      (seen : Seen) (interval n : ℕ)
      → Quiet w dumped
      → Quiet v dumped
      → total w startup ≡ total v ending
      → total w ending ≡ 0
      → total v startup ≡ 0
      → total w (startup ++ (reports seen interval dumped 0 n ++ (stops ∷ ending)))
        ≡ total v (startup ++ (reports seen interval dumped 0 n ++ (stops ∷ ending)))
  balance w v dumped startup ending seen interval n qw qv same none_w none_v = omega (
    arith,
    total-whole w dumped qw seen interval startup ending n,
    total-whole v dumped qv seen interval startup ending n,
    same,
    none_w,
    none_v,
  )

  -- One kind of resource: what is created at the start is given back at the end, and only there.
  pub record Returned {R : Type 0} (created given_back : (R → ℕ) → Event Thread Queue Hist → ℕ)
      (startup dumped ending : List (Event Thread Queue Hist)) : Type 0 where
    pub same : (f : R → ℕ) → total (created f) startup ≡ total (given_back f) ending
    pub none_created : (f : R → ℕ) → total (created f) ending ≡ 0
    pub none_back : (f : R → ℕ) → total (given_back f) startup ≡ 0
    pub created_quiet : (f : R → ℕ) → total (created f) dumped ≡ 0
    pub back_quiet : (f : R → ℕ) → total (given_back f) dumped ≡ 0

  quiet :
      (w : Event Thread Queue Hist → ℕ) (dumped : List (Event Thread Queue Hist))
      → ((us : ℕ) → w (sleeps us) ≡ 0)
      → ((s : Text) → w (prints s) ≡ 0)
      → w stops ≡ 0
      → total w dumped ≡ 0
      → Quiet w dumped
  quiet w dumped s p t d = record { sleeping = s; printing = p; stopping = t; dumping = d }

  module _ (startup dumped ending : List (Event Thread Queue Hist)) (seen : Seen)
      (interval n : ℕ) where
    pub every_run :
        Returned threads_created threads_joined startup dumped ending
        → Returned queues_created queues_destroyed startup dumped ending
        → Returned hists_created hists_freed startup dumped ending
        → Balanced (startup ++ (reports seen interval dumped 0 n ++ (stops ∷ ending)))
    every_run t q h = record {
      threads = λ f.
          balance (threads_created f) (threads_joined f) dumped startup ending seen interval n
            (quiet (threads_created f) dumped (λ us. refl) (λ s. refl) refl (t.created_quiet f))
            (quiet (threads_joined f) dumped (λ us. refl) (λ s. refl) refl (t.back_quiet f))
            (t.same f) (t.none_created f) (t.none_back f);
      queues = λ f.
          balance (queues_created f) (queues_destroyed f) dumped startup ending seen interval n
            (quiet (queues_created f) dumped (λ us. refl) (λ s. refl) refl (q.created_quiet f))
            (quiet (queues_destroyed f) dumped (λ us. refl) (λ s. refl) refl (q.back_quiet f))
            (q.same f) (q.none_created f) (q.none_back f);
      hists = λ f.
          balance (hists_created f) (hists_freed f) dumped startup ending seen interval n
            (quiet (hists_created f) dumped (λ us. refl) (λ s. refl) refl (h.created_quiet f))
            (quiet (hists_freed f) dumped (λ us. refl) (λ s. refl) refl (h.back_quiet f)) (h.same f)
            (h.none_created f) (h.none_back f);
    }

  -- The run of a process whose calls all succeed: it exits with 0 after `n` reports, of which none is made
  -- before its time and which are at most one more than the intervals in the run. It ended as the time was
  -- up or the test was over.
  abbrev pub EndsAfter :
      Seen
      → (interval run_us : ℕ) → (startup dumped ending : List (Event Thread Queue Hist))
      → Option (Run Thread Queue Hist)
      → ℕ
      → Type 0
  EndsAfter seen interval run_us startup dumped ending r n =
      (n ≤ run_us / interval + 1)
      × (r
          ≡ some (record {
            events = startup ++ (reports seen interval dumped 0 n ++ (stops ∷ ending));
            status = 0;
          }))
      × Punctual seen interval dumped 0 n
      × ((seen.running (0 + n + 1) ≡ false) ⊎ (seen.clock 0 + run_us ≤ seen.clock (0 + n + 1)))

  pub run_process-EndsAfter :
      (ok : Event Thread Queue Hist → Bool) (seen : Seen) (interval run_us : ℕ)
      (startup dumped ending : List (Event Thread Queue Hist))
      → ((e : Event Thread Queue Hist) → ok e ≡ true)
      → Honest seen interval run_us
      → (n : ℕ) × EndsAfter seen interval run_us startup dumped ending
          (run_process (run_us / interval + 2) ok seen interval run_us startup dumped ending)
          n
  unfolding run_process
  run_process-EndsAfter ok seen interval run_us startup dumped ending all h =
      let (n, few, e, punctual, over) = report_loop-ends seen interval run_us h dumped in
      (n, (few, rw (until_failure-all ok startup all, e) refl, punctual, over))
