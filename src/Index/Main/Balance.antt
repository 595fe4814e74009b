-- ===== src/Index/Main/Balance.antt =====
-- `main` of act_index.c where no call fails: it ends, and gives back what it has created.
use native.Mathlib.Nat.{add_comm}
use act.Common.{ℕ, ◌+◌, ◌*◌, ◌^◌, ◌<◌, ◌≡◌, refl, Bool, true, some, [], ◌++◌, map, arith}
use act.Common.Lists.{get_or}
use act.Common.Text.{Text, text}
use act.Process.{Event, Seen, Run}
use act.Process.Totals.{
  total, threads_created, threads_joined, queues_created, queues_destroyed, hists_created,
  hists_freed, slots, total_laws,
}
use act.Process.Reports.{Honest}
use act.Process.Whole.{
  Balanced, name_of, tagged, map-append, map-for_from, map-when, Returned, every_run, EndsAfter,
  run_process-EndsAfter,
}
use act.IndexCfg.{IndexCfg}
use act.Index.Main.{
  IndexThread, IndexQueue, IndexHist, IndexThread.trans, startup, ending, print_names,
  dump_histograms, main, IndexHist.raw_reads, IndexHist.raw_writes, IndexHist.trans_reads,
  IndexHist.device_reads, IndexHist.device_writes,
}

module _ (cfg : IndexCfg) where
  -- A report dumps the histograms of the list of names, in its order.
  dumped_names : print_names cfg ≡ map name_of (dump_histograms cfg)
  dumped_names = simp (map-append, map-for_from, map-when) refl

  -- The name that stands for each histogram.
  abbrev pub hist_name : IndexHist → Text
  hist_name raw_reads = text "device-reads"
  hist_name raw_writes = text "device-writes"
  hist_name trans_reads = text "trans-reads"
  hist_name (device_reads d) = get_or cfg.device_names d [] ++ text "-reads"
  hist_name (device_writes d) = get_or cfg.device_names d [] ++ text "-writes"

  -- Each histogram is dumped under its own name.
  own_names : map (tagged hist_name) (dump_histograms cfg) ≡ dump_histograms cfg
  own_names = simp (map-append, map-for_from, map-when) refl

  balanced_threads :
      (f : IndexThread → ℕ)
      → cfg.num_queues * cfg.threads_per_queue < 2 ^ 32
      → total (threads_created f) (startup cfg) ≡ total (threads_joined f) (ending cfg)
  unfolding startup ending
  balanced_threads f small =
      simp total_laws
        (reorder _ _ (slots cfg.num_queues cfg.threads_per_queue (λ i. f (trans i)) small))
    where
      reorder : (c g : ℕ) {t t' : ℕ} → t ≡ t' → c + (t + g) ≡ g + (t' + c)
      reorder c g e = omega (arith, e)

  balanced_queues :
      (f : IndexQueue → ℕ)
      → total (queues_created f) (startup cfg) ≡ total (queues_destroyed f) (ending cfg)
  unfolding startup ending
  balanced_queues f = simp total_laws (add_comm _ _)

  balanced_hists :
      (f : IndexHist → ℕ)
      → total (hists_created f) (startup cfg) ≡ total (hists_freed f) (ending cfg)
  unfolding startup ending
  balanced_hists f = simp total_laws (reorder _ _ _ _ _)
    where
      reorder : (a b c x y : ℕ) → a + (b + (c + (x + y))) ≡ x + y + (a + (b + c))
      reorder a b c x y = omega arith

  gives_back_threads :
      cfg.num_queues * cfg.threads_per_queue < 2 ^ 32
      → Returned threads_created threads_joined (startup cfg) (dump_histograms cfg) (ending cfg)
  unfolding startup ending
  gives_back_threads small = record {
    same = λ f. balanced_threads f small;
    none_created = λ f. simp total_laws refl;
    none_back = λ f. simp total_laws refl;
    created_quiet = λ f. simp total_laws refl;
    back_quiet = λ f. simp total_laws refl;
  }

  gives_back_queues :
      Returned queues_created queues_destroyed (startup cfg) (dump_histograms cfg) (ending cfg)
  unfolding startup ending
  gives_back_queues = record {
    same = λ f. balanced_queues f;
    none_created = λ f. simp total_laws refl;
    none_back = λ f. simp total_laws refl;
    created_quiet = λ f. simp total_laws refl;
    back_quiet = λ f. simp total_laws refl;
  }

  gives_back_hists :
      Returned hists_created hists_freed (startup cfg) (dump_histograms cfg) (ending cfg)
  unfolding startup ending
  gives_back_hists = record {
    same = λ f. balanced_hists f;
    none_created = λ f. simp total_laws refl;
    none_back = λ f. simp total_laws refl;
    created_quiet = λ f. simp total_laws refl;
    back_quiet = λ f. simp total_laws refl;
  }

  -- The same of `main` of act_index: where no call fails, the clock shows the time slept, the interval
  -- between reports is positive and below 2 ^ 32 microseconds, and the transaction threads are fewer than
  -- 2 ^ 32, it ends with status 0. It joins every thread that it creates, destroys every queue and frees
  -- every histogram, each as often as it is created. It makes at most one report more than the intervals in
  -- the run, none of them before its time, and each dumps the histograms of the list of names, in its order.
  pub index_main-Balanced :
      (ok : Event IndexThread IndexQueue IndexHist → Bool) (seen : Seen)
      → ((e : Event IndexThread IndexQueue IndexHist) → ok e ≡ true)
      → Honest seen cfg.report_interval_us cfg.run_us
      → cfg.num_queues * cfg.threads_per_queue < 2 ^ 32
      → (run : Run IndexThread IndexQueue IndexHist) × (n : ℕ) × (main cfg ok seen ≡ some run)
        × (run.status ≡ 0)
        × Balanced run.events
        × EndsAfter seen cfg.report_interval_us cfg.run_us
            (startup cfg)
            (dump_histograms cfg)
            (ending cfg)
            (some run)
            n
        × (print_names cfg ≡ map name_of (dump_histograms cfg))
        × (map (tagged hist_name) (dump_histograms cfg) ≡ dump_histograms cfg)
  unfolding main
  index_main-Balanced ok seen all h small =
      let (n, (few, e, punctual, over)) =
        run_process-EndsAfter ok seen cfg.report_interval_us cfg.run_us (startup cfg)
          (dump_histograms cfg) (ending cfg) all h in
      (
        _,
        n,
        e,
        refl,
        every_run (startup cfg) (dump_histograms cfg) (ending cfg) seen cfg.report_interval_us n
            (gives_back_threads small) gives_back_queues gives_back_hists,
        (few, refl, punctual, over),
        dumped_names,
        own_names,
      )
