-- ===== src/Storage/Main/Balance.antt =====
-- `main` of act_storage.c where no call fails: it ends, and gives back what it has created.
use native.Mathlib.Nat.{add_comm}
use act.Common.{
  ℕ, ◌+◌, ◌*◌, ◌^◌, ◌<◌, ◌≡◌, ◌⊎◌, inl, inr, refl, Option, Bool, true, some, [], ◌∷◌, ◌++◌, ◌==◌,
  map, arith,
}
use act.Common.Lists.{get_or}
use act.Common.Text.{Text, text}
use act.Common.Word.{u32}
use act.Process.{
  Event, sets_scheduler, when, creates_histogram, creates_queue, discovers, creates_thread, Seen,
  Run,
}
use act.Process.Totals.{
  total, threads_created, threads_joined, queues_created, queues_destroyed, hists_created,
  hists_freed, slots, total_laws,
}
use act.Process.Reports.{Honest}
use act.Process.Whole.{
  Balanced, name_of, tagged, map-append, map-for_from, map-when, Returned, every_run, EndsAfter,
  run_process-EndsAfter,
}
use act.Process.Failing.{
  EndsEither, AllSucceed, FailsIn, AllSucceed-append, AllSucceed-for_from, run_process-EndsEither,
}
use act.StorageCfg.{StorageCfg}
use act.Storage.Main.{
  StorageThread, StorageQueue, StorageHist, StorageThread.trans, StorageQueue.fd_q,
  StorageQueue.trans_q, device_name, create_devices, create_device_threads, create_trans_threads,
  startup, ending, print_names, dump_histograms, main, StorageHist.large_block_reads,
  StorageHist.large_block_writes, StorageHist.raw_reads, StorageHist.reads, StorageHist.raw_writes,
  StorageHist.writes, StorageHist.device_reads, StorageHist.device_writes,
}

module _ {Double : Type 0} (cfg : StorageCfg Double) where
  -- A report dumps the histograms of the list of names, in its order.
  dumped_names : print_names cfg ≡ map name_of (dump_histograms cfg)
  dumped_names = simp (map-append, map-for_from, map-when) refl

  -- The name that stands for each histogram.
  abbrev pub hist_name : StorageHist → Text
  hist_name large_block_reads = text "large-block-reads"
  hist_name large_block_writes = text "large-block-writes"
  hist_name raw_reads = text "device-reads"
  hist_name reads = text "reads"
  hist_name raw_writes = text "device-writes"
  hist_name writes = text "writes"
  hist_name (device_reads d) = get_or cfg.device_names d [] ++ text "-reads"
  hist_name (device_writes d) = get_or cfg.device_names d [] ++ text "-writes"

  -- Each histogram is dumped under its own name.
  own_names : map (tagged hist_name) (dump_histograms cfg) ≡ dump_histograms cfg
  own_names = simp (map-append, map-for_from, map-when) refl

  balanced_threads :
      (f : StorageThread → ℕ)
      → cfg.num_queues * cfg.threads_per_queue < 2 ^ 32
      → total (threads_created f) (startup cfg) ≡ total (threads_joined f) (ending cfg)
  unfolding startup ending
  balanced_threads f small =
      simp total_laws
        (reorder _ _ _ _ (slots cfg.num_queues cfg.threads_per_queue (λ i. f (trans i)) small))
    where
      reorder : (a b r w : ℕ) {t t' : ℕ} → t ≡ t' → a + b + (t + (r + w)) ≡ r + (w + (t' + (b + a)))
      reorder a b r w e = omega (arith, e)

  balanced_queues :
      (f : StorageQueue → ℕ)
      → total (queues_created f) (startup cfg) ≡ total (queues_destroyed f) (ending cfg)
  unfolding startup ending
  balanced_queues f = simp total_laws (add_comm _ _)

  balanced_hists :
      (f : StorageHist → ℕ)
      → total (hists_created f) (startup cfg) ≡ total (hists_freed f) (ending cfg)
  unfolding startup ending
  balanced_hists f = simp total_laws (reorder _ _ _ _ _ _ _ _)
    where
      reorder :
          (a b c d e g x y : ℕ)
          → a + (b + (c + (d + (e + (g + (x + y)))))) ≡ x + y + (a + (b + (c + (d + (e + g)))))
      reorder a b c d e g x y = omega arith

  gives_back_threads :
      cfg.num_queues * cfg.threads_per_queue < 2 ^ 32
      → Returned threads_created threads_joined (startup cfg) (dump_histograms cfg) (ending cfg)
  unfolding startup ending
  gives_back_threads small = record {
    same = λ f. balanced_threads f small;
    none_created = λ f. simp total_laws refl;
    none_back = λ f. simp total_laws refl;
    created_quiet = λ f. simp total_laws refl;
    back_quiet = λ f. simp total_laws refl;
  }

  gives_back_queues :
      Returned queues_created queues_destroyed (startup cfg) (dump_histograms cfg) (ending cfg)
  unfolding startup ending
  gives_back_queues = record {
    same = λ f. balanced_queues f;
    none_created = λ f. simp total_laws refl;
    none_back = λ f. simp total_laws refl;
    created_quiet = λ f. simp total_laws refl;
    back_quiet = λ f. simp total_laws refl;
  }

  gives_back_hists :
      Returned hists_created hists_freed (startup cfg) (dump_histograms cfg) (ending cfg)
  unfolding startup ending
  gives_back_hists = record {
    same = λ f. balanced_hists f;
    none_created = λ f. simp total_laws refl;
    none_back = λ f. simp total_laws refl;
    created_quiet = λ f. simp total_laws refl;
    back_quiet = λ f. simp total_laws refl;
  }

  -- What has succeeded before the first report: the discovery of every device, and the creation of every
  -- queue, transaction thread, histogram of the process and histogram of a device.
  pub record Started (ok : Event StorageThread StorageQueue StorageHist → Bool) : Type 0 where
    pub devices :
        (d : ℕ)
        → d < cfg.num_devices
        → (ok (creates_queue (fd_q d)) ≡ true)
          × (ok (discovers d) ≡ true)
          × (ok (creates_histogram (device_reads d)) ≡ true)
          × (ok (creates_histogram (device_writes d)) ≡ true)
    pub queues : (i : ℕ) → i < cfg.num_queues → ok (creates_queue (trans_q i)) ≡ true
    pub threads :
        (i j : ℕ)
        → i < cfg.num_queues
        → j < cfg.threads_per_queue
        → ok (creates_thread (trans (u32 (u32 (i * cfg.threads_per_queue) + j)))) ≡ true

  AllSucceed-Started :
      (ok : Event StorageThread StorageQueue StorageHist → Bool)
      → AllSucceed ok (startup cfg)
      → Started ok
  unfolding startup
  AllSucceed-Started ok all = record {
    devices = λ d h.
        let split = AllSucceed-append ok (create_devices cfg) _ all in
        let one_device =
          AllSucceed-for_from ok 0 cfg.num_devices d _ split.0.1.1.1.1.1.1 (omega arith)
            (omega (arith, h)) in
        let made =
          AllSucceed-append ok
            (when (cfg.file_size == 0) (sets_scheduler (device_name cfg d) cfg.scheduler_mode ∷ []))
            (creates_queue (fd_q d)
              ∷ discovers d
              ∷ creates_histogram (device_reads d)
              ∷ creates_histogram (device_writes d)
              ∷ [])
            one_device in
        (made.1.0, made.1.1.0, made.1.1.1.0, made.1.1.1.1.0);
    queues = λ i h.
        (AllSucceed-for_from ok 0 cfg.num_queues i _ rows (omega arith) (omega (arith, h))).0;
    threads = λ i j h l.
        (AllSucceed-for_from ok 0 cfg.threads_per_queue j _
          (AllSucceed-for_from ok 0 cfg.num_queues i _ rows (omega arith) (omega (arith, h))).1
          (omega arith) (omega (arith, l))).0;
  }
    where
      rows : AllSucceed ok (create_trans_threads cfg)
      rows =
          let split = AllSucceed-append ok (create_devices cfg) _ all in
          (AllSucceed-append ok (create_trans_threads cfg) _
            (AllSucceed-append ok (create_device_threads cfg) _ split.1.1.1).1).0

  -- Whatever calls fail, `main` ends, where the clock shows the time slept and the interval between
  -- reports is positive and below 2 ^ 32 microseconds: with status 255 and no report at the first call of
  -- the start-up that fails, every call before it made and none after it, or with status 0, and then none
  -- of the start-up failed: every device was discovered, and every queue, transaction thread and histogram
  -- of a device created.
  pub main-EndsEither :
      (ok : Event StorageThread StorageQueue StorageHist → Bool) (seen : Seen)
      → Honest seen cfg.report_interval_us cfg.run_us
      → (run : Run StorageThread StorageQueue StorageHist) × (main cfg ok seen ≡ some run)
        × (((run.status ≡ 0) × AllSucceed ok (startup cfg) × Started ok)
            ⊎ ((run.status ≡ 255) × FailsIn ok (startup cfg) run.events))
  unfolding main
  main-EndsEither ok seen h = with_started (
      run_process-EndsEither ok seen cfg.report_interval_us cfg.run_us (startup cfg)
        (dump_histograms cfg) (ending cfg) h)
    where
      with_started :
          {r : Option (Run StorageThread StorageQueue StorageHist)}
          → EndsEither ok (startup cfg) r
          → (run : Run StorageThread StorageQueue StorageHist) × (r ≡ some run)
            × (((run.status ≡ 0) × AllSucceed ok (startup cfg) × Started ok)
                ⊎ ((run.status ≡ 255) × FailsIn ok (startup cfg) run.events))
      with_started (run, e, inl (good, all)) = (run, e, inl (good, all, AllSucceed-Started ok all))
      with_started (run, e, inr bad) = (run, e, inr bad)

  -- Where no call fails, the clock shows the time slept, the interval between reports is positive and below
  -- 2 ^ 32 microseconds, and the transaction threads are fewer than 2 ^ 32, `main` ends with status 0. It
  -- joins every thread that it creates, destroys every queue and frees every histogram, each as often as it
  -- is created. It makes at most one report more than the intervals in the run, none of them before its
  -- time, and each dumps the histograms of the list of names, in its order.
  pub main-Balanced :
      (ok : Event StorageThread StorageQueue StorageHist → Bool) (seen : Seen)
      → ((e : Event StorageThread StorageQueue StorageHist) → ok e ≡ true)
      → Honest seen cfg.report_interval_us cfg.run_us
      → cfg.num_queues * cfg.threads_per_queue < 2 ^ 32
      → (run : Run StorageThread StorageQueue StorageHist) × (n : ℕ) × (main cfg ok seen ≡ some run)
        × (run.status ≡ 0)
        × Balanced run.events
        × EndsAfter seen cfg.report_interval_us cfg.run_us
            (startup cfg)
            (dump_histograms cfg)
            (ending cfg)
            (some run)
            n
        × (print_names cfg ≡ map name_of (dump_histograms cfg))
        × (map (tagged hist_name) (dump_histograms cfg) ≡ dump_histograms cfg)
  unfolding main
  main-Balanced ok seen all h small =
      let (n, (few, e, punctual, over)) =
        run_process-EndsAfter ok seen cfg.report_interval_us cfg.run_us (startup cfg)
          (dump_histograms cfg) (ending cfg) all h in
      (
        _,
        n,
        e,
        refl,
        every_run (startup cfg) (dump_histograms cfg) (ending cfg) seen cfg.report_interval_us n
            (gives_back_threads small) gives_back_queues gives_back_hists,
        (few, refl, punctual, over),
        dumped_names,
        own_names,
      )
