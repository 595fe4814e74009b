-- ===== src/Index/Main.antt =====
-- src/index/act_index.c: `main` after the configuration has been read.
pub mod Balance
use act.Common.{ℕ, ◌+◌, ◌*◌, ◌/◌, Bool, not, Option, List, [], ◌∷◌, ◌++◌, ◌==◌, if◌then◌else◌}
use act.Common.Lists.{get_or}
use act.Common.Text.{Text, text}
use act.Common.Word.{u32}
use act.Process.{
  Event, prints, sets_scheduler, creates_histogram, creates_queue, discovers, seeds_rand, starts,
  creates_thread, dumps, stops, joins, destroys_queue, closes_descriptors, frees_histogram,
  for_each, when, Seen, Run, run_process,
}
use act.IndexCfg.{IndexCfg}

-- The cache threads, the threads of the transaction queues by their index in `trans_tids`, and the
-- request generators.
pub data IndexThread : Type 0 where
  cache trans rw_req_generator : ℕ → IndexThread

-- The queue of descriptors of a device, and a queue of requests.
pub data IndexQueue : Type 0 where
  fd_q trans_q : ℕ → IndexQueue

pub data IndexHist : Type 0 where
  raw_reads raw_writes trans_reads : IndexHist
  device_reads device_writes : ℕ → IndexHist

abbrev pub IndexCalls : Type 0
IndexCalls = List (Event IndexThread IndexQueue IndexHist)

module _ (cfg : IndexCfg) where
  abbrev pub device_name : ℕ → Text
  device_name d = get_or cfg.device_names d []

  -- `read_hist_tag` and `write_hist_tag`.
  abbrev pub read_hist_tag : ℕ → Text
  read_hist_tag d = device_name d ++ text "-reads"

  abbrev pub write_hist_tag : ℕ → Text
  write_hist_tag d = device_name d ++ text "-writes"

  abbrev pub has_write_load : Bool
  has_write_load = not (cfg.cache_thread_reads_and_writes_per_sec == 0)

  -- The histograms and the devices.
  abbrev pub create_devices : IndexCalls
  create_devices =
      creates_histogram raw_reads
      ∷ creates_histogram raw_writes
      ∷ creates_histogram trans_reads
      ∷ for_each cfg.num_devices (λ d.
        sets_scheduler (device_name d) cfg.scheduler_mode
        ∷ creates_queue (fd_q d)
        ∷ discovers d
        ∷ creates_histogram (device_reads d)
        ∷ creates_histogram (device_writes d)
        ∷ [])

  -- The threads, with the queues of the transaction threads.
  abbrev pub create_threads : IndexCalls
  create_threads =
      when has_write_load (for_each cfg.cache_threads (λ n. creates_thread (cache n) ∷ []))
      ++ (for_each cfg.num_queues (λ i.
            creates_queue (trans_q i)
            ∷ for_each cfg.threads_per_queue
                (λ j. creates_thread (trans (u32 (u32 (i * cfg.threads_per_queue) + j))) ∷ []))
          ++ for_each cfg.service_threads (λ k. creates_thread (rw_req_generator k) ∷ []))

  -- The list under "HISTOGRAM NAMES".
  abbrev pub print_names : IndexCalls
  print_names =
      prints (text "trans-reads")
      ∷ prints (text "device-reads")
      ∷ (for_each cfg.num_devices (λ d. prints (read_hist_tag d) ∷ [])
          ++ when has_write_load (
              prints (text "device-writes")
              ∷ for_each cfg.num_devices (λ d. prints (write_hist_tag d) ∷ [])))

  -- Everything before the reports.
  pub startup : IndexCalls
  startup =
      create_devices
      ++ (seeds_rand
          ∷ starts
          ∷ (create_threads
              ++ (prints [] ∷ prints (text "HISTOGRAM NAMES") ∷ (print_names ++ (prints [] ∷ [])))))

  -- The histograms of a report.
  abbrev pub dump_histograms : IndexCalls
  dump_histograms =
      dumps trans_reads (text "trans-reads")
      ∷ dumps raw_reads (text "device-reads")
      ∷ (for_each cfg.num_devices (λ d. dumps (device_reads d) (read_hist_tag d) ∷ [])
          ++ when has_write_load (
              dumps raw_writes (text "device-writes")
              ∷ for_each cfg.num_devices (λ d. dumps (device_writes d) (write_hist_tag d) ∷ [])))

  -- Everything after `g_running = false`.
  pub ending : IndexCalls
  ending =
      for_each cfg.service_threads (λ k. joins (rw_req_generator k) ∷ [])
      ++ (for_each (u32 (cfg.num_queues * cfg.threads_per_queue)) (λ j. joins (trans j) ∷ [])
          ++ (for_each cfg.num_queues (λ i. destroys_queue (trans_q i) ∷ [])
              ++ (when has_write_load (for_each cfg.cache_threads (λ n. joins (cache n) ∷ []))
                  ++ (for_each cfg.num_devices (λ d.
                        closes_descriptors d
                        ∷ destroys_queue (fd_q d)
                        ∷ frees_histogram (device_reads d)
                        ∷ frees_histogram (device_writes d)
                        ∷ [])
                      ++ (frees_histogram raw_reads
                          ∷ frees_histogram raw_writes
                          ∷ frees_histogram trans_reads
                          ∷ [])))))

  -- `ok` says which calls succeed.
  pub main :
      (Event IndexThread IndexQueue IndexHist → Bool)
      → Seen
      → Option (Run IndexThread IndexQueue IndexHist)
  main ok seen =
      run_process (cfg.run_us / cfg.report_interval_us + 2) ok seen cfg.report_interval_us
        cfg.run_us startup dump_histograms ending
