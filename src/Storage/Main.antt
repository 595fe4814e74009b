-- ===== src/Storage/Main.antt =====
-- src/storage/act_storage.c: `main` after the configuration has been read.
pub mod Balance
use act.Common.{
  ℕ, ◌+◌, ◌*◌, ◌/◌, ◌^◌, Bool, true, false, not, ◌&&◌, Option, none, some, List, [], ◌∷◌, ◌++◌,
  ◌==◌, if◌then◌else◌,
}
use act.Common.Lists.{get_or}
use act.Common.Text.{Text, text}
use act.Common.Word.{u32}
use act.Process.{
  Event, prints, sets_scheduler, creates_histogram, creates_queue, discovers, seeds_rand, starts,
  creates_thread, sleeps, dumps, stops, joins, destroys_queue, closes_descriptors, frees_histogram,
  for_each, when, Seen, Run, run_process,
}
use act.StorageCfg.{StorageCfg}

-- The threads: of a device, of the transaction queues by their index in `trans_tids`, and of the two
-- kinds of request generators.
pub data StorageThread : Type 0 where
  large_block_read large_block_write tomb_raider : ℕ → StorageThread
  trans read_req write_req : ℕ → StorageThread

-- The queue of descriptors of a device, and a queue of requests.
pub data StorageQueue : Type 0 where
  fd_q trans_q : ℕ → StorageQueue

pub data StorageHist : Type 0 where
  large_block_reads large_block_writes raw_reads reads raw_writes writes : StorageHist
  device_reads device_writes : ℕ → StorageHist

abbrev pub StorageCalls : Type 0
StorageCalls = List (Event StorageThread StorageQueue StorageHist)

module _ {Double : Type 0} (cfg : StorageCfg Double) where
  abbrev pub device_name : ℕ → Text
  device_name d = get_or cfg.device_names d []

  -- `read_hist_tag` and `write_hist_tag`.
  abbrev pub read_hist_tag : ℕ → Text
  read_hist_tag d = device_name d ++ text "-reads"

  abbrev pub write_hist_tag : ℕ → Text
  write_hist_tag d = device_name d ++ text "-writes"

  abbrev pub do_reads : Bool
  do_reads = not (cfg.read_reqs_per_sec == 0)

  abbrev pub do_writes : Bool
  do_writes = not (cfg.write_reqs_per_sec == 0)

  abbrev pub do_commits : Bool
  do_commits = cfg.commit_to_device && do_writes

  -- The histograms and the devices.
  abbrev pub create_devices : StorageCalls
  create_devices =
      creates_histogram large_block_reads
      ∷ creates_histogram large_block_writes
      ∷ creates_histogram raw_reads
      ∷ creates_histogram reads
      ∷ creates_histogram raw_writes
      ∷ creates_histogram writes
      ∷ for_each cfg.num_devices (λ n.
        when (cfg.file_size == 0) (sets_scheduler (device_name n) cfg.scheduler_mode ∷ [])
        ++ (creates_queue (fd_q n)
            ∷ discovers n
            ∷ creates_histogram (device_reads n)
            ∷ creates_histogram (device_writes n)
            ∷ []))

  -- The threads of the devices.
  abbrev pub create_device_threads : StorageCalls
  create_device_threads =
      when do_writes (
        for_each cfg.num_devices
          (λ n. creates_thread (large_block_read n) ∷ creates_thread (large_block_write n) ∷ []))
      ++ when cfg.tomb_raider (for_each cfg.num_devices (λ n. creates_thread (tomb_raider n) ∷ []))

  -- The threads of the queues.
  abbrev pub create_trans_threads : StorageCalls
  create_trans_threads = for_each cfg.num_queues (λ i.
      creates_queue (trans_q i)
      ∷ for_each cfg.threads_per_queue
          (λ j. creates_thread (trans (u32 (u32 (i * cfg.threads_per_queue) + j))) ∷ []))

  -- The request generators.
  abbrev pub create_generators : StorageCalls
  create_generators =
      when do_reads (for_each cfg.read_req_threads (λ k. creates_thread (read_req k) ∷ []))
      ++ when do_commits (for_each cfg.write_req_threads (λ k. creates_thread (write_req k) ∷ []))

  -- The list under "HISTOGRAM NAMES".
  abbrev pub print_names : StorageCalls
  print_names =
      when do_reads (
        prints (text "reads")
        ∷ prints (text "device-reads")
        ∷ for_each cfg.num_devices (λ d. prints (read_hist_tag d) ∷ []))
      ++ (when do_writes
            (prints (text "large-block-reads") ∷ prints (text "large-block-writes") ∷ [])
          ++ when do_commits (
              prints (text "writes")
              ∷ prints (text "device-writes")
              ∷ for_each cfg.num_devices (λ d. prints (write_hist_tag d) ∷ [])))

  -- Everything before the reports.
  pub startup : StorageCalls
  startup =
      create_devices
      ++ (seeds_rand
          ∷ starts
          ∷ (create_device_threads
              ++ (create_trans_threads
                  ++ (create_generators
                      ++ (prints []
                          ∷ prints (text "HISTOGRAM NAMES")
                          ∷ (print_names ++ (prints [] ∷ [])))))))

  -- The histograms of a report.
  abbrev pub dump_histograms : StorageCalls
  dump_histograms =
      when do_reads (
        dumps reads (text "reads")
        ∷ dumps raw_reads (text "device-reads")
        ∷ for_each cfg.num_devices (λ d. dumps (device_reads d) (read_hist_tag d) ∷ []))
      ++ (when do_writes (
            dumps large_block_reads (text "large-block-reads")
            ∷ dumps large_block_writes (text "large-block-writes")
            ∷ [])
          ++ when do_commits (
              dumps writes (text "writes")
              ∷ dumps raw_writes (text "device-writes")
              ∷ for_each cfg.num_devices (λ d. dumps (device_writes d) (write_hist_tag d) ∷ [])))

  -- Everything after `g_running = false`.
  pub ending : StorageCalls
  ending =
      when do_reads (for_each cfg.read_req_threads (λ k. joins (read_req k) ∷ []))
      ++ (when do_commits (for_each cfg.write_req_threads (λ k. joins (write_req k) ∷ []))
          ++ (for_each (u32 (cfg.num_queues * cfg.threads_per_queue)) (λ j. joins (trans j) ∷ [])
              ++ (for_each cfg.num_queues (λ i. destroys_queue (trans_q i) ∷ [])
                  ++ (for_each cfg.num_devices (λ d.
                        when cfg.tomb_raider (joins (tomb_raider d) ∷ [])
                        ++ (when do_writes
                              (joins (large_block_read d) ∷ joins (large_block_write d) ∷ [])
                            ++ (closes_descriptors d
                                ∷ destroys_queue (fd_q d)
                                ∷ frees_histogram (device_reads d)
                                ∷ frees_histogram (device_writes d)
                                ∷ [])))
                      ++ (frees_histogram large_block_reads
                          ∷ frees_histogram large_block_writes
                          ∷ frees_histogram raw_reads
                          ∷ frees_histogram reads
                          ∷ frees_histogram raw_writes
                          ∷ frees_histogram writes
                          ∷ [])))))

  -- `ok` says which calls succeed.
  pub main :
      (Event StorageThread StorageQueue StorageHist → Bool)
      → Seen
      → Option (Run StorageThread StorageQueue StorageHist)
  main ok seen =
      run_process (cfg.run_us / cfg.report_interval_us + 2) ok seen cfg.report_interval_us
        cfg.run_us startup dump_histograms ending
