-- ===== src/Tests/Processes.antt =====
-- The processes of act_storage and act_index at concrete inputs.
use act.Common.{ℕ, ◌+◌, ◌*◌, ◌≡◌, ◌⊎◌, refl, true, false, some, [], ◌∷◌, map, arith}
use act.Common.Text.{text}
use act.IndexCfg.{IndexCfg, default_icfg}
use act.Index.Main as IndexMain
use act.Index.Main.Balance as IndexBalance
use act.Index.Main.Balance.{index_main-Balanced}
use act.Process.{Event, Seen, Run}
use act.Process.Reports.{Honest}
use act.Process.Whole.{Balanced, EndsAfter, name_of, tagged}
use act.Storage.Main as StorageMain
use act.Storage.Main.Balance as StorageBalance
use act.Storage.Main.Balance.{main-Balanced, main-EndsEither}
use act.Process.Failing.{AllSucceed, FailsIn}
use act.StorageCfg.{StorageCfg}
use act.Tests.Configs.{derived}

-- The clock of a process that is woken late by less than an interval each time.
abbrev seen : Seen
seen = record { clock = λ n. 5000000 + n * 1000007; running = λ n. true; queued = λ n. 3 }

-- The configuration of the tests, for three seconds.
abbrev cfg : StorageCfg ℕ
cfg = record derived {
  run_us = 3000000;
  report_interval_us = 1000000;
  num_queues = 8;
  threads_per_queue = 4;
}

seen-Honest : Honest seen 1000000 3000000
seen-Honest = record {
  first = omega arith;
  later = λ n inside. ground (arith, inside);
  some_time = omega arith;
  short = omega arith;
  wide = omega arith;
}

abbrev StorageEvent : Type 0
StorageEvent = Event StorageMain.StorageThread StorageMain.StorageQueue StorageMain.StorageHist

abbrev StorageRun : Type 0
StorageRun = Run StorageMain.StorageThread StorageMain.StorageQueue StorageMain.StorageHist

main-Balanced_example :
    (run : StorageRun) × (n : ℕ) × (StorageMain.main cfg (λ e. true) seen ≡ some run)
    × (run.status ≡ 0)
    × Balanced run.events
    × EndsAfter seen 1000000 3000000
        (StorageMain.startup cfg)
        (StorageMain.dump_histograms cfg)
        (StorageMain.ending cfg)
        (some run)
        n
    × (StorageMain.print_names cfg ≡ map name_of (StorageMain.dump_histograms cfg))
    × (map (tagged (StorageBalance.hist_name cfg)) (StorageMain.dump_histograms cfg)
        ≡ StorageMain.dump_histograms cfg)
main-Balanced_example = main-Balanced cfg (λ e. true) seen (λ e. refl) seen-Honest (omega arith)

main-EndsEither_example :
    (run : StorageRun) × (StorageMain.main cfg (λ (e : StorageEvent). false) seen ≡ some run)
    × (((run.status ≡ 0)
          × AllSucceed (λ (e : StorageEvent). false) (StorageMain.startup cfg)
          × StorageBalance.Started cfg (λ e. false))
        ⊎ ((run.status ≡ 255)
            × FailsIn (λ (e : StorageEvent). false) (StorageMain.startup cfg) run.events))
main-EndsEither_example = main-EndsEither cfg (λ e. false) seen seen-Honest

abbrev icfg : IndexCfg
icfg = record default_icfg {
  device_names = text "/dev/sdb" ∷ [];
  num_devices = 1;
  num_queues = 8;
  run_us = 3000000;
  cache_thread_reads_and_writes_per_sec = 400;
}

index_main-Balanced_example :
    (run : Run IndexMain.IndexThread IndexMain.IndexQueue IndexMain.IndexHist) × (n : ℕ)
    × (IndexMain.main icfg (λ e. true) seen ≡ some run)
    × (run.status ≡ 0)
    × Balanced run.events
    × EndsAfter seen 1000000 3000000
        (IndexMain.startup icfg)
        (IndexMain.dump_histograms icfg)
        (IndexMain.ending icfg)
        (some run)
        n
    × (IndexMain.print_names icfg ≡ map name_of (IndexMain.dump_histograms icfg))
    × (map (tagged (IndexBalance.hist_name icfg)) (IndexMain.dump_histograms icfg)
        ≡ IndexMain.dump_histograms icfg)
index_main-Balanced_example =
    index_main-Balanced icfg (λ e. true) seen (λ e. refl) seen-Honest (omega arith)
