-- ===== src/IndexCfg/Echo.antt =====
-- src/index/cfg_index.c: `echo_configuration`.
pub mod RoundTrip
pub mod Again
use act.Common.{◌/◌, List, [], ◌∷◌}
use act.Common.Text.{Text, text}
use act.Cfg.Echo.{number_line, answer_line, names_line}
use act.Cfg.Parse.Lines.{concat_lines, item_line}
use act.IndexCfg.{IndexCfg}

-- The part from "DERIVED CONFIGURATION" on.
abbrev pub derived_lines : IndexCfg → List Text
derived_lines cfg =
    []
    ∷ text "DERIVED CONFIGURATION"
    ∷ number_line (text "trans-thread-reads-per-sec") cfg.trans_thread_reads_per_sec
    ∷ number_line (text "cache-thread-reads-and-writes-per-sec")
        cfg.cache_thread_reads_and_writes_per_sec
    ∷ []
    ∷ []

-- The lines, up to their newlines.
abbrev pub echo_lines : IndexCfg → List Text
echo_lines cfg =
    text "ACT-INDEX CONFIGURATION"
    ∷ names_line cfg.device_names
    ∷ number_line (text "num-devices") cfg.num_devices
    ∷ number_line (text "service-threads") cfg.service_threads
    ∷ number_line (text "num-queues") cfg.num_queues
    ∷ number_line (text "threads-per-queue") cfg.threads_per_queue
    ∷ number_line (text "cache-threads") cfg.cache_threads
    ∷ number_line (text "test-duration-sec") (cfg.run_us / 1000000)
    ∷ number_line (text "report-interval-sec") (cfg.report_interval_us / 1000000)
    ∷ answer_line (text "microsecond-histograms") cfg.us_histograms
    ∷ number_line (text "read-reqs-per-sec") cfg.read_reqs_per_sec
    ∷ number_line (text "write-reqs-per-sec") cfg.write_reqs_per_sec
    ∷ number_line (text "replication-factor") cfg.replication_factor
    ∷ number_line (text "defrag-lwm-pct") cfg.defrag_lwm_pct
    ∷ answer_line (text "disable-odsync") cfg.disable_odsync
    ∷ number_line (text "max-reqs-queued") cfg.max_reqs_queued
    ∷ number_line (text "max-lag-sec") (cfg.max_lag_usec / 1000000)
    ∷ item_line (text "scheduler-mode") cfg.scheduler_mode
    ∷ derived_lines cfg

-- What is printed.
unfoldable pub echo_configuration : IndexCfg → Text
echo_configuration cfg = concat_lines (echo_lines cfg)
