-- ===== src/StorageCfg/Echo.antt =====
-- src/storage/cfg_storage.c: `echo_configuration`.
pub mod Passed
pub mod RoundTrip
pub mod Kept
pub mod Again
use act.Common.{ℕ, ◌/◌, ◌^◌, List, [], ◌∷◌, ◌++◌, ◌==◌, if◌then◌else◌}
use act.Common.Text.{Text, text}
use act.Common.Text.Decimal.{decimal}
use act.Cfg.Echo.{number_line, answer_line, names_line}
use act.Cfg.Parse.Lines.{concat_lines, item_line}
use act.StorageCfg.{StorageCfg}

-- The size of files is printed where there is one.
abbrev pub file_size_line : ℕ → List Text → List Text
file_size_line n lines =
    if n == 0 then lines else number_line (text "file-size-mbytes") (n / 2 ^ 20) ∷ lines

-- "%u ... %u".
abbrev pub range_text : ℕ → ℕ → Text
range_text low high = decimal low [] ++ (text " ... " ++ decimal high [])

-- `two_places` is what `printf` makes of a `double` by "%.2lf".
module _ {Double : Type 0} (two_places : Double → Text) where
  -- The part from "DERIVED CONFIGURATION" on.
  abbrev pub derived_lines : StorageCfg Double → List Text
  derived_lines cfg =
      []
      ∷ text "DERIVED CONFIGURATION"
      ∷ item_line (text "record-stored-bytes")
          (range_text cfg.record_stored_bytes cfg.record_stored_bytes_rmx)
      ∷ number_line (text "internal-read-reqs-per-sec") cfg.internal_read_reqs_per_sec
      ∷ number_line (text "internal-write-reqs-per-sec") cfg.internal_write_reqs_per_sec
      ∷ number_line (text "read-req-threads") cfg.read_req_threads
      ∷ number_line (text "write-req-threads") cfg.write_req_threads
      ∷ item_line (text "large-block-reads-per-sec") (two_places cfg.large_block_reads_per_sec)
      ∷ item_line (text "large-block-writes-per-sec") (two_places cfg.large_block_writes_per_sec)
      ∷ []
      ∷ []

  -- The lines, up to their newlines.
  abbrev pub echo_lines : StorageCfg Double → List Text
  echo_lines cfg =
      text "ACT-STORAGE CONFIGURATION"
      ∷ names_line cfg.device_names
      ∷ number_line (text "num-devices") cfg.num_devices
      ∷ file_size_line cfg.file_size (
          number_line (text "service-threads") cfg.service_threads
          ∷ number_line (text "num-queues") cfg.num_queues
          ∷ number_line (text "threads-per-queue") cfg.threads_per_queue
          ∷ number_line (text "test-duration-sec") (cfg.run_us / 1000000)
          ∷ number_line (text "report-interval-sec") (cfg.report_interval_us / 1000000)
          ∷ answer_line (text "microsecond-histograms") cfg.us_histograms
          ∷ number_line (text "read-reqs-per-sec") cfg.read_reqs_per_sec
          ∷ number_line (text "write-reqs-per-sec") cfg.write_reqs_per_sec
          ∷ number_line (text "record-bytes") cfg.record_bytes
          ∷ number_line (text "record-bytes-range-max") cfg.record_bytes_rmx
          ∷ number_line (text "large-block-op-kbytes") (cfg.large_block_ops_bytes / 1024)
          ∷ number_line (text "replication-factor") cfg.replication_factor
          ∷ number_line (text "update-pct") cfg.update_pct
          ∷ number_line (text "defrag-lwm-pct") cfg.defrag_lwm_pct
          ∷ answer_line (text "disable-odsync") cfg.disable_odsync
          ∷ answer_line (text "commit-to-device") cfg.commit_to_device
          ∷ number_line (text "commit-min-bytes") cfg.commit_min_bytes
          ∷ answer_line (text "tomb-raider") cfg.tomb_raider
          ∷ number_line (text "tomb-raider-sleep-usec") cfg.tomb_raider_sleep_us
          ∷ number_line (text "max-reqs-queued") cfg.max_reqs_queued
          ∷ number_line (text "max-lag-sec") (cfg.max_lag_usec / 1000000)
          ∷ item_line (text "scheduler-mode") cfg.scheduler_mode
          ∷ derived_lines cfg)

  -- What is printed.
  unfoldable pub echo_configuration : StorageCfg Double → Text
  echo_configuration cfg = concat_lines (echo_lines cfg)
