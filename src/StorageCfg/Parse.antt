-- ===== src/StorageCfg/Parse.antt =====
-- src/storage/cfg_storage.c: `storage_configure`, the items of the file and the values they set.
pub mod RoundTrip
pub mod Parsed
use act.Common.{ℕ, ◌*◌, ◌^◌, Option, none, some, List, [], ◌∷◌, if◌then◌else◌}
use act.Common.Lists.{length}
use act.Common.Text.{Text, text, text_eq}
use act.Common.Word.{u32, u64}
use act.Cfg.{Checked}
use act.Cfg.Parse.{
  parse_device_names, parse_scheduler_mode, parse_uint32, parse_yes_no, parse_lines, read_lines,
}
use act.StorageCfg.{StorageCfg, DoubleOps, default_cfg, configure}

-- MAX_NUM_STORAGE_DEVICES.
abbrev pub max_num_storage_devices : ℕ
max_num_storage_devices = 128

module _ {Double : Type 0} where
  abbrev pub set_names : List Text → StorageCfg Double → StorageCfg Double
  set_names names cfg = record cfg { device_names = names; num_devices = length names }

  -- What the line with the item `tag` does; `rest` is the position of its value. An unknown tag is
  -- ignored.
  unfoldable pub set_item : Text → Text → StorageCfg Double → StorageCfg Double
  set_item tag rest cfg =
      if text_eq tag (text "device-names")
      then set_names (parse_device_names max_num_storage_devices cfg.device_names rest) cfg
      else if text_eq tag (text "file-size-mbytes")
      then record cfg { file_size = u64 (parse_uint32 rest * 2 ^ 20) }
      else if text_eq tag (text "service-threads")
      then record cfg { service_threads = parse_uint32 rest }
      else if text_eq tag (text "num-queues")
      then record cfg { num_queues = parse_uint32 rest }
      else if text_eq tag (text "threads-per-queue")
      then record cfg { threads_per_queue = parse_uint32 rest }
      else if text_eq tag (text "test-duration-sec")
      then record cfg { run_us = u64 (parse_uint32 rest * 1000000) }
      else if text_eq tag (text "report-interval-sec")
      then record cfg { report_interval_us = u64 (parse_uint32 rest * 1000000) }
      else if text_eq tag (text "microsecond-histograms")
      then record cfg { us_histograms = parse_yes_no rest }
      else if text_eq tag (text "read-reqs-per-sec")
      then record cfg { read_reqs_per_sec = parse_uint32 rest }
      else if text_eq tag (text "write-reqs-per-sec")
      then record cfg { write_reqs_per_sec = parse_uint32 rest }
      else if text_eq tag (text "record-bytes")
      then record cfg { record_bytes = parse_uint32 rest }
      else if text_eq tag (text "record-bytes-range-max")
      then record cfg { record_bytes_rmx = parse_uint32 rest }
      else if text_eq tag (text "large-block-op-kbytes")
      then record cfg { large_block_ops_bytes = u32 (parse_uint32 rest * 1024) }
      else if text_eq tag (text "replication-factor")
      then record cfg { replication_factor = parse_uint32 rest }
      else if text_eq tag (text "update-pct")
      then record cfg { update_pct = parse_uint32 rest }
      else if text_eq tag (text "defrag-lwm-pct")
      then record cfg { defrag_lwm_pct = parse_uint32 rest }
      else if text_eq tag (text "disable-odsync")
      then record cfg { disable_odsync = parse_yes_no rest }
      else if text_eq tag (text "commit-to-device")
      then record cfg { commit_to_device = parse_yes_no rest }
      else if text_eq tag (text "commit-min-bytes")
      then record cfg { commit_min_bytes = parse_uint32 rest }
      else if text_eq tag (text "tomb-raider")
      then record cfg { tomb_raider = parse_yes_no rest }
      else if text_eq tag (text "tomb-raider-sleep-usec")
      then record cfg { tomb_raider_sleep_us = parse_uint32 rest }
      else if text_eq tag (text "max-reqs-queued")
      then record cfg { max_reqs_queued = parse_uint32 rest }
      else if text_eq tag (text "max-lag-sec")
      then record cfg { max_lag_usec = u64 (parse_uint32 rest * 1000000) }
      else if text_eq tag (text "scheduler-mode")
      then record cfg { scheduler_mode = parse_scheduler_mode rest }
      else cfg

-- `file` is the contents of the file, where it can be opened; otherwise there is no configuration.
unfoldable pub storage_configure :
    (ops : DoubleOps) → ℕ → Option Text → Option (Checked (StorageCfg ops.Double))
storage_configure ops cpus none = none
storage_configure ops cpus (some file) =
    some (configure ops cpus (parse_lines set_item (default_cfg ops) (read_lines 4096 file)))
