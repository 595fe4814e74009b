-- ===== src/StorageCfg/Parse/RoundTrip.antt =====
-- The items of act_storage.
use act.Common.{ℕ, ◌*◌, ◌^◌, ◌≡◌, refl, ap, Bool, some, List, arith}
use act.Common.Text.{Text, text}
use act.Common.Word.{u32, u64}
use act.Cfg.Parse.{parse_device_names, parse_scheduler_mode, parse_uint32, parse_yes_no}
use act.Cfg.Parse.Items.{IsItem, Items, Setting, apply_all, AreSettings, print_file}
use act.Cfg.Parse.Items.RoundTrip.{parse_lines-print_file}
use act.StorageCfg.{StorageCfg, DoubleOps, default_cfg, configure}
use act.StorageCfg.Parse.{set_item, set_names, max_num_storage_devices, storage_configure}

-- The items with a number.
pub data StorageNumber : Type 0 where
  file_size_mbytes : StorageNumber
  service_threads : StorageNumber
  num_queues : StorageNumber
  threads_per_queue : StorageNumber
  test_duration_sec : StorageNumber
  report_interval_sec : StorageNumber
  read_reqs_per_sec : StorageNumber
  write_reqs_per_sec : StorageNumber
  record_bytes : StorageNumber
  record_bytes_range_max : StorageNumber
  large_block_op_kbytes : StorageNumber
  replication_factor : StorageNumber
  update_pct : StorageNumber
  defrag_lwm_pct : StorageNumber
  commit_min_bytes : StorageNumber
  tomb_raider_sleep_usec : StorageNumber
  max_reqs_queued : StorageNumber
  max_lag_sec : StorageNumber

-- The items with a yes or a no.
pub data StorageAnswer : Type 0 where
  microsecond_histograms : StorageAnswer
  disable_odsync : StorageAnswer
  commit_to_device : StorageAnswer
  tomb_raider : StorageAnswer

abbrev pub number_tag : StorageNumber → Text
number_tag StorageNumber.file_size_mbytes = text "file-size-mbytes"
number_tag StorageNumber.service_threads = text "service-threads"
number_tag StorageNumber.num_queues = text "num-queues"
number_tag StorageNumber.threads_per_queue = text "threads-per-queue"
number_tag StorageNumber.test_duration_sec = text "test-duration-sec"
number_tag StorageNumber.report_interval_sec = text "report-interval-sec"
number_tag StorageNumber.read_reqs_per_sec = text "read-reqs-per-sec"
number_tag StorageNumber.write_reqs_per_sec = text "write-reqs-per-sec"
number_tag StorageNumber.record_bytes = text "record-bytes"
number_tag StorageNumber.record_bytes_range_max = text "record-bytes-range-max"
number_tag StorageNumber.large_block_op_kbytes = text "large-block-op-kbytes"
number_tag StorageNumber.replication_factor = text "replication-factor"
number_tag StorageNumber.update_pct = text "update-pct"
number_tag StorageNumber.defrag_lwm_pct = text "defrag-lwm-pct"
number_tag StorageNumber.commit_min_bytes = text "commit-min-bytes"
number_tag StorageNumber.tomb_raider_sleep_usec = text "tomb-raider-sleep-usec"
number_tag StorageNumber.max_reqs_queued = text "max-reqs-queued"
number_tag StorageNumber.max_lag_sec = text "max-lag-sec"

abbrev pub answer_tag : StorageAnswer → Text
answer_tag StorageAnswer.microsecond_histograms = text "microsecond-histograms"
answer_tag StorageAnswer.disable_odsync = text "disable-odsync"
answer_tag StorageAnswer.commit_to_device = text "commit-to-device"
answer_tag StorageAnswer.tomb_raider = text "tomb-raider"

pub number_tag-IsItem : (i : StorageNumber) → IsItem (number_tag i)
number_tag-IsItem StorageNumber.file_size_mbytes = (refl, omega arith)
number_tag-IsItem StorageNumber.service_threads = (refl, omega arith)
number_tag-IsItem StorageNumber.num_queues = (refl, omega arith)
number_tag-IsItem StorageNumber.threads_per_queue = (refl, omega arith)
number_tag-IsItem StorageNumber.test_duration_sec = (refl, omega arith)
number_tag-IsItem StorageNumber.report_interval_sec = (refl, omega arith)
number_tag-IsItem StorageNumber.read_reqs_per_sec = (refl, omega arith)
number_tag-IsItem StorageNumber.write_reqs_per_sec = (refl, omega arith)
number_tag-IsItem StorageNumber.record_bytes = (refl, omega arith)
number_tag-IsItem StorageNumber.record_bytes_range_max = (refl, omega arith)
number_tag-IsItem StorageNumber.large_block_op_kbytes = (refl, omega arith)
number_tag-IsItem StorageNumber.replication_factor = (refl, omega arith)
number_tag-IsItem StorageNumber.update_pct = (refl, omega arith)
number_tag-IsItem StorageNumber.defrag_lwm_pct = (refl, omega arith)
number_tag-IsItem StorageNumber.commit_min_bytes = (refl, omega arith)
number_tag-IsItem StorageNumber.tomb_raider_sleep_usec = (refl, omega arith)
number_tag-IsItem StorageNumber.max_reqs_queued = (refl, omega arith)
number_tag-IsItem StorageNumber.max_lag_sec = (refl, omega arith)

pub answer_tag-IsItem : (i : StorageAnswer) → IsItem (answer_tag i)
answer_tag-IsItem StorageAnswer.microsecond_histograms = (refl, omega arith)
answer_tag-IsItem StorageAnswer.disable_odsync = (refl, omega arith)
answer_tag-IsItem StorageAnswer.commit_to_device = (refl, omega arith)
answer_tag-IsItem StorageAnswer.tomb_raider = (refl, omega arith)

module _ {Double : Type 0} where
  abbrev pub set_number : StorageNumber → ℕ → StorageCfg Double → StorageCfg Double
  set_number StorageNumber.file_size_mbytes v cfg = record cfg { file_size = u64 (v * 2 ^ 20) }
  set_number StorageNumber.service_threads v cfg = record cfg { service_threads = v }
  set_number StorageNumber.num_queues v cfg = record cfg { num_queues = v }
  set_number StorageNumber.threads_per_queue v cfg = record cfg { threads_per_queue = v }
  set_number StorageNumber.test_duration_sec v cfg = record cfg { run_us = u64 (v * 1000000) }
  set_number StorageNumber.report_interval_sec v cfg = record cfg {
    report_interval_us = u64 (v * 1000000);
  }
  set_number StorageNumber.read_reqs_per_sec v cfg = record cfg { read_reqs_per_sec = v }
  set_number StorageNumber.write_reqs_per_sec v cfg = record cfg { write_reqs_per_sec = v }
  set_number StorageNumber.record_bytes v cfg = record cfg { record_bytes = v }
  set_number StorageNumber.record_bytes_range_max v cfg = record cfg { record_bytes_rmx = v }
  set_number StorageNumber.large_block_op_kbytes v cfg = record cfg {
    large_block_ops_bytes = u32 (v * 1024);
  }
  set_number StorageNumber.replication_factor v cfg = record cfg { replication_factor = v }
  set_number StorageNumber.update_pct v cfg = record cfg { update_pct = v }
  set_number StorageNumber.defrag_lwm_pct v cfg = record cfg { defrag_lwm_pct = v }
  set_number StorageNumber.commit_min_bytes v cfg = record cfg { commit_min_bytes = v }
  set_number StorageNumber.tomb_raider_sleep_usec v cfg = record cfg { tomb_raider_sleep_us = v }
  set_number StorageNumber.max_reqs_queued v cfg = record cfg { max_reqs_queued = v }
  set_number StorageNumber.max_lag_sec v cfg = record cfg { max_lag_usec = u64 (v * 1000000) }

  abbrev pub set_answer : StorageAnswer → Bool → StorageCfg Double → StorageCfg Double
  set_answer StorageAnswer.microsecond_histograms b cfg = record cfg { us_histograms = b }
  set_answer StorageAnswer.disable_odsync b cfg = record cfg { disable_odsync = b }
  set_answer StorageAnswer.commit_to_device b cfg = record cfg { commit_to_device = b }
  set_answer StorageAnswer.tomb_raider b cfg = record cfg { tomb_raider = b }

  pub set_item-number :
      (i : StorageNumber) (rest : Text) (cfg : StorageCfg Double)
      → set_item (number_tag i) rest cfg ≡ set_number i (parse_uint32 rest) cfg
  unfolding set_item
  set_item-number StorageNumber.file_size_mbytes rest cfg = refl
  set_item-number StorageNumber.service_threads rest cfg = refl
  set_item-number StorageNumber.num_queues rest cfg = refl
  set_item-number StorageNumber.threads_per_queue rest cfg = refl
  set_item-number StorageNumber.test_duration_sec rest cfg = refl
  set_item-number StorageNumber.report_interval_sec rest cfg = refl
  set_item-number StorageNumber.read_reqs_per_sec rest cfg = refl
  set_item-number StorageNumber.write_reqs_per_sec rest cfg = refl
  set_item-number StorageNumber.record_bytes rest cfg = refl
  set_item-number StorageNumber.record_bytes_range_max rest cfg = refl
  set_item-number StorageNumber.large_block_op_kbytes rest cfg = refl
  set_item-number StorageNumber.replication_factor rest cfg = refl
  set_item-number StorageNumber.update_pct rest cfg = refl
  set_item-number StorageNumber.defrag_lwm_pct rest cfg = refl
  set_item-number StorageNumber.commit_min_bytes rest cfg = refl
  set_item-number StorageNumber.tomb_raider_sleep_usec rest cfg = refl
  set_item-number StorageNumber.max_reqs_queued rest cfg = refl
  set_item-number StorageNumber.max_lag_sec rest cfg = refl

  pub set_item-answer :
      (i : StorageAnswer) (rest : Text) (cfg : StorageCfg Double)
      → set_item (answer_tag i) rest cfg ≡ set_answer i (parse_yes_no rest) cfg
  unfolding set_item
  set_item-answer StorageAnswer.microsecond_histograms rest cfg = refl
  set_item-answer StorageAnswer.disable_odsync rest cfg = refl
  set_item-answer StorageAnswer.commit_to_device rest cfg = refl
  set_item-answer StorageAnswer.tomb_raider rest cfg = refl

  pub set_item-names :
      (rest : Text) (cfg : StorageCfg Double)
      → set_item (text "device-names") rest cfg
        ≡ set_names (parse_device_names max_num_storage_devices cfg.device_names rest) cfg
  unfolding set_item
  set_item-names rest cfg = refl

  pub set_item-mode :
      (rest : Text) (cfg : StorageCfg Double)
      → set_item (text "scheduler-mode") rest cfg
        ≡ record cfg { scheduler_mode = parse_scheduler_mode rest }
  unfolding set_item
  set_item-mode rest cfg = refl

  abbrev pub storage_items : Items (StorageCfg Double) StorageNumber StorageAnswer
  storage_items = record {
    set_item = set_item;
    max = max_num_storage_devices;
    size = 4096;
    number_tag = number_tag;
    answer_tag = answer_tag;
    names = λ cfg. cfg.device_names;
    set_names = set_names;
    set_number = set_number;
    set_answer = set_answer;
    set_mode = λ mode cfg. record cfg { scheduler_mode = mode };
    number_tag-IsItem = number_tag-IsItem;
    answer_tag-IsItem = answer_tag-IsItem;
    big = omega arith;
    set_item-names = set_item-names;
    set_item-number = set_item-number;
    set_item-answer = set_item-answer;
    set_item-mode = set_item-mode;
  }

-- A file of settings, whose numbers have 32 bits, whose names are valid and have room, and whose lines
-- fit the buffer, is read as the defaults with these settings in order, and is checked as such.
pub storage_configure-print_file :
    (ops : DoubleOps) (cpus : ℕ) (settings : List (Setting StorageNumber StorageAnswer))
    → AreSettings storage_items settings (default_cfg ops)
    → storage_configure ops cpus (some (print_file (storage_items {Double = ops.Double}) settings))
      ≡ some (configure ops cpus (apply_all storage_items settings (default_cfg ops)))
unfolding storage_configure
storage_configure-print_file ops cpus settings h =
    ap (λ cfg. some (configure ops cpus cfg))
      (parse_lines-print_file storage_items settings (default_cfg ops) h)
