-- ===== src/IndexCfg/Parse/RoundTrip.antt =====
-- The items of act_index.
use act.Common.{ℕ, ◌*◌, ◌≡◌, refl, ap, Bool, some, List, arith}
use act.Common.Text.{Text, text}
use act.Common.Word.{u64}
use act.Cfg.Parse.{parse_device_names, parse_scheduler_mode, parse_uint32, parse_yes_no}
use act.Cfg.Parse.Items.{IsItem, Items, Setting, apply_all, AreSettings, print_file}
use act.Cfg.Parse.Items.RoundTrip.{parse_lines-print_file}
use act.StorageCfg.{DoubleOps}
use act.IndexCfg.{IndexCfg, default_icfg, configure_index}
use act.IndexCfg.Parse.{set_item, set_names, max_num_index_devices, index_configure}

-- The items with a number.
pub data IndexNumber : Type 0 where
  service_threads : IndexNumber
  num_queues : IndexNumber
  threads_per_queue : IndexNumber
  cache_threads : IndexNumber
  test_duration_sec : IndexNumber
  report_interval_sec : IndexNumber
  read_reqs_per_sec : IndexNumber
  write_reqs_per_sec : IndexNumber
  replication_factor : IndexNumber
  defrag_lwm_pct : IndexNumber
  max_reqs_queued : IndexNumber
  max_lag_sec : IndexNumber

-- The items with a yes or a no.
pub data IndexAnswer : Type 0 where
  microsecond_histograms : IndexAnswer
  disable_odsync : IndexAnswer

abbrev pub number_tag : IndexNumber → Text
number_tag IndexNumber.service_threads = text "service-threads"
number_tag IndexNumber.num_queues = text "num-queues"
number_tag IndexNumber.threads_per_queue = text "threads-per-queue"
number_tag IndexNumber.cache_threads = text "cache-threads"
number_tag IndexNumber.test_duration_sec = text "test-duration-sec"
number_tag IndexNumber.report_interval_sec = text "report-interval-sec"
number_tag IndexNumber.read_reqs_per_sec = text "read-reqs-per-sec"
number_tag IndexNumber.write_reqs_per_sec = text "write-reqs-per-sec"
number_tag IndexNumber.replication_factor = text "replication-factor"
number_tag IndexNumber.defrag_lwm_pct = text "defrag-lwm-pct"
number_tag IndexNumber.max_reqs_queued = text "max-reqs-queued"
number_tag IndexNumber.max_lag_sec = text "max-lag-sec"

abbrev pub answer_tag : IndexAnswer → Text
answer_tag IndexAnswer.microsecond_histograms = text "microsecond-histograms"
answer_tag IndexAnswer.disable_odsync = text "disable-odsync"

pub number_tag-IsItem : (i : IndexNumber) → IsItem (number_tag i)
number_tag-IsItem IndexNumber.service_threads = (refl, omega arith)
number_tag-IsItem IndexNumber.num_queues = (refl, omega arith)
number_tag-IsItem IndexNumber.threads_per_queue = (refl, omega arith)
number_tag-IsItem IndexNumber.cache_threads = (refl, omega arith)
number_tag-IsItem IndexNumber.test_duration_sec = (refl, omega arith)
number_tag-IsItem IndexNumber.report_interval_sec = (refl, omega arith)
number_tag-IsItem IndexNumber.read_reqs_per_sec = (refl, omega arith)
number_tag-IsItem IndexNumber.write_reqs_per_sec = (refl, omega arith)
number_tag-IsItem IndexNumber.replication_factor = (refl, omega arith)
number_tag-IsItem IndexNumber.defrag_lwm_pct = (refl, omega arith)
number_tag-IsItem IndexNumber.max_reqs_queued = (refl, omega arith)
number_tag-IsItem IndexNumber.max_lag_sec = (refl, omega arith)

pub answer_tag-IsItem : (i : IndexAnswer) → IsItem (answer_tag i)
answer_tag-IsItem IndexAnswer.microsecond_histograms = (refl, omega arith)
answer_tag-IsItem IndexAnswer.disable_odsync = (refl, omega arith)

abbrev pub set_number : IndexNumber → ℕ → IndexCfg → IndexCfg
set_number IndexNumber.service_threads v cfg = record cfg { service_threads = v }
set_number IndexNumber.num_queues v cfg = record cfg { num_queues = v }
set_number IndexNumber.threads_per_queue v cfg = record cfg { threads_per_queue = v }
set_number IndexNumber.cache_threads v cfg = record cfg { cache_threads = v }
set_number IndexNumber.test_duration_sec v cfg = record cfg { run_us = u64 (v * 1000000) }
set_number IndexNumber.report_interval_sec v cfg = record cfg {
  report_interval_us = u64 (v * 1000000);
}
set_number IndexNumber.read_reqs_per_sec v cfg = record cfg { read_reqs_per_sec = v }
set_number IndexNumber.write_reqs_per_sec v cfg = record cfg { write_reqs_per_sec = v }
set_number IndexNumber.replication_factor v cfg = record cfg { replication_factor = v }
set_number IndexNumber.defrag_lwm_pct v cfg = record cfg { defrag_lwm_pct = v }
set_number IndexNumber.max_reqs_queued v cfg = record cfg { max_reqs_queued = v }
set_number IndexNumber.max_lag_sec v cfg = record cfg { max_lag_usec = u64 (v * 1000000) }

abbrev pub set_answer : IndexAnswer → Bool → IndexCfg → IndexCfg
set_answer IndexAnswer.microsecond_histograms b cfg = record cfg { us_histograms = b }
set_answer IndexAnswer.disable_odsync b cfg = record cfg { disable_odsync = b }

pub set_item-number :
    (i : IndexNumber) (rest : Text) (cfg : IndexCfg)
    → set_item (number_tag i) rest cfg ≡ set_number i (parse_uint32 rest) cfg
unfolding set_item
set_item-number IndexNumber.service_threads rest cfg = refl
set_item-number IndexNumber.num_queues rest cfg = refl
set_item-number IndexNumber.threads_per_queue rest cfg = refl
set_item-number IndexNumber.cache_threads rest cfg = refl
set_item-number IndexNumber.test_duration_sec rest cfg = refl
set_item-number IndexNumber.report_interval_sec rest cfg = refl
set_item-number IndexNumber.read_reqs_per_sec rest cfg = refl
set_item-number IndexNumber.write_reqs_per_sec rest cfg = refl
set_item-number IndexNumber.replication_factor rest cfg = refl
set_item-number IndexNumber.defrag_lwm_pct rest cfg = refl
set_item-number IndexNumber.max_reqs_queued rest cfg = refl
set_item-number IndexNumber.max_lag_sec rest cfg = refl

pub set_item-answer :
    (i : IndexAnswer) (rest : Text) (cfg : IndexCfg)
    → set_item (answer_tag i) rest cfg ≡ set_answer i (parse_yes_no rest) cfg
unfolding set_item
set_item-answer IndexAnswer.microsecond_histograms rest cfg = refl
set_item-answer IndexAnswer.disable_odsync rest cfg = refl

pub set_item-names :
    (rest : Text) (cfg : IndexCfg)
    → set_item (text "device-names") rest cfg
      ≡ set_names (parse_device_names max_num_index_devices cfg.device_names rest) cfg
unfolding set_item
set_item-names rest cfg = refl

pub set_item-mode :
    (rest : Text) (cfg : IndexCfg)
    → set_item (text "scheduler-mode") rest cfg
      ≡ record cfg { scheduler_mode = parse_scheduler_mode rest }
unfolding set_item
set_item-mode rest cfg = refl

abbrev pub index_items : Items IndexCfg IndexNumber IndexAnswer
index_items = record {
  set_item = set_item;
  max = max_num_index_devices;
  size = 1024;
  number_tag = number_tag;
  answer_tag = answer_tag;
  names = λ cfg. cfg.device_names;
  set_names = set_names;
  set_number = set_number;
  set_answer = set_answer;
  set_mode = λ mode cfg. record cfg { scheduler_mode = mode };
  number_tag-IsItem = number_tag-IsItem;
  answer_tag-IsItem = answer_tag-IsItem;
  big = omega arith;
  set_item-names = set_item-names;
  set_item-number = set_item-number;
  set_item-answer = set_item-answer;
  set_item-mode = set_item-mode;
}

-- A file of settings, whose numbers have 32 bits, whose names are valid and have room, and whose lines
-- fit the buffer, is read as the defaults with these settings in order, and is checked as such.
pub index_configure-print_file :
    (ops : DoubleOps) (to_u64 : ops.Double → ℕ) (cpus : ℕ)
    (settings : List (Setting IndexNumber IndexAnswer))
    → AreSettings index_items settings default_icfg
    → index_configure ops to_u64 cpus (some (print_file index_items settings))
      ≡ some (configure_index ops to_u64 cpus (apply_all index_items settings default_icfg))
unfolding index_configure
index_configure-print_file ops to_u64 cpus settings h =
    ap (λ cfg. some (configure_index ops to_u64 cpus cfg))
      (parse_lines-print_file index_items settings default_icfg h)
