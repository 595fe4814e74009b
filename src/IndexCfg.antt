-- ===== src/IndexCfg.antt =====
-- src/index/cfg_index.c and cfg_index.h: the configuration of act_index, its check, and what is derived
-- from it.
pub mod Check
pub mod Parse
pub mod Echo
use act.Common.{List, [], ℕ, ◌+◌, ◌*◌, Bool, false, ◌==◌, leb, if◌then◌else◌}
use act.Common.Text.{Text, text}
use act.Common.Word.{u32, sub32}
use act.Cfg.{Tag, invalid, both_zero, Checked, accepted, ◌>>=◌, ◌>>◌, refuse_if}
use act.StorageCfg.{DoubleOps}

-- `index_cfg`. The names beyond `num_devices` are not kept.
pub record IndexCfg : Type 0 where
  pub device_names : List Text
  pub num_devices : ℕ
  pub service_threads : ℕ
  pub num_queues : ℕ
  pub threads_per_queue : ℕ
  pub cache_threads : ℕ
  pub run_us : ℕ
  pub report_interval_us : ℕ
  pub us_histograms : Bool
  pub read_reqs_per_sec : ℕ
  pub write_reqs_per_sec : ℕ
  pub replication_factor : ℕ
  pub defrag_lwm_pct : ℕ
  pub disable_odsync : Bool
  pub max_reqs_queued : ℕ
  pub max_lag_usec : ℕ
  pub scheduler_mode : Text
  pub trans_thread_reads_per_sec : ℕ
  pub cache_thread_reads_and_writes_per_sec : ℕ

-- `g_icfg` with its non-zero defaults.
abbrev pub default_icfg : IndexCfg
default_icfg = record {
  device_names = [];
  num_devices = 0;
  service_threads = 1;
  num_queues = 0;
  threads_per_queue = 4;
  cache_threads = 8;
  run_us = 0;
  report_interval_us = 1000000;
  us_histograms = false;
  read_reqs_per_sec = 0;
  write_reqs_per_sec = 0;
  replication_factor = 1;
  defrag_lwm_pct = 50;
  disable_odsync = false;
  max_reqs_queued = 100000;
  max_lag_usec = 1000000 * 10;
  scheduler_mode = text "noop";
  trans_thread_reads_per_sec = 0;
  cache_thread_reads_and_writes_per_sec = 0;
}

-- `cpus` is the result of `num_cpus`.
unfoldable pub check_index : ℕ → IndexCfg → Checked IndexCfg
check_index cpus cfg = do
  refuse_if (cfg.num_devices == 0) (invalid Tag.device_names)
  refuse_if (cfg.service_threads == 0) (invalid Tag.service_threads)
  let queues = if cfg.num_queues == 0 then cpus else cfg.num_queues
  refuse_if (queues == 0) (invalid Tag.num_queues)
  refuse_if (cfg.threads_per_queue == 0) (invalid Tag.threads_per_queue)
  refuse_if (cfg.cache_threads == 0) (invalid Tag.cache_threads)
  refuse_if (cfg.run_us == 0) (invalid Tag.test_duration_sec)
  refuse_if (cfg.report_interval_us == 0) (invalid Tag.report_interval_sec)
  refuse_if (cfg.replication_factor == 0) (invalid Tag.replication_factor)
  refuse_if (leb 100 cfg.defrag_lwm_pct) (invalid Tag.defrag_lwm_pct)
  accepted (record cfg { num_queues = queues })

-- `to_u64` is the conversion of a `double` to uint64_t.
unfoldable pub derive_index : (ops : DoubleOps) → (ops.Double → ℕ) → IndexCfg → Checked IndexCfg
derive_index ops to_u64 cfg = do
  refuse_if (u32 (cfg.read_reqs_per_sec + cfg.write_reqs_per_sec) == 0) both_zero
  let writes = u32 (cfg.replication_factor * cfg.write_reqs_per_sec)
  accepted (record cfg {
    trans_thread_reads_per_sec = u32 (cfg.read_reqs_per_sec + writes);
    cache_thread_reads_and_writes_per_sec = to_u64 (
        ops.mul (ops.of_ℕ writes)
          (ops.div (ops.of_ℕ 100) (ops.of_ℕ (sub32 100 cfg.defrag_lwm_pct))));
  })

-- What follows the parsing of the file in `index_configure`.
unfoldable pub configure_index :
    (ops : DoubleOps) → (ops.Double → ℕ) → ℕ → IndexCfg → Checked IndexCfg
configure_index ops to_u64 cpus cfg = do
  checked ← check_index cpus cfg
  derive_index ops to_u64 checked
