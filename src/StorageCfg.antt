-- ===== src/StorageCfg.antt =====
-- src/storage/cfg_storage.c and cfg_storage.h: the configuration of act_storage, its check, and what
-- is derived from it.
pub mod PowerOf2
pub mod Check
pub mod Parse
pub mod Echo
pub mod Derive
use Prim.Native.Nat.{bit_and}
use act.Common.{
  List, [], ℕ, ◌+◌, ◌-◌, ◌*◌, ◌/◌, ◌%◌, ◌^◌, Bool, true, false, not, ◌&&◌, ◌||◌, List, ◌==◌, ltb,
  leb, if◌then◌else◌,
}
use act.Common.Text.{Text, text}
use act.Common.Word.{u32, u64, sub32}
use act.Cfg.{
  Tag, ConfigError, invalid, too_small, both_zero, Checked, accepted, rejected, crashes, ◌>>=◌,
  ◌>>◌, refuse_if, divide,
}

-- The `double` operations that the derivation uses.
pub record DoubleOps : Type 1 where
  pub Double : Type 0
  pub of_ℕ : ℕ → Double
  pub div : Double → Double → Double
  pub mul : Double → Double → Double
  pub sub : Double → Double → Double

-- `storage_cfg`. The names beyond `num_devices` are not kept.
pub record StorageCfg (Double : Type 0) : Type 0 where
  pub device_names : List Text
  pub num_devices : ℕ
  pub file_size : ℕ
  pub service_threads : ℕ
  pub num_queues : ℕ
  pub threads_per_queue : ℕ
  pub run_us : ℕ
  pub report_interval_us : ℕ
  pub us_histograms : Bool
  pub read_reqs_per_sec : ℕ
  pub write_reqs_per_sec : ℕ
  pub record_bytes : ℕ
  pub record_bytes_rmx : ℕ
  pub large_block_ops_bytes : ℕ
  pub replication_factor : ℕ
  pub update_pct : ℕ
  pub defrag_lwm_pct : ℕ
  pub disable_odsync : Bool
  pub commit_to_device : Bool
  pub commit_min_bytes : ℕ
  pub tomb_raider : Bool
  pub tomb_raider_sleep_us : ℕ
  pub max_reqs_queued : ℕ
  pub max_lag_usec : ℕ
  pub scheduler_mode : Text
  pub record_stored_bytes : ℕ
  pub record_stored_bytes_rmx : ℕ
  pub internal_read_reqs_per_sec : ℕ
  pub internal_write_reqs_per_sec : ℕ
  pub read_req_threads : ℕ
  pub write_req_threads : ℕ
  pub large_block_reads_per_sec : Double
  pub large_block_writes_per_sec : Double

abbrev pub rblock_size : ℕ
rblock_size = 16

unfoldable pub is_power_of_2 : ℕ → Bool
is_power_of_2 value = bit_and value (sub32 value 1) == 0

-- `& -RBLOCK_SIZE` masks with the 32-bit pattern of -16.
unfoldable pub round_up_to_rblock : ℕ → ℕ
round_up_to_rblock size = bit_and (u32 (size + (rblock_size - 1))) (2 ^ 32 - rblock_size)

module _ (ops : DoubleOps) where
  open ops use {Double, of_ℕ, div, mul, sub}

  -- `g_scfg` with its non-zero defaults.
  unfoldable pub default_cfg : StorageCfg Double
  default_cfg = record {
    device_names = [];
    num_devices = 0;
    file_size = 0;
    service_threads = 1;
    num_queues = 0;
    threads_per_queue = 4;
    run_us = 0;
    report_interval_us = 1000000;
    us_histograms = false;
    read_reqs_per_sec = 0;
    write_reqs_per_sec = 0;
    record_bytes = 1536;
    record_bytes_rmx = 0;
    large_block_ops_bytes = 1024 * 128;
    replication_factor = 1;
    update_pct = 0;
    defrag_lwm_pct = 50;
    disable_odsync = false;
    commit_to_device = false;
    commit_min_bytes = 0;
    tomb_raider = false;
    tomb_raider_sleep_us = 0;
    max_reqs_queued = 100000;
    max_lag_usec = 1000000 * 10;
    scheduler_mode = text "noop";
    record_stored_bytes = 0;
    record_stored_bytes_rmx = 0;
    internal_read_reqs_per_sec = 0;
    internal_write_reqs_per_sec = 0;
    read_req_threads = 0;
    write_req_threads = 0;
    large_block_reads_per_sec = of_ℕ 0;
    large_block_writes_per_sec = of_ℕ 0;
  }

  -- `cpus` is the result of `num_cpus`.
  unfoldable pub check_configuration : ℕ → StorageCfg Double → Checked (StorageCfg Double)
  check_configuration cpus cfg = do
    refuse_if (cfg.num_devices == 0) (invalid Tag.device_names)
    refuse_if (cfg.service_threads == 0) (invalid Tag.service_threads)
    let queues = if cfg.num_queues == 0 then cpus else cfg.num_queues
    refuse_if (queues == 0) (invalid Tag.num_queues)
    refuse_if (cfg.threads_per_queue == 0) (invalid Tag.threads_per_queue)
    refuse_if (cfg.run_us == 0) (invalid Tag.test_duration_sec)
    refuse_if (cfg.report_interval_us == 0) (invalid Tag.report_interval_sec)
    refuse_if (cfg.record_bytes == 0) (invalid Tag.record_bytes)
    refuse_if (not (cfg.record_bytes_rmx == 0) && leb cfg.record_bytes_rmx cfg.record_bytes)
        (invalid Tag.record_bytes_range_max)
    refuse_if
        (ltb cfg.large_block_ops_bytes cfg.record_bytes
          || ltb cfg.large_block_ops_bytes cfg.record_bytes_rmx
          || not (is_power_of_2 cfg.large_block_ops_bytes))
        (invalid Tag.large_block_op_kbytes)
    refuse_if (cfg.replication_factor == 0) (invalid Tag.replication_factor)
    refuse_if (ltb 100 cfg.update_pct) (invalid Tag.update_pct)
    refuse_if (leb 100 cfg.defrag_lwm_pct) (invalid Tag.defrag_lwm_pct)
    refuse_if (cfg.disable_odsync && cfg.commit_to_device) (invalid Tag.disable_odsync)
    refuse_if
        (not (cfg.commit_min_bytes == 0)
          && (ltb cfg.large_block_ops_bytes cfg.commit_min_bytes
              || not (is_power_of_2 cfg.commit_min_bytes)))
        (invalid Tag.commit_min_bytes)
    accepted (record cfg { num_queues = queues })

  -- The first part of `derive_configuration`: request rates and record sizes.
  unfoldable pub derive_rates : StorageCfg Double → StorageCfg Double
  derive_rates cfg =
      let stored = round_up_to_rblock cfg.record_bytes in
      record cfg {
        internal_read_reqs_per_sec =
            u32 (cfg.read_reqs_per_sec + u32 (cfg.write_reqs_per_sec * cfg.update_pct) / 100);
        record_stored_bytes = stored;
        record_stored_bytes_rmx =
            if cfg.record_bytes_rmx == 0 then stored else round_up_to_rblock cfg.record_bytes_rmx;
      }

  abbrev pub internal_writes : StorageCfg Double → ℕ
  internal_writes cfg = u32 (cfg.replication_factor * cfg.write_reqs_per_sec)

  -- The large-block rates: writes due to defragmentation are on top of the original ones.
  unfoldable pub derive_large_blocks : StorageCfg Double → Checked (StorageCfg Double)
  derive_large_blocks cfg = do
    records ←
        divide cfg.large_block_ops_bytes
          (u32 (cfg.record_stored_bytes + cfg.record_stored_bytes_rmx) / 2)
    let original = div (of_ℕ (internal_writes cfg)) (of_ℕ records)
    let amplification = div (of_ℕ 100) (of_ℕ (sub32 100 cfg.defrag_lwm_pct))
    let reads = mul original amplification
    accepted (record cfg {
      large_block_reads_per_sec = reads;
      large_block_writes_per_sec =
          if cfg.commit_to_device then mul original (sub amplification (of_ℕ 1)) else reads;
    })

  -- The service threads are shared between the two request generators.
  unfoldable pub derive_threads : StorageCfg Double → Checked (StorageCfg Double)
  derive_threads cfg =
      if cfg.commit_to_device
      then (do
        let writes = internal_writes cfg
        share ←
            divide (u64 (cfg.service_threads * cfg.internal_read_reqs_per_sec))
              (u64 (cfg.internal_read_reqs_per_sec + writes))
        let readers = if u32 share == 0 then 1 else u32 share
        let spare = sub32 cfg.service_threads readers
        let writers = if spare == 0 then 1 else spare
        each ← divide writes writers
        refuse_if (not (cfg.write_reqs_per_sec == 0) && each == 0)
            (too_small Tag.write_reqs_per_sec)
        accepted (record cfg {
          internal_write_reqs_per_sec = writes;
          read_req_threads = readers;
          write_req_threads = writers;
        }))
      else accepted (record cfg { read_req_threads = cfg.service_threads; write_req_threads = 0 })

  unfoldable pub derive_configuration : StorageCfg Double → Checked (StorageCfg Double)
  derive_configuration cfg = do
    refuse_if (u32 (cfg.read_reqs_per_sec + cfg.write_reqs_per_sec) == 0) both_zero
    large ← derive_large_blocks (derive_rates cfg)
    threads ← derive_threads large
    each ←
        (if threads.read_reqs_per_sec == 0
          then accepted 1
          else divide threads.internal_read_reqs_per_sec threads.read_req_threads)
    refuse_if (each == 0) (too_small Tag.read_reqs_per_sec)
    accepted threads

  -- What follows the parsing of the file in `storage_configure`.
  unfoldable pub configure : ℕ → StorageCfg Double → Checked (StorageCfg Double)
  configure cpus cfg = do checked ← check_configuration cpus cfg; derive_configuration checked
