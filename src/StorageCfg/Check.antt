-- ===== src/StorageCfg/Check.antt =====
-- `check_configuration` of cfg_storage.c: what an accepted configuration satisfies.
use act.Common.{ℕ, ◌≤◌, ◌<◌, ◌≡◌, ◌⊎◌, true, false, arith}
use act.Cfg.{accepted}
use act.StorageCfg.{StorageCfg, DoubleOps, is_power_of_2, check_configuration}

pub record IsChecked {D : Type 0} (cfg : StorageCfg D) : Type 0 where
  pub devices : 0 < cfg.num_devices
  pub services : 0 < cfg.service_threads
  pub queues : 0 < cfg.num_queues
  pub threads : 0 < cfg.threads_per_queue
  pub runs : 0 < cfg.run_us
  pub reports : 0 < cfg.report_interval_us
  pub record_some : 0 < cfg.record_bytes
  pub range : (cfg.record_bytes_rmx ≡ 0) ⊎ (cfg.record_bytes < cfg.record_bytes_rmx)
  pub record_fits : cfg.record_bytes ≤ cfg.large_block_ops_bytes
  pub range_fits : cfg.record_bytes_rmx ≤ cfg.large_block_ops_bytes
  pub large_power : is_power_of_2 cfg.large_block_ops_bytes ≡ true
  pub replicas : 0 < cfg.replication_factor
  pub updates : cfg.update_pct ≤ 100
  pub defrag : cfg.defrag_lwm_pct < 100
  pub sync : (cfg.disable_odsync ≡ false) ⊎ (cfg.commit_to_device ≡ false)
  pub commit-Fits : cfg.commit_min_bytes ≤ cfg.large_block_ops_bytes
  pub commit_power : (cfg.commit_min_bytes ≡ 0) ⊎ (is_power_of_2 cfg.commit_min_bytes ≡ true)

-- A configuration that is accepted meets every condition, and only the number of queues may differ
-- from what was given: it is the number of CPUs where none was.
pub check_configuration-IsChecked :
    (ops : DoubleOps) (cpus : ℕ) (cfg cfg' : StorageCfg ops.Double)
    → check_configuration ops cpus cfg ≡ accepted cfg'
    → IsChecked cfg'
      × (cfg' ≡ record cfg { num_queues = cfg'.num_queues })
      × ((cfg'.num_queues ≡ cfg.num_queues) ⊎ ((cfg.num_queues ≡ 0) × (cfg'.num_queues ≡ cpus)))
unfolding check_configuration
check_configuration-IsChecked ops cpus cfg cfg' e = ground arith
