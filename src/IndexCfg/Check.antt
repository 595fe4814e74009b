-- ===== src/IndexCfg/Check.antt =====
-- The check and the derivation of cfg_index.c: what an accepted configuration satisfies.
use act.Common.{ℕ, ◌<◌, ◌≡◌, ◌⊎◌, arith}
use act.Cfg.{accepted}
use act.IndexCfg.{IndexCfg, check_index}

pub record IsChecked (cfg : IndexCfg) : Type 0 where
  pub devices : 0 < cfg.num_devices
  pub services : 0 < cfg.service_threads
  pub queues : 0 < cfg.num_queues
  pub threads : 0 < cfg.threads_per_queue
  pub caches : 0 < cfg.cache_threads
  pub runs : 0 < cfg.run_us
  pub reports : 0 < cfg.report_interval_us
  pub replicas : 0 < cfg.replication_factor
  pub defrag : cfg.defrag_lwm_pct < 100

pub check_index-IsChecked :
    (cpus : ℕ) (cfg cfg' : IndexCfg)
    → check_index cpus cfg ≡ accepted cfg'
    → IsChecked cfg'
      × ((cfg'.num_queues ≡ cfg.num_queues) ⊎ ((cfg.num_queues ≡ 0) × (cfg'.num_queues ≡ cpus)))
unfolding check_index
check_index-IsChecked cpus cfg cfg' e = ground arith
