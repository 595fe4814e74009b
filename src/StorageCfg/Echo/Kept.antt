-- ===== src/StorageCfg/Echo/Kept.antt =====
-- What the check and the derivation of a configuration of act_storage leave as it is.
use act.Common.{ℕ, ◌^◌, ◌<◌, ◌≡◌, refl, ap, ◌∙◌, false, arith, ◌==◌, not, ◌&&◌, ◌||◌, ltb, leb}
use act.Cfg.{accepted}
use act.StorageCfg.{
  StorageCfg, DoubleOps, is_power_of_2, check_configuration, derive_rates, derive_large_blocks,
  derive_threads, derive_configuration,
}
use act.StorageCfg.Check.{IsChecked}
use act.StorageCfg.PowerOf2.{round_up_to_rblock-small}
use act.StorageCfg.Derive.{derive_configuration-parts}
use act.StorageCfg.Parse.Parsed.{underived}

-- The widths of what is derived.
pub record DerivedSmall {D : Type 0} (cfg : StorageCfg D) : Type 0 where
  pub stored : cfg.record_stored_bytes < 2 ^ 32
  pub stored_rmx : cfg.record_stored_bytes_rmx < 2 ^ 32
  pub reads : cfg.internal_read_reqs_per_sec < 2 ^ 64
  pub writes : cfg.internal_write_reqs_per_sec < 2 ^ 64
  pub readers : cfg.read_req_threads < 2 ^ 32
  pub writers : cfg.write_req_threads < 2 ^ 32

-- A configuration that meets every condition is accepted as it is.
module _ (ops : DoubleOps) (cpus : ℕ) (cfg : StorageCfg ops.Double) (c : IsChecked cfg) where
  devices_ok : (cfg.num_devices == 0) ≡ false
  devices_ok = ground arith

  services_ok : (cfg.service_threads == 0) ≡ false
  services_ok = ground arith

  queues_ok : (cfg.num_queues == 0) ≡ false
  queues_ok = ground arith

  threads_ok : (cfg.threads_per_queue == 0) ≡ false
  threads_ok = ground arith

  runs_ok : (cfg.run_us == 0) ≡ false
  runs_ok = ground arith

  reports_ok : (cfg.report_interval_us == 0) ≡ false
  reports_ok = ground arith

  some_record_ok : (cfg.record_bytes == 0) ≡ false
  some_record_ok = ground arith

  range_ok : (not (cfg.record_bytes_rmx == 0) && leb cfg.record_bytes_rmx cfg.record_bytes) ≡ false
  range_ok = ground arith

  large_ok :
      (ltb cfg.large_block_ops_bytes cfg.record_bytes
        || ltb cfg.large_block_ops_bytes cfg.record_bytes_rmx
        || not (is_power_of_2 cfg.large_block_ops_bytes))
      ≡ false
  large_ok = ground arith

  replicas_ok : (cfg.replication_factor == 0) ≡ false
  replicas_ok = ground arith

  updates_ok : (ltb 100 cfg.update_pct) ≡ false
  updates_ok = ground arith

  defrag_ok : (leb 100 cfg.defrag_lwm_pct) ≡ false
  defrag_ok = ground arith

  sync_ok : (cfg.disable_odsync && cfg.commit_to_device) ≡ false
  sync_ok = ground arith

  commit_ok :
      (not (cfg.commit_min_bytes == 0)
        && (ltb cfg.large_block_ops_bytes cfg.commit_min_bytes
            || not (is_power_of_2 cfg.commit_min_bytes)))
      ≡ false
  commit_ok = ground arith

  pub check_again : check_configuration ops cpus cfg ≡ accepted cfg
  unfolding check_configuration
  check_again =
      rw
        (
          devices_ok, services_ok, queues_ok, threads_ok, runs_ok, reports_ok, some_record_ok,
          range_ok, large_ok, replicas_ok, updates_ok, defrag_ok, sync_ok, commit_ok,
        )
        (rw (queues_ok) refl)

module _ (ops : DoubleOps) where
  -- The derivation changes nothing but what is derived.
  derive_rates-underived :
      (cfg : StorageCfg ops.Double) → underived ops (derive_rates ops cfg) ≡ underived ops cfg
  unfolding derive_rates
  derive_rates-underived cfg = refl

  derive_large_blocks-underived :
      (cfg cfg' : StorageCfg ops.Double)
      → derive_large_blocks ops cfg ≡ accepted cfg'
      → underived ops cfg' ≡ underived ops cfg
  unfolding derive_large_blocks
  derive_large_blocks-underived cfg cfg' e = ground arith

  derive_threads-underived :
      (cfg cfg' : StorageCfg ops.Double)
      → derive_threads ops cfg ≡ accepted cfg'
      → underived ops cfg' ≡ underived ops cfg
  unfolding derive_threads
  derive_threads-underived cfg cfg' e = ground arith

  pub derive_configuration-underived :
      (cfg cfg' : StorageCfg ops.Double)
      → derive_configuration ops cfg ≡ accepted cfg'
      → underived ops cfg' ≡ underived ops cfg
  derive_configuration-underived cfg cfg' e =
      let (large, l, t, _) = derive_configuration-parts ops cfg cfg' e in
      derive_threads-underived large cfg' t
      ∙ derive_large_blocks-underived (derive_rates ops cfg) large l
      ∙ derive_rates-underived cfg

  -- What the derivation computes fits the widths of its fields.
  derive_rates-DerivedSmall :
      (cfg : StorageCfg ops.Double) → underived ops cfg ≡ cfg → DerivedSmall (derive_rates ops cfg)
  unfolding derive_rates
  derive_rates-DerivedSmall cfg u = ground (
    arith,
    round_up_to_rblock-small cfg.record_bytes,
    round_up_to_rblock-small cfg.record_bytes_rmx,
  )

  derive_large_blocks-DerivedSmall :
      (cfg cfg' : StorageCfg ops.Double)
      → DerivedSmall cfg
      → derive_large_blocks ops cfg ≡ accepted cfg'
      → DerivedSmall cfg'
  unfolding derive_large_blocks
  derive_large_blocks-DerivedSmall cfg cfg' s e = ground arith

  derive_threads-DerivedSmall :
      (cfg cfg' : StorageCfg ops.Double)
      → DerivedSmall cfg
      → cfg.service_threads < 2 ^ 32
      → derive_threads ops cfg ≡ accepted cfg'
      → DerivedSmall cfg'
  unfolding derive_threads
  derive_threads-DerivedSmall cfg cfg' s h e = ground arith

  pub derive_configuration-DerivedSmall :
      (cfg cfg' : StorageCfg ops.Double)
      → underived ops cfg ≡ cfg
      → cfg.service_threads < 2 ^ 32
      → derive_configuration ops cfg ≡ accepted cfg'
      → DerivedSmall cfg'
  derive_configuration-DerivedSmall cfg cfg' u h e =
      let (large, l, t, _) = derive_configuration-parts ops cfg cfg' e in
      let services : large.service_threads ≡ cfg.service_threads =
        ap (λ c. c.service_threads)
          (derive_large_blocks-underived (derive_rates ops cfg) large l
            ∙ derive_rates-underived cfg) in
      derive_threads-DerivedSmall large cfg'
        (derive_large_blocks-DerivedSmall (derive_rates ops cfg) large
          (derive_rates-DerivedSmall cfg u) l)
        (omega arith) t
