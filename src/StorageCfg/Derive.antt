-- ===== src/StorageCfg/Derive.antt =====
-- `derive_configuration` of cfg_storage.c: the divisions that the threads of act_storage make with
-- the derived rates are safe, and when the derivation itself divides by zero.
use act.Common.{
  true, ◌+◌, ◌/◌, ◌%◌, ◌^◌, ◌≤◌, ◌<◌, ◌≡◌, ◌⊎◌, ap, ◌∙◌, false, arith, ◌==◌, if◌then◌else◌,
}
use act.Common.Word.{u32}
use act.Cfg.{crashes, ◌>>◌, too_small, Tag, both_zero, refuse_if, accepted, ◌>>=◌, divide}
use act.Cfg.Bind.{bind-accepted, refuse_if-accepted}
use act.StorageCfg.{
  internal_writes, StorageCfg, DoubleOps, rblock_size, derive_rates, derive_large_blocks,
  derive_threads, derive_configuration,
}

-- Sizes that the 32-bit arithmetic holds; the large block is given in Kbytes.
pub record InRange {D : Type 0} (cfg : StorageCfg D) : Type 0 where
  pub large_kbytes : cfg.large_block_ops_bytes % 1024 ≡ 0
  pub large_small : cfg.large_block_ops_bytes ≤ 2 ^ 30
  pub services_wide : cfg.service_threads < 2 ^ 32

-- The stored sizes are whole rblocks, hold the records, and fit a large block.
pub record Stored {D : Type 0} (cfg : StorageCfg D) : Type 0 where
  pub whole : cfg.record_stored_bytes % rblock_size ≡ 0
  pub holds : cfg.record_bytes ≤ cfg.record_stored_bytes
  pub ordered : cfg.record_stored_bytes ≤ cfg.record_stored_bytes_rmx
  pub fits : cfg.record_stored_bytes_rmx ≤ cfg.large_block_ops_bytes

-- The rates of the request generators can be divided by and are not zero where requests are made.
pub record Shared {D : Type 0} (cfg : StorageCfg D) : Type 0 where
  pub readers : 0 < cfg.read_req_threads
  pub few_readers : cfg.read_req_threads ≤ cfg.service_threads
  pub writers : (cfg.commit_to_device ≡ false) ⊎ (0 < cfg.write_req_threads)
  pub writes :
      (cfg.commit_to_device ≡ false)
      ⊎ ((cfg.write_reqs_per_sec ≡ 0)
          ⊎ (0 < cfg.internal_write_reqs_per_sec / cfg.write_req_threads))

-- What the large-block rates leave alone.
pub record SameRates {D : Type 0} (cfg large : StorageCfg D) : Type 0 where
  pub reads : large.read_reqs_per_sec ≡ cfg.read_reqs_per_sec
  pub writes : large.write_reqs_per_sec ≡ cfg.write_reqs_per_sec
  pub internal : large.internal_read_reqs_per_sec ≡ cfg.internal_read_reqs_per_sec
  pub services : large.service_threads ≡ cfg.service_threads
  pub commits : large.commit_to_device ≡ cfg.commit_to_device
  pub stored : Stored large

-- The last step of the derivation only checks the rate per read thread.
read_rate_lem :
    (ops : DoubleOps) (threads cfg' : StorageCfg ops.Double)
    → ((if threads.read_reqs_per_sec == 0
          then accepted 1
          else divide threads.internal_read_reqs_per_sec threads.read_req_threads)
        >>= (λ each. refuse_if (each == 0) (too_small Tag.read_reqs_per_sec) >> accepted threads))
      ≡ accepted cfg'
    → (threads ≡ cfg')
      × ((cfg'.read_reqs_per_sec ≡ 0)
          ⊎ (0 < cfg'.internal_read_reqs_per_sec / cfg'.read_req_threads))
read_rate_lem ops threads cfg' e = ground arith

-- A derivation that succeeds did every part.
pub derive_configuration-parts :
    (ops : DoubleOps) (cfg cfg' : StorageCfg ops.Double)
    → derive_configuration ops cfg ≡ accepted cfg'
    → (large : StorageCfg ops.Double) × (derive_large_blocks ops (derive_rates ops cfg)
        ≡ accepted large)
      × (derive_threads ops large ≡ accepted cfg')
      × ((cfg'.read_reqs_per_sec ≡ 0)
          ⊎ (0 < cfg'.internal_read_reqs_per_sec / cfg'.read_req_threads))
unfolding derive_configuration
derive_configuration-parts ops cfg cfg' e =
    let (_, after) =
      refuse_if-accepted (u32 (cfg.read_reqs_per_sec + cfg.write_reqs_per_sec) == 0) both_zero _
        cfg' e in
    let (large, l, after_large) =
      bind-accepted (derive_large_blocks ops (derive_rates ops cfg)) _ cfg' after in
    let (threads, t, last) = bind-accepted (derive_threads ops large) _ cfg' after_large in
    let (same, each) = read_rate_lem ops threads cfg' last in (large, l, t ∙ ap accepted same, each)

-- The division of the service threads is by zero only where no reads are made and the product of the
-- replication factor and the writes wraps to 0.
pub derive_threads-crashes :
    (ops : DoubleOps) (cfg : StorageCfg ops.Double)
    → cfg.internal_read_reqs_per_sec < 2 ^ 32
    → derive_threads ops cfg ≡ crashes
    → (cfg.commit_to_device ≡ true)
      × (cfg.internal_read_reqs_per_sec ≡ 0)
      × (internal_writes ops cfg ≡ 0)
unfolding derive_threads
derive_threads-crashes ops cfg h e = ground arith
