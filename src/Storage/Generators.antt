-- ===== src/Storage/Generators.antt =====
-- src/storage/act_storage.c: the request generators and the tomb raider, one round of the loop of each.
pub mod Pacing
pub mod Raider
use act.Common.{
  ℕ, zero, suc, ◌+◌, ◌-◌, ◌*◌, ◌/◌, ◌%◌, ◌^◌, Bool, true, false, ◌&&◌, ◌==◌, ltb, leb,
  if◌then◌else◌,
}
use act.Common.Word.{u32, u64, sub64}
use act.Random.{Seeds, rand_32}
use act.StorageCfg.{StorageCfg}
use act.Storage.{
  Device, random_read_offset, random_read_size, random_write_offset, random_write_size,
}
use act.Storage.Transactions.{TransReq}

-- What a paced thread does next: sleep for some microseconds, go on at once, or stop the test.
pub data Pace : Type 0 where
  sleep : ℕ → Pace
  go_on stop_test : Pace

-- From `sleep_us`, the 64-bit pattern of an int64_t.
unfoldable pub pace_of : ℕ → ℕ → Pace
pace_of max_lag_usec sleep_us =
    if ltb sleep_us (2 ^ 63)
    then (if sleep_us == 0 then go_on else sleep (u32 sleep_us))
    else (if ltb max_lag_usec (2 ^ 64 - sleep_us) then stop_test else go_on)

-- `now_us` is what `get_us` returns.
pub pace : ℕ → ℕ → ℕ → ℕ → ℕ → Pace
pace max_lag_usec reqs_per_sec run_start_us count now_us =
    pace_of max_lag_usec (sub64 (u64 (count * 1000000) / reqs_per_sec) (sub64 now_us run_start_us))

-- What one round does: the test is stopped because too many requests are queued, or a request goes to
-- a queue and the thread continues by `Pace`.
pub data Round : Type 0 where
  too_many : Round
  queued : ℕ → TransReq → Pace → Round

module _ {Double : Type 0} (cfg : StorageCfg Double) (devices : ℕ → Device) where
  -- `reqs_queued` is `g_reqs_queued`, the pattern of an int32_t; the second result is its new value.
  -- `start_ns` and `now_us` are the times that the clock returns.
  pub generate_read_req : ℕ → ℕ → ℕ → ℕ → ℕ → Seeds → Round × ℕ × Seeds
  generate_read_req run_start_us start_ns now_us count reqs_queued s0 =
      let reqs_queued' = u32 (reqs_queued + 1) in
      let (n, s1) = rand_32 s0 in
      let dev = n % cfg.num_devices in
      let (offset, s2) = random_read_offset (devices dev) s1 in
      let (size, s3) = random_read_size (devices dev) s2 in
      let next =
        pace cfg.max_lag_usec (cfg.internal_read_reqs_per_sec / cfg.read_req_threads) run_start_us
          (count + 1) now_us in
      if ltb cfg.max_reqs_queued reqs_queued' && ltb reqs_queued' (2 ^ 31)
      then (too_many, reqs_queued', s0)
      else (
        queued (u32 (count % cfg.num_queues))
            (record {
              dev = dev;
              offset = offset;
              size = size;
              is_write = false;
              start_time = start_ns;
            })
            next,
        reqs_queued',
        s3,
      )

  pub generate_write_req : ℕ → ℕ → ℕ → ℕ → ℕ → Seeds → Round × ℕ × Seeds
  generate_write_req run_start_us start_ns now_us count reqs_queued s0 =
      let reqs_queued' = u32 (reqs_queued + 1) in
      let (n, s1) = rand_32 s0 in
      let dev = n % cfg.num_devices in
      let (offset, s2) = random_write_offset (devices dev) s1 in
      let (size, s3) = random_write_size (devices dev) s2 in
      let next =
        pace cfg.max_lag_usec (cfg.internal_write_reqs_per_sec / cfg.write_req_threads) run_start_us
          (count + 1) now_us in
      if ltb cfg.max_reqs_queued reqs_queued' && ltb reqs_queued' (2 ^ 31)
      then (too_many, reqs_queued', s0)
      else (
        queued (u32 (count % cfg.num_queues))
            (record {
              dev = dev;
              offset = offset;
              size = size;
              is_write = true;
              start_time = start_ns;
            })
            next,
        reqs_queued',
        s3,
      )

module _ {Double : Type 0} (cfg : StorageCfg Double) where
  -- The offset of the next read of `run_tomb_raider`.
  pub next_raid : Device → ℕ → ℕ
  next_raid dev offset =
      let offset' = u64 (offset + cfg.large_block_ops_bytes) in
      if offset' == u64 (dev.n_large_blocks * cfg.large_block_ops_bytes) then 0 else offset'
