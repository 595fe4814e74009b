-- ===== src/Storage.antt =====
-- src/storage/act_storage.c: the devices of act_storage and the places its operations go to.
pub mod Sites
pub mod Range
pub mod Discover
pub mod Descriptors
pub mod Transactions
pub mod Generators
pub mod LargeBlocks
pub mod Main
use act.Common.{
  ℕ, zero, suc, ◌+◌, ◌-◌, ◌*◌, ◌/◌, ◌%◌, ◌^◌, Bool, true, false, Option, none, some, ◌==◌, ltb, leb,
  if◌then◌else◌,
}
use act.Common.Word.{u32, u64, sub32, sub64}
use act.StorageCfg.{StorageCfg, DoubleOps}
use act.Random.{Seeds, rand_32, rand_64}

-- The numbers that `discover_device` finds; the queue of file descriptors, the threads and the
-- histograms of a device are not part of them.
pub record Device : Type 0 where
  pub n_large_blocks : ℕ
  pub n_read_offsets : ℕ
  pub n_write_offsets : ℕ
  pub min_op_bytes : ℕ
  pub min_commit_bytes : ℕ
  pub read_bytes : ℕ
  pub write_bytes : ℕ
  pub n_read_sizes : ℕ
  pub n_write_sizes : ℕ

abbrev pub lo_io_min_size : ℕ
lo_io_min_size = 512

abbrev pub hi_io_min_size : ℕ
hi_io_min_size = 4096

pub align_4096 : ℕ → ℕ
align_4096 stack_buffer = let n = u64 (stack_buffer + 4095) in n - n % 4096

pub safe_delta_ns : ℕ → ℕ → ℕ
safe_delta_ns start_ns stop_ns = if ltb stop_ns start_ns then 0 else stop_ns - start_ns

module _ {Double : Type 0} (cfg : StorageCfg Double) where
  pub random_large_block_offset : Device → Seeds → ℕ × Seeds
  random_large_block_offset dev s =
      let (n, s') = rand_64 s in (u64 (n % dev.n_large_blocks * cfg.large_block_ops_bytes), s')

  unfoldable pub discover_read_pattern : Device → Device
  discover_read_pattern dev =
      let n_min_op_blocks =
        u64 (dev.n_large_blocks * cfg.large_block_ops_bytes) / dev.min_op_bytes in
      let blocks = sub32 (u32 (cfg.record_stored_bytes + dev.min_op_bytes)) 1 / dev.min_op_bytes in
      let blocks_rmx =
        sub32 (u32 (cfg.record_stored_bytes_rmx + dev.min_op_bytes)) 1 / dev.min_op_bytes in
      record dev {
        read_bytes = u32 (blocks * dev.min_op_bytes);
        n_read_sizes = u32 (sub32 blocks_rmx blocks + 1);
        n_read_offsets = u64 (sub64 n_min_op_blocks blocks_rmx + 1);
      }

  unfoldable pub discover_write_pattern : Device → Device
  discover_write_pattern dev =
      let min_commit =
        if ltb cfg.commit_min_bytes dev.min_op_bytes
        then dev.min_op_bytes
        else cfg.commit_min_bytes in
      let n_min_commit_blocks = u64 (dev.n_large_blocks * cfg.large_block_ops_bytes) / min_commit in
      let blocks = sub32 (u32 (cfg.record_stored_bytes + min_commit)) 1 / min_commit in
      let blocks_rmx = sub32 (u32 (cfg.record_stored_bytes_rmx + min_commit)) 1 / min_commit in
      record dev {
        min_commit_bytes = min_commit;
        write_bytes = u32 (blocks * min_commit);
        n_write_sizes = u32 (sub32 blocks_rmx blocks + 1);
        n_write_offsets = u64 (sub64 n_min_commit_blocks blocks_rmx + 1);
      }

-- The loop of `discover_min_op_bytes` on fuel, from the size `read_sz` on. `reads` says for which
-- sizes a read at the start of the device succeeds.
unfoldable pub min_op_loop : ℕ → (ℕ → Bool) → ℕ → ℕ
min_op_loop zero reads read_sz = 0
min_op_loop (suc fuel) reads read_sz =
    let larger = min_op_loop fuel reads (read_sz * 2) in
    if leb read_sz hi_io_min_size then (if reads read_sz then read_sz else larger) else 0

-- `allocated` says whether `act_valloc` returns a buffer.
unfoldable pub discover_min_op_bytes : Bool → (ℕ → Bool) → ℕ
discover_min_op_bytes allocated reads = if allocated then min_op_loop 5 reads lo_io_min_size else 0

pub random_read_offset : Device → Seeds → ℕ × Seeds
random_read_offset dev s =
    let (n, s') = rand_64 s in (u64 (n % dev.n_read_offsets * dev.min_op_bytes), s')

pub random_read_size : Device → Seeds → ℕ × Seeds
random_read_size dev s =
    if dev.n_read_sizes == 1
    then (dev.read_bytes, s)
    else (let (n, s') = rand_32 s in
        (u32 (dev.read_bytes + u32 (dev.min_op_bytes * (n % dev.n_read_sizes))), s'))

pub random_write_offset : Device → Seeds → ℕ × Seeds
random_write_offset dev s =
    let (n, s') = rand_64 s in (u64 (n % dev.n_write_offsets * dev.min_commit_bytes), s')

pub random_write_size : Device → Seeds → ℕ × Seeds
random_write_size dev s =
    if dev.n_write_sizes == 1
    then (dev.write_bytes, s)
    else (let (n, s') = rand_32 s in
        (u32 (dev.write_bytes + u32 (dev.min_commit_bytes * (n % dev.n_write_sizes))), s'))
