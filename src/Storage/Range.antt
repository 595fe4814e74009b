-- ===== src/Storage/Range.antt =====
-- The requests of act_storage.c: where the random offsets and sizes lie on the device that
-- `discover_read_pattern` and `discover_write_pattern` describe.
use native.Mathlib.Nat.{mul-le-mul_right, mul-mod_left, mod-lt, add-mul, one-mul}
use act.Common.{
  ℕ, suc, ◌+◌, ◌*◌, ◌%◌, ◌^◌, ◌≤◌, ◌<◌, ◌≡◌, inl, inr, ap, ◌∙◌, arith, Bool-cases, ◌==◌,
}
use act.Common.Word.{u64}
use act.Random.{Seeds, rand_64, rand_32}
use act.StorageCfg.{StorageCfg}
use act.Storage.{
  Device, random_large_block_offset, discover_read_pattern, discover_write_pattern,
  random_read_offset, random_read_size,
}
use act.Storage.Sites.{Fits, Placed, sites, ceiling, offset_lem, size_lem, one_size_lem, placed_lem}

module _ {Double : Type 0} (cfg : StorageCfg Double) (dev : Device) (s1 s2 : Seeds) where
  abbrev pub device_bytes : ℕ
  device_bytes = dev.n_large_blocks * cfg.large_block_ops_bytes

  abbrev pub reading : Device
  reading = discover_read_pattern cfg dev

  abbrev pub writing : Device
  writing = discover_write_pattern cfg dev

  -- Where the large block is whole minimum operations and at most 2 ^ 30 bytes, the stored records fit it, and
  -- the device has a large block and fewer than 2 ^ 64 bytes, a record read lies within the large blocks of
  -- the device, starts and ends at a unit of the minimum operation, and covers the smallest stored record.
  pub read_request-Placed :
      Fits cfg.large_block_ops_bytes cfg.record_stored_bytes cfg.record_stored_bytes_rmx
        dev.min_op_bytes dev.n_large_blocks
      → Placed device_bytes dev.min_op_bytes cfg.record_stored_bytes
          (random_read_offset reading s1).0
          (random_read_size reading s2).0
  unfolding discover_read_pattern random_read_offset random_read_size
  read_request-Placed f =
      let v = sites f in
      let (j, e, room) = offset_lem v (rand_64 s1).0 in
      elim (Bool-cases (reading.n_read_sizes == 1)) [
        | inl one ↦ rw (one) (
            placed_lem v j (ceiling cfg.record_stored_bytes dev.min_op_bytes) _ _ e (one_size_lem v)
              room (omega arith) v.ordered)
        | inr many ↦
            let (k, es, low, high) = size_lem v (rand_32 s2).0 in
            rw (many) (placed_lem v j k _ _ e es room low high)
      ]

  -- A large-block operation is one of the large blocks of the device.
  pub large_block-inside :
      0 < dev.n_large_blocks
      → device_bytes < 2 ^ 64
      → ((random_large_block_offset cfg dev s1).0 + cfg.large_block_ops_bytes ≤ device_bytes)
        × ((random_large_block_offset cfg dev s1).0 % cfg.large_block_ops_bytes ≡ 0)
  unfolding random_large_block_offset
  large_block-inside p w = (
    omega (arith, e, room),
    ap (λ m. m % cfg.large_block_ops_bytes) e ∙ mul-mod_left k cfg.large_block_ops_bytes,
  )
    where
      k : ℕ
      k = (rand_64 s1).0 % dev.n_large_blocks

      room : k * cfg.large_block_ops_bytes + cfg.large_block_ops_bytes ≤ device_bytes
      room = omega (
        arith,
        mul-le-mul_right {m = suc k} {n = dev.n_large_blocks} cfg.large_block_ops_bytes
            (mod-lt (rand_64 s1).0 p),
        add-mul k 1 cfg.large_block_ops_bytes,
        one-mul cfg.large_block_ops_bytes,
      )

      e : u64 (k * cfg.large_block_ops_bytes) ≡ k * cfg.large_block_ops_bytes
      e = omega (arith, room, w)
