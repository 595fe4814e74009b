-- ===== src/Storage/Discover.antt =====
-- src/storage/act_storage.c: `discover_device`, and the smallest size that can be read.
use act.Common.{
  ℕ, zero, suc, ◌*◌, ◌/◌, ◌^◌, ◌<◌, ◌≡◌, ◌⊎◌, inl, inr, refl, Bool, true, false, Option, some,
  arith, Bool-cases, ◌==◌, if◌then◌else◌,
}
use act.Common.Memory.{Heap}
use act.Common.Partial.{◌>>=◌}
use act.Queue.{Queue}
use act.StorageCfg.{StorageCfg}
use act.Storage.{
  Device, min_op_loop, discover_min_op_bytes, discover_read_pattern, discover_write_pattern,
}
use act.Storage.Descriptors.{no_fd, fd_get, fd_put}

-- What the system answers: the result of `open`, the size that `ioctl` stores, whether `ftruncate`
-- succeeds, and the two arguments of `discover_min_op_bytes`.
pub record Probe : Type 0 where
  pub opened : ℕ
  pub ioctl_bytes : ℕ
  pub truncated : Bool
  pub allocated : Bool
  pub reads : ℕ → Bool

module _ {Double : Type 0} (heap : Heap) (cfg : StorageCfg Double) where
  -- What follows the opening and the size in `discover_device`.
  unfoldable pub discover_sized : Probe → ℕ → Device → Bool × Device
  discover_sized probe device_bytes dev =
      let min_op = discover_min_op_bytes probe.allocated probe.reads in
      let sized = record dev {
        n_large_blocks = device_bytes / cfg.large_block_ops_bytes;
        min_op_bytes = min_op;
      } in
      let read = discover_read_pattern cfg sized in
      if device_bytes / cfg.large_block_ops_bytes == 0
      then (false, sized)
      else (if min_op == 0
          then (false, sized)
          else (if cfg.commit_to_device
              then (true, discover_write_pattern cfg read)
              else (true, read)))

  -- The result, the device, and the kept descriptors.
  pub discover_device : Probe → Device → Queue → Option (Bool × Device × Queue)
  discover_device probe dev fd_q = do
    (fd, q) ← fd_get fd_q probe.opened
    if fd == no_fd then some (false, dev, q) else (do
      q' ← fd_put heap q fd
      if cfg.file_size == 0
          then (let (done, dev') = discover_sized probe probe.ioctl_bytes dev in
              some (done, dev', q'))
          else (if probe.truncated
              then (let (done, dev') = discover_sized probe cfg.file_size dev in
                  some (done, dev', q'))
              else some (false, dev, q')))

-- `m` is the smallest of 512, 1024, 2048 and 4096 that can be read, or 0 where none of them can.
abbrev pub Smallest : (ℕ → Bool) → ℕ → Type 0
Smallest reads m =
    ((m ≡ 0) × ((k : ℕ) → k < 4 → reads (512 * 2 ^ k) ≡ false))
    ⊎ ((k : ℕ) × (k < 4)
        × (m ≡ 512 * 2 ^ k)
        × (reads m ≡ true)
        × ((j : ℕ) → j < k → reads (512 * 2 ^ j) ≡ false))

module _ (reads : ℕ → Bool) (a : reads 512 ≡ false) where
  first : (j : ℕ) → j < 1 → reads (512 * 2 ^ j) ≡ false
  first zero l = a
  first (suc j) l = absurd (omega arith)

  module _ (b : reads 1024 ≡ false) where
    first_two : (j : ℕ) → j < 2 → reads (512 * 2 ^ j) ≡ false
    first_two zero l = a
    first_two (suc zero) l = b
    first_two (suc (suc j)) l = absurd (omega arith)

    module _ (c : reads 2048 ≡ false) where
      first_three : (j : ℕ) → j < 3 → reads (512 * 2 ^ j) ≡ false
      first_three zero l = a
      first_three (suc zero) l = b
      first_three (suc (suc zero)) l = c
      first_three (suc (suc (suc j))) l = absurd (omega arith)

      all_four : reads 4096 ≡ false → (j : ℕ) → j < 4 → reads (512 * 2 ^ j) ≡ false
      all_four d zero l = a
      all_four d (suc zero) l = b
      all_four d (suc (suc zero)) l = c
      all_four d (suc (suc (suc zero))) l = d
      all_four d (suc (suc (suc (suc j)))) l = absurd (omega arith)

-- The smallest size is found; without a buffer the result is 0.
pub discover_min_op_bytes-Smallest :
    (reads : ℕ → Bool)
    → Smallest reads (discover_min_op_bytes true reads) × (discover_min_op_bytes false reads ≡ 0)
unfolding discover_min_op_bytes min_op_loop
discover_min_op_bytes-Smallest reads = elim (Bool-cases (reads 512)) [
  | inl a ↦ rw a (inr (0, omega arith, refl, a, λ j l. absurd (omega arith)), refl)
  | inr a ↦ elim (Bool-cases (reads 1024)) [
    | inl b ↦ rw (a, b) (inr (1, omega arith, refl, b, first reads a), refl)
    | inr b ↦ elim (Bool-cases (reads 2048)) [
      | inl c ↦ rw (a, b, c) (inr (2, omega arith, refl, c, first_two reads a b), refl)
      | inr c ↦ elim (Bool-cases (reads 4096)) [
        | inl d ↦ rw (a, b, c, d) (inr (3, omega arith, refl, d, first_three reads a b c), refl)
        | inr d ↦ rw (a, b, c, d) (inl (refl, all_four reads a b c d), refl)
      ]
    ]
  ]
]

-- A device whose size is known is accepted only with a large block and with a smallest size that can
-- be read, which is its minimum operation.
pub discover_sized-usable :
    {Double : Type 0} (heap : Heap) (cfg : StorageCfg Double) (probe : Probe) (device_bytes : ℕ)
    (dev dev' : Device)
    → discover_sized heap cfg probe device_bytes dev ≡ (true, dev')
    → (0 < dev'.n_large_blocks)
      × (0 < dev'.min_op_bytes)
      × (dev'.min_op_bytes ≡ discover_min_op_bytes true probe.reads)
unfolding discover_sized discover_min_op_bytes discover_read_pattern discover_write_pattern
discover_sized-usable heap cfg probe device_bytes dev dev' e = ground arith

-- A device that is accepted has a large block and a smallest size that can be read. Nothing is
-- accepted where the device cannot be opened or, as a file, set to its size.
pub discover_device-usable :
    {Double : Type 0} (heap : Heap) (cfg : StorageCfg Double) (probe : Probe) (dev dev' : Device)
    (fd_q fd_q' : Queue)
    → discover_device heap cfg probe dev fd_q ≡ some (true, dev', fd_q')
    → (0 < dev'.n_large_blocks)
      × (0 < dev'.min_op_bytes)
      × (dev'.min_op_bytes ≡ discover_min_op_bytes true probe.reads)
      × ((cfg.file_size ≡ 0) ⊎ (probe.truncated ≡ true))
unfolding discover_device
discover_device-usable heap cfg probe dev dev' fd_q fd_q' e =
    let by_ioctl = discover_sized-usable heap cfg probe probe.ioctl_bytes dev dev' in
    let by_file = discover_sized-usable heap cfg probe cfg.file_size dev dev' in
    ground (arith, e, by_ioctl, by_file)
