-- ===== src/Prep.antt =====
-- src/prep/act_prep.c: how the device is divided among the threads, and what each of them writes.
-- The printing of progress is left out.
pub mod Zero
pub mod Cover
pub mod Salt
pub mod Filled
pub mod Stopped
pub mod Main
use act.Common.{
  ℕ, zero, suc, ◌+◌, ◌-◌, ◌*◌, ◌/◌, ◌%◌, ◌^◌, Bool, true, false, Option, none, some, ◌==◌,
  if◌then◌else◌, List, [], ◌∷◌,
}
use act.Common.Partial.{◌>>=◌}
use act.Common.Memory.{Bytes}
use act.Common.Word.{u32, u64}
use act.Io.{Syscall, write_all}
use act.Random.{Seeds, rand_fill}

abbrev pub num_salt_threads : ℕ
num_salt_threads = 8

abbrev pub num_zero_threads : ℕ
num_zero_threads = 8

abbrev pub large_block_bytes : ℕ
large_block_bytes = 1024 * 128

-- The globals that `discover_num_blocks` sets.
pub record Plan : Type 0 where
  pub num_large_blocks : ℕ
  pub extra_bytes_to_zero : ℕ
  pub blocks_per_zero_thread : ℕ
  pub blocks_per_salt_thread : ℕ
  pub extra_blocks_to_zero : ℕ
  pub extra_blocks_to_salt : ℕ

-- `opened` says whether the device could be opened, `device_bytes` is what `ioctl` stores.
unfoldable pub discover_num_blocks : Bool → ℕ → Option Plan
discover_num_blocks false device_bytes = none
discover_num_blocks true device_bytes =
    let blocks = device_bytes / large_block_bytes in
    some (record {
      num_large_blocks = blocks;
      extra_bytes_to_zero = device_bytes % large_block_bytes;
      blocks_per_zero_thread = blocks / num_zero_threads;
      blocks_per_salt_thread = blocks / num_salt_threads;
      extra_blocks_to_zero = blocks % num_zero_threads;
      extra_blocks_to_salt = blocks % num_salt_threads;
    })

-- What `create_zero_buffer` sets up, where the allocation succeeds.
pub zero_buffer : Bytes
zero_buffer i = 0

-- What the system calls of a thread come to: whether the buffer was allocated, the device opened
-- and the position reached, and what each `write` of the b-th block returns.
pub record Calls : Type 0 where
  pub allocated : Bool
  pub opened : Bool
  pub sought : Bool
  pub writes : ℕ → Syscall

-- The loop of `run_zero` with `left` blocks to go, from block `b` on: the device, and the position
-- of the descriptor. A failed write ends it.
pub zero_loop : (ℕ → Syscall) → ℕ → ℕ → Bytes → ℕ → Option (Bytes × ℕ)
zero_loop writes zero b dev position = some (dev, position)
zero_loop writes (suc left) b dev position = do
  (done, dev', position') ←
      write_all (large_block_bytes + 1) (writes b) dev position zero_buffer large_block_bytes
  if done then zero_loop writes left (b + 1) dev' position' else some (dev', position')

-- The contents of the device after `run_zero`.
pub run_zero : Plan → Calls → ℕ → Bytes → Option Bytes
run_zero plan calls n dev =
    let offset = u64 (u64 (n * plan.blocks_per_zero_thread) * large_block_bytes) in
    let last_thread = u32 (n + 1) == num_zero_threads in
    let blocks_to_zero =
      if last_thread
      then u64 (plan.blocks_per_zero_thread + plan.extra_blocks_to_zero)
      else plan.blocks_per_zero_thread in
    if calls.opened
    then (if calls.sought
        then (do
          (dev', position) ← zero_loop calls.writes blocks_to_zero 0 dev offset
          if last_thread
              then (do
                (done, dev'', _) ←
                    write_all (large_block_bytes + 1) (calls.writes blocks_to_zero) dev' position
                      zero_buffer plan.extra_bytes_to_zero
                some dev'')
              else some dev')
        else some dev)
    else some dev

-- The zero threads of `main`, one after another in the order given. They run at the same time, each
-- on its own part of the device.
pub zero_threads : Plan → (ℕ → Calls) → List ℕ → Bytes → Option Bytes
zero_threads plan calls [] dev = some dev
zero_threads plan calls (n ∷ order) dev = do
  dev' ← run_zero plan (calls n) n dev
  zero_threads plan calls order dev'

-- The loop of `run_salt`: each block is filled anew.
pub salt_loop : (ℕ → Syscall) → Seeds → Bytes → ℕ → ℕ → Bytes → ℕ → Option (Bytes × ℕ)
salt_loop writes s buf zero b dev position = some (dev, position)
salt_loop writes s buf (suc left) b dev position = do
  (buf', s') ← rand_fill s buf large_block_bytes
  (done, dev', position') ←
      write_all (large_block_bytes + 1) (writes b) dev position buf' large_block_bytes
  if done then salt_loop writes s' buf' left (b + 1) dev' position' else some (dev', position')

-- The contents of the device after `run_salt`; `buf` is what the allocated buffer holds.
pub run_salt : Plan → Calls → Seeds → Bytes → ℕ → Bytes → Option Bytes
run_salt plan calls s buf n dev =
    let offset = u64 (u64 (n * plan.blocks_per_salt_thread) * large_block_bytes) in
    let last_thread = u32 (n + 1) == num_salt_threads in
    let blocks_to_salt =
      if last_thread
      then u64 (plan.blocks_per_salt_thread + plan.extra_blocks_to_salt)
      else plan.blocks_per_salt_thread in
    if calls.allocated
    then (if calls.opened
        then (if calls.sought
            then (do
              (dev', _) ← salt_loop calls.writes s buf blocks_to_salt 0 dev offset
              some dev')
            else some dev)
        else some dev)
    else some dev
