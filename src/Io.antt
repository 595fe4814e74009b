-- ===== src/Io.antt =====
-- src/common/io.h: loops that repeat a system call until all bytes are transferred.
pub mod Transfer
use act.Common.{
  ℕ, zero, suc, ◌+◌, ◌%◌, ◌^◌, Bool, true, false, Option, none, some, ◌==◌, if◌then◌else◌,
}
use act.Common.Int.{ℤ, pos, negsuc}
use act.Common.Memory.{Bytes, memcpy}
use act.Common.Word.{sub64}

-- What `pread`, `pwrite` or `write` returns at its i-th call, for the size that is asked for.
abbrev pub Syscall : Type 0
Syscall = ℕ → ℕ → ℤ

-- The loop that the three functions share, on fuel: bytes go from `src` at `s` to `dst` at `d`. The
-- result is that of the function, the contents of `dst`, and where the transfer stopped in it. The test is
-- for `(ssize_t)size`, which is negative from 2 ^ 63 on, so that a negative result may pass it.
pub transfer_all : ℕ → Syscall → ℕ → Bytes → ℕ → Bytes → ℕ → ℕ → Option (Bool × Bytes × ℕ)
transfer_all zero sys i dst d src s size = none
transfer_all (suc fuel) sys i dst d src s size = elim (sys i size) [
  | negsuc e ↦ some (size + suc (e % 2 ^ 63) == 2 ^ 64, dst, d)
  | pos n ↦
      let dst' = memcpy dst d src s n in
      let more = transfer_all fuel sys (i + 1) dst' (d + n) src (s + n) (sub64 size n) in
      if n == size then some (true, dst', d + n) else if n == 0 then some (false, dst, d) else more
]

-- Reads from `file` at `offset` into `buf`.
pub pread_all : ℕ → Syscall → Bytes → Bytes → ℕ → ℕ → Option (Bool × Bytes × ℕ)
pread_all fuel sys file buf size offset = transfer_all fuel sys 0 buf 0 file offset size

-- Writes `buf` to `file` at `offset`.
pub pwrite_all : ℕ → Syscall → Bytes → Bytes → ℕ → ℕ → Option (Bool × Bytes × ℕ)
pwrite_all fuel sys file buf size offset = transfer_all fuel sys 0 file offset buf 0 size

-- Writes `buf` to `file` at the descriptor's position, which moves on.
pub write_all : ℕ → Syscall → Bytes → ℕ → Bytes → ℕ → Option (Bool × Bytes × ℕ)
write_all fuel sys file position buf size = transfer_all fuel sys 0 file position buf 0 size
