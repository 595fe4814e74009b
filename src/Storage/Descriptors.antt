-- ===== src/Storage/Descriptors.antt =====
-- src/storage/act_storage.c: the file descriptors of a device, which a queue keeps between uses, and
-- the two operations on the device that use them.
pub mod Pool
pub mod Use
use act.Common.{
  ℕ, zero, suc, ◌+◌, ◌-◌, ◌*◌, ◌/◌, ◌%◌, ◌^◌, Bool, true, false, Option, none, some, List, [], ◌∷◌,
  ◌==◌, if◌then◌else◌,
}
use act.Common.Int.{pos}
use act.Common.Memory.{Bytes, Heap}
use act.Common.Partial.{◌>>=◌}
use act.Queue.{
  Queue, Status, ok, empty, err, queue_pop, queue_push, PopResult, returns, faults, waits,
}
use act.Io.{Syscall, pread_all, pwrite_all}

-- An `int` is its 32-bit pattern, low byte first in memory.
abbrev pub int_bytes : ℕ → Bytes
int_bytes n i = n / 256 ^ i % 256

abbrev pub int_of : List ℕ → ℕ
int_of [] = 0
int_of (b ∷ bs) = b + 256 * int_of bs

-- -1 as an int and as a uint64_t.
abbrev pub no_fd : ℕ
no_fd = 2 ^ 32 - 1

abbrev pub no_time : ℕ
no_time = 2 ^ 64 - 1

-- What follows the pop in `fd_get`: a descriptor that was kept, or what `open` returns.
abbrev pub got : ℕ → PopResult → Option (ℕ × Queue)
got opened (returns ok ele q) = some (int_of ele, q)
got opened (returns err ele q) = some (opened, q)
got opened (returns empty ele q) = some (opened, q)
got opened faults = none
got opened waits = none

unfoldable pub fd_get : Queue → ℕ → Option (ℕ × Queue)
fd_get fd_q opened = got opened (queue_pop fd_q (pos 0) [])

-- The result of the push is not looked at.
unfoldable pub fd_put : Heap → Queue → ℕ → Option Queue
fd_put heap fd_q fd = do (_, fd_q') ← queue_push heap fd_q (int_bytes fd); some fd_q'

-- What follows a pop in `fd_close_all`: the descriptors that are closed, `more` after the first.
abbrev pub closing : (Queue → Option (List ℕ)) → PopResult → Option (List ℕ)
closing more (returns ok ele q) = do rest ← more q; some (int_of ele ∷ rest)
closing more (returns err ele q) = some []
closing more (returns empty ele q) = some []
closing more faults = none
closing more waits = none

-- The loop of `fd_close_all` on fuel: the descriptors that it closes, in order.
unfoldable pub fd_close_all : ℕ → Queue → Option (List ℕ)
fd_close_all zero fd_q = none
fd_close_all (suc fuel) fd_q = closing (λ q. fd_close_all fuel q) (queue_pop fd_q (pos 0) [])

-- What the system answers during one operation: the result of `open`, of each `pread` or `pwrite`,
-- and the time after it.
pub record Answers : Type 0 where
  pub opened : ℕ
  pub calls : Syscall
  pub stop_ns : ℕ

-- After an operation: its result, the bytes it was to transfer, the kept descriptors, and those that
-- were closed.
pub record Used : Type 0 where
  pub stop_time : ℕ
  pub bytes : Bytes
  pub fd_q : Queue
  pub closed : List ℕ

-- What follows the transfer: a failure closes the descriptor, which is not kept.
abbrev pub used : Heap → Queue → ℕ → ℕ → Bool × Bytes × ℕ → Option Used
used heap fd_q fd stop_ns (true, bytes, _) = do
  fd_q' ← fd_put heap fd_q fd
  some (record { stop_time = stop_ns; bytes = bytes; fd_q = fd_q'; closed = [] })
used heap fd_q fd stop_ns (false, bytes, _) =
    some (record { stop_time = no_time; bytes = bytes; fd_q = fd_q; closed = fd ∷ [] })

-- `bytes` are the contents of `buf`.
unfoldable pub read_from_device : Heap → Answers → Queue → Bytes → ℕ → ℕ → Bytes → Option Used
read_from_device heap a fd_q device offset size buf = do
  (fd, fd_q') ← fd_get fd_q a.opened
  if fd == no_fd
      then some (record { stop_time = no_time; bytes = buf; fd_q = fd_q'; closed = [] })
      else (do
        r ← pread_all (size + 1) a.calls device buf size offset
        used heap fd_q' fd a.stop_ns r)

-- `bytes` are the contents of the device.
unfoldable pub write_to_device : Heap → Answers → Queue → Bytes → ℕ → ℕ → Bytes → Option Used
write_to_device heap a fd_q device offset size buf = do
  (fd, fd_q') ← fd_get fd_q a.opened
  if fd == no_fd
      then some (record { stop_time = no_time; bytes = device; fd_q = fd_q'; closed = [] })
      else (do
        r ← pwrite_all (size + 1) a.calls device buf size offset
        used heap fd_q' fd a.stop_ns r)
