-- ===== src/Index.antt =====
-- src/index/act_index.c: the devices of act_index, the places its operations go to, and how a device is
-- opened.
pub mod Places
pub mod Descriptors
pub mod Transactions
pub mod Threads
pub mod Main
use act.Common.{
  ℕ, zero, suc, ◌+◌, ◌-◌, ◌*◌, ◌/◌, ◌%◌, ◌^◌, Bool, true, false, Option, none, some, List, [], ◌∷◌,
  ◌==◌, ltb, leb, if◌then◌else◌,
}
use act.Common.Int.{pos}
use act.Common.Memory.{Bytes, Heap}
use act.Common.Partial.{◌>>=◌}
use act.Common.Word.{u64}
use act.Histogram.{Histogram}
use act.Queue.{Queue, queue_pop, queue_push}
use act.Random.{Seeds, rand_64}
use act.Storage.Descriptors.{no_fd, got, closing, int_bytes}

-- `device`: `fd_q` are the descriptors that are kept, `contents` the bytes that the system stores for
-- it. The name and the tags for printing are left out.
pub record Device : Type 0 where
  pub contents : Bytes
  pub n_io_offsets : ℕ
  pub fd_q : Queue
  pub raw_read_hist : Histogram
  pub raw_write_hist : Histogram

-- `trans_req`, with the index of its device.
pub record TransReq : Type 0 where
  pub dev : ℕ
  pub offset : ℕ
  pub start_time : ℕ

abbrev pub io_size : ℕ
io_size = 4096

abbrev pub bundle_size : ℕ
bundle_size = 100

pub align_4096 : ℕ → ℕ
align_4096 stack_buffer = let n = u64 (stack_buffer + 4095) in n - n % 4096

pub safe_delta_ns : ℕ → ℕ → ℕ
safe_delta_ns start_ns stop_ns = if ltb stop_ns start_ns then 0 else stop_ns - start_ns

-- `none` is the division by zero of a device without places.
unfoldable pub random_io_offset : Device → Seeds → Option (ℕ × Seeds)
random_io_offset dev s =
    let (n, s') = rand_64 s in
    if dev.n_io_offsets == 0 then none else some (u64 (n % dev.n_io_offsets * io_size), s')

-- `opened` is what `open` returns.
pub fd_get : Queue → ℕ → Option (ℕ × Queue)
fd_get fd_q opened = got opened (queue_pop fd_q (pos 0) [])

-- The result of the push is not looked at.
pub fd_put : Heap → Queue → ℕ → Option Queue
fd_put heap fd_q fd = do (_, fd_q') ← queue_push heap fd_q (int_bytes fd); some fd_q'

-- The loop on fuel: the descriptors that it closes, in order.
pub fd_close_all : ℕ → Queue → Option (List ℕ)
fd_close_all zero fd_q = none
fd_close_all (suc fuel) fd_q = closing (λ q. fd_close_all fuel q) (queue_pop fd_q (pos 0) [])

-- `ioctl_bytes` is the size that `ioctl` stores, 0 where it fails.
unfoldable pub discover_device : Heap → ℕ → ℕ → Device → Option (Bool × Device)
discover_device heap opened ioctl_bytes dev = do
  (fd, q) ← fd_get dev.fd_q opened
  if fd == no_fd then some (false, record dev { fd_q = q }) else (do
    q' ← fd_put heap q fd
    if ioctl_bytes == 0
        then some (false, record dev { fd_q = q' })
        else some (true, record dev { fd_q = q'; n_io_offsets = ioctl_bytes / io_size }))
