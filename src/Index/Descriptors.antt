-- ===== src/Index/Descriptors.antt =====
-- `read_from_device` and `write_to_device` of act_index.c, which are those of act_storage.c for the size
-- of every operation of act_index.
use act.Common.{
  ℕ, zero, suc, ◌+◌, ◌^◌, ◌<◌, ◌≡◌, refl, ap, ◌∙◌, Option, some, List, [], ◌∷◌, ◌==◌, if◌then◌else◌,
  arith,
}
use act.Common.Lists.{length}
use act.Common.Memory.{Bytes, Heap, Allocates}
use act.Common.Partial.{◌>>=◌}
use act.Queue.{Queue, queue_pop, PopResult, returns, faults, waits, ok, err, empty}
use act.Common.Int.{pos}
use act.Queue.Inv.{IsValid, contents}
use act.Io.{pread_all, pwrite_all}
use act.Io.Transfer.{Bounded}
use act.Storage.Descriptors
use act.Storage.Descriptors.{no_fd, no_time, Answers, Used, used, closing, int_of}
use act.Storage.Descriptors.Pool.{pool, fd_close_all-pool}
use act.Storage.Descriptors.Use
use act.Storage.Descriptors.Use.{IsReady, Operated}
use act.Index.{io_size, fd_get, fd_close_all}

-- The bytes of the result are those of `buf`.
pub read_from_device : Heap → Answers → Queue → Bytes → ℕ → Bytes → Option Used
read_from_device heap a fd_q device offset buf = do
  (fd, fd_q') ← fd_get fd_q a.opened
  if fd == no_fd
      then some (record { stop_time = no_time; bytes = buf; fd_q = fd_q'; closed = [] })
      else (do
        r ← pread_all (io_size + 1) a.calls device buf io_size offset
        used heap fd_q' fd a.stop_ns r)

-- The bytes of the result are those of the device.
pub write_to_device : Heap → Answers → Queue → Bytes → ℕ → Bytes → Option Used
write_to_device heap a fd_q device offset buf = do
  (fd, fd_q') ← fd_get fd_q a.opened
  if fd == no_fd
      then some (record { stop_time = no_time; bytes = device; fd_q = fd_q'; closed = [] })
      else (do
        r ← pwrite_all (io_size + 1) a.calls device buf io_size offset
        used heap fd_q' fd a.stop_ns r)

module _ (heap : Heap) (a : Answers) (q : Queue) (device : Bytes) (offset : ℕ) (buf : Bytes)
    (laws : Allocates heap) (ready : IsReady q) (opens : a.opened < 2 ^ 32)
    (bounded : Bounded a.calls) where
  -- A read of 4096 bytes ends, as a read of act_storage does.
  pub read_from_device-Operated :
      Operated a (pool q) buf 0 device offset io_size (read_from_device heap a q device offset buf)
  unfolding read_from_device Descriptors.read_from_device fd_get Descriptors.fd_get
  read_from_device-Operated =
      Use.read_from_device-Operated heap a q device offset io_size buf laws ready opens bounded
        (omega arith)

  pub write_to_device-Operated :
      Operated a (pool q) device offset buf 0 io_size (write_to_device heap a q device offset buf)
  unfolding write_to_device Descriptors.write_to_device fd_get Descriptors.fd_get
  write_to_device-Operated =
      Use.write_to_device-Operated heap a q device offset io_size buf laws ready opens bounded
        (omega arith)

closing-eq :
    (f g : Queue → Option (List ℕ)) (r : PopResult)
    → ((q : Queue) → f q ≡ g q)
    → closing f r ≡ closing g r
closing-eq f g (returns ok ele q) h = ap (λ o. o >>= (λ rest. some (int_of ele ∷ rest))) (h q)
closing-eq f g (returns err ele q) h = refl
closing-eq f g (returns empty ele q) h = refl
closing-eq f g faults h = refl
closing-eq f g waits h = refl

closes_same : (fuel : ℕ) (q : Queue) → fd_close_all fuel q ≡ Descriptors.fd_close_all fuel q
unfolding fd_close_all Descriptors.fd_close_all
closes_same zero q = refl
closes_same (suc fuel) q =
    closing-eq (λ q'. fd_close_all fuel q') (λ q'. Descriptors.fd_close_all fuel q')
      (queue_pop q (pos 0) []) (λ q'. closes_same fuel q')

-- Every descriptor that is kept is closed.
pub fd_close_all_lem :
    (q : Queue) → IsValid q → fd_close_all (length (contents q) + 1) q ≡ some (pool q)
fd_close_all_lem q v =
    closes_same (length (contents q) + 1) q
    ∙ fd_close_all-pool (length (contents q) + 1) q v (omega arith)
