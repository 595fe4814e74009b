-- ===== src/Index/Places.antt =====
-- Where act_index.c reads and writes: the places of `random_io_offset` on the devices that
-- `discover_device` accepts.
use act.Common.{
  ℕ, ◌+◌, ◌*◌, ◌/◌, ◌%◌, ◌^◌, ◌≤◌, ◌<◌, ◌≡◌, ◌↔◌, ◌⊎◌, inl, inr, refl, ◌∙◌, Bool, true, false, some,
  [], ◌∷◌, ◌==◌, arith, eq→==, ne→==_false, Bool-cases, ==→eq, ==_false→ne,
}
use act.Common.Memory.{Heap, Allocates}
use act.Common.Word.{u64}
use act.Queue.{Queue}
use act.Random.{Seeds, rand_64}
use act.Storage.Descriptors
use act.Storage.Descriptors.{no_fd}
use act.Storage.Descriptors.Use.{IsReady, Taken-open, taken, grows}
use act.Storage.Descriptors.Pool.{pool, taken-HasRoom, fd_get-pool, fd_put-pool}
use act.Index.{Device, io_size, fd_get, fd_put, random_io_offset, discover_device}

-- A place of an operation: whole units of 4096 bytes from the start, within the first `n` of them.
abbrev pub IsPlace : ℕ → ℕ → Type 0
IsPlace n offset = (offset % io_size ≡ 0) × (offset + io_size ≤ n * io_size)

-- A device with a place, whose bytes have 64-bit addresses.
abbrev pub HasPlaces : Device → Type 0
HasPlaces dev = (0 < dev.n_io_offsets) × (dev.n_io_offsets * io_size < 2 ^ 64)

place_lem : (n k : ℕ) → 0 < n → n * io_size < 2 ^ 64 → IsPlace n (u64 (k % n * io_size))
place_lem n k p s = (omega (arith, narrow), omega (arith, narrow, below))
  where
    below : k % n < n
    below = omega arith

    narrow : u64 (k % n * io_size) ≡ k % n * io_size
    narrow = omega (arith, below)

-- A device with places gives one of them.
pub random_io_offset-IsPlace :
    (dev : Device) (s : Seeds)
    → HasPlaces dev
    → (offset : ℕ) × (s' : Seeds) × (random_io_offset dev s ≡ some (offset, s'))
      × IsPlace dev.n_io_offsets offset
unfolding random_io_offset
random_io_offset-IsPlace dev s (p, small) =
    rw (ne→==_false dev.n_io_offsets 0 (λ e. omega (arith, p, e)))
      (_, _, refl, place_lem dev.n_io_offsets (rand_64 s).0 p small)

-- What `discover_device` comes to: the device is refused, because it cannot be opened or has no size, or it
-- can be opened, has a size and is accepted, and then operations at its places stay within its size; there is a place only where the
-- size is 4096 bytes at least.
abbrev pub Discovered : ℕ → ℕ → Device → Bool → Device → Type 0
Discovered opened ioctl_bytes dev accepted dev' =
    ((accepted ≡ false) × ((ioctl_bytes ≡ 0) ⊎ ((pool dev.fd_q ≡ []) × (opened ≡ no_fd))))
    ⊎ ((accepted ≡ true)
        × ¬ ((pool dev.fd_q ≡ []) × (opened ≡ no_fd))
        × (0 < ioctl_bytes)
        × (HasPlaces dev' ↔ (io_size ≤ ioctl_bytes))
        × ((offset : ℕ) → IsPlace dev'.n_io_offsets offset → offset + io_size ≤ ioctl_bytes))

places_lem :
    (ioctl_bytes : ℕ) (dev : Device)
    → ioctl_bytes < 2 ^ 64
    → dev.n_io_offsets ≡ ioctl_bytes / io_size
    → (HasPlaces dev ↔ (io_size ≤ ioctl_bytes))
      × ((offset : ℕ) → IsPlace dev.n_io_offsets offset → offset + io_size ≤ ioctl_bytes)
places_lem ioctl_bytes dev small n = (
  (λ h. omega (arith, n, h.0), λ h. (omega (arith, n, h), omega (arith, n, small))),
  λ offset h. omega (arith, n, h.1),
)

was_opened :
    (opened fd : ℕ) (q q' : Queue)
    → fd < no_fd
    → ((pool q ≡ []) × (q' ≡ q) × (fd ≡ opened)) ⊎ (pool q ≡ fd ∷ pool q')
    → ¬ ((pool q ≡ []) × (opened ≡ no_fd))
was_opened opened fd q q' good (inl (_, _, e)) (_, closed) = omega (arith, e, closed, good)
was_opened opened fd q q' good (inr e) (none_kept, _) = cc

-- The discovery of a device ends. It refuses the device exactly where no descriptor is kept and it cannot be
-- opened, or it has no size, and accepts it otherwise. Every place of a device that is accepted lies within its size, and it has one exactly
-- where the size is 4096 bytes at least.
pub discover_device-Discovered :
    (heap : Heap) (opened ioctl_bytes : ℕ) (dev : Device)
    → Allocates heap
    → IsReady dev.fd_q
    → opened < 2 ^ 32
    → ioctl_bytes < 2 ^ 64
    → (accepted : Bool) × (dev' : Device) × (discover_device heap opened ioctl_bytes dev
        ≡ some (accepted, dev'))
      × Discovered opened ioctl_bytes dev accepted dev'
unfolding discover_device fd_get fd_put Descriptors.fd_get Descriptors.fd_put
discover_device-Discovered heap opened ioctl_bytes dev laws ready opens small =
    let (fd, q, e, v, shape, t) = fd_get-pool dev.fd_q opened ready.valid in
    elim (Taken-open opened fd (pool dev.fd_q) (pool q) ready.fds opens
      (taken opened fd dev.fd_q q t)) [
        | inr (none_such, no_pool, refused) ↦
            rw (e, eq→== fd no_fd none_such) (_, _, refl, inl (refl, inr (no_pool, refused)))
        | inl good ↦
            let (q', e', v', kept) =
              fd_put-pool heap q fd laws v (grows dev.fd_q q shape ready.grows)
                (shape.1 ∙ ready.four) (omega (arith, good))
                (taken-HasRoom opened fd dev.fd_q q ready.valid shape t) in
            elim (Bool-cases (ioctl_bytes == 0)) [
              | inl z ↦
                  rw (e, ne→==_false fd no_fd (λ p. omega (arith, p, good)), e', z)
                    (_, _, refl, inl (refl, inl (==→eq ioctl_bytes 0 z)))
              | inr nz ↦
                  let places =
                    places_lem ioctl_bytes
                      (record dev { fd_q = q'; n_io_offsets = ioctl_bytes / io_size }) small refl in
                  rw (e, ne→==_false fd no_fd (λ p. omega (arith, p, good)), e', nz)
                    (
                      _,
                      _,
                      refl,
                      inr (
                        refl,
                        was_opened opened fd dev.fd_q q good t,
                        ground (arith, ==_false→ne ioctl_bytes 0 nz),
                        places.0,
                        places.1,
                      ),
                    )
            ]
      ]
