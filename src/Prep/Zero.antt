-- ===== src/Prep/Zero.antt =====
-- `run_zero` of act_prep.c: the bytes of the device that each thread zeroes.
use native.Mathlib.Nat.{mul-le-mul_right, add-mul, one-mul}
use act.Common.{
  ℕ, zero, suc, ◌+◌, ◌*◌, ◌/◌, ◌%◌, ◌^◌, ◌≤◌, ◌<◌, ◌≡◌, refl, ap, ◌∙◌, subst, true, false, arith,
  ◌==◌, if◌then◌else◌, dec_lt, ltb, leb, ◌&&◌, Option, some,
}
use act.Common.Memory.{Bytes}
use act.Common.Word.{u32, u64}
use act.Io.{Syscall, write_all}
use act.Io.Transfer.{Works, Works-Bounded, moves_all, write_all-Moved}
use act.Prep.{Plan, Calls, num_zero_threads, large_block_bytes, zero_buffer, zero_loop, run_zero}

-- The bytes from `first` up to `last` are zero and the others as in `dev`.
abbrev pub zeroed : Bytes → ℕ → ℕ → Bytes
zeroed dev first last x = if leb first x && ltb x last then 0 else dev x

-- One write of zeros that works.
write_zeros :
    (sys : Syscall) (dev : Bytes) (position size : ℕ)
    → Works sys
    → size ≤ large_block_bytes
    → (dev' : Bytes) × (write_all (large_block_bytes + 1) sys dev position zero_buffer size
        ≡ some (true, dev', position + size))
      × ((x : ℕ) → dev' x ≡ zeroed dev position (position + size) x)
unfolding zero_buffer
write_zeros sys dev position size w h =
    let (dev', e, bytes) = moves_all w dev position zero_buffer 0 size _ (
      write_all-Moved (large_block_bytes + 1) sys dev zero_buffer size position
        (Works-Bounded sys w) (omega arith) (omega arith)) in
    (dev', e, λ x. bytes x)

zero_loop_lem :
    (writes : ℕ → Syscall) (left b : ℕ) (dev : Bytes) (position : ℕ)
    → ((k : ℕ) → Works (writes k))
    → (dev' : Bytes) × (zero_loop writes left b dev position
        ≡ some (dev', position + left * large_block_bytes))
      × ((x : ℕ) → dev' x ≡ zeroed dev position (position + left * large_block_bytes) x)
unfolding zero_loop
zero_loop_lem writes zero b dev position w =
    (dev, ap (λ p. some (dev, p)) (omega arith), λ x. ground arith)
zero_loop_lem writes (suc left) b dev position w =
    let (dev1, e, bytes) =
      write_zeros (writes b) dev position large_block_bytes (w b) (omega arith) in
    let (dev2, e2, bytes2) =
      zero_loop_lem writes left (b + 1) dev1 (position + large_block_bytes) w in
    (
      dev2,
      rw (e) (e2 ∙ ap (λ p. some (dev2, p)) (omega arith)),
      λ x. ground (arith, bytes x, bytes2 x),
    )

-- Where the part of thread `n` begins, and where it ends: the last thread goes up to the end.
abbrev pub part_start : ℕ → ℕ → ℕ
part_start device_bytes n =
    n * (device_bytes / large_block_bytes / num_zero_threads) * large_block_bytes

abbrev pub part_end : ℕ → ℕ → ℕ
part_end device_bytes n =
    if n + 1 == num_zero_threads then device_bytes else part_start device_bytes (n + 1)

abbrev pub plan_of : ℕ → Plan
plan_of device_bytes =
    let blocks = device_bytes / large_block_bytes in
    record {
      num_large_blocks = blocks;
      extra_bytes_to_zero = device_bytes % large_block_bytes;
      blocks_per_zero_thread = blocks / num_zero_threads;
      blocks_per_salt_thread = blocks / num_zero_threads;
      extra_blocks_to_zero = blocks % num_zero_threads;
      extra_blocks_to_salt = blocks % num_zero_threads;
    }

-- What a thread other than the last computes.
pub zero_range :
    (device_bytes n : ℕ)
    → device_bytes < 2 ^ 64
    → n < 7
    → let per = device_bytes / large_block_bytes / num_zero_threads in
      ((u32 (n + 1) == num_zero_threads) ≡ false)
      × (u64 (u64 (n * per) * large_block_bytes) ≡ part_start device_bytes n)
      × (part_end device_bytes n ≡ part_start device_bytes n + per * large_block_bytes)
zero_range device_bytes n wide h = (
  ground arith,
  omega (arith, mul-le-mul_right {m = n} {n = 7} per (omega arith)),
  ground (arith, add-mul n 1 per, one-mul per),
)
  where
    per : ℕ
    per = device_bytes / large_block_bytes / 8

-- The calls of a thread that meets no error.
pub record AllWork (calls : Calls) : Type 0 where
  pub opened : calls.opened ≡ true
  pub sought : calls.sought ≡ true
  pub writes : (b : ℕ) → Works (calls.writes b)

module _ (device_bytes : ℕ) (calls : Calls) (dev : Bytes) (a : AllWork calls)
    (wide : device_bytes < 2 ^ 64) where
  abbrev pub Zeroes : ℕ → Option Bytes → Type 0
  Zeroes n r =
      (dev' : Bytes) × (r ≡ some dev')
      × ((x : ℕ) → dev' x ≡ zeroed dev (part_start device_bytes n) (part_end device_bytes n) x)

  last_thread-Zeroes : Zeroes 7 (run_zero (plan_of device_bytes) calls 7 dev)
  unfolding run_zero
  last_thread-Zeroes =
      let (dev1, e1, bytes1) = zero_loop_lem calls.writes blocks 0 dev start a.writes in
      let (dev2, e2, bytes2) =
        write_zeros (calls.writes blocks) dev1 (start + blocks * large_block_bytes)
          (device_bytes % large_block_bytes) (a.writes blocks) (omega arith) in
      (dev2, rw (a.opened, a.sought, e1, e2) refl, λ x. ground (arith, bytes1 x, bytes2 x))
    where
      start : ℕ
      start = u64 (u64 (7 * (device_bytes / large_block_bytes / 8)) * large_block_bytes)

      blocks : ℕ
      blocks = u64 (device_bytes / large_block_bytes / 8 + device_bytes / large_block_bytes % 8)

  other_thread-Zeroes : (n : ℕ) → n < 7 → Zeroes n (run_zero (plan_of device_bytes) calls n dev)
  unfolding run_zero
  other_thread-Zeroes n h =
      let per : ℕ = device_bytes / large_block_bytes / 8 in
      let (other, start, ends) = zero_range device_bytes n wide h in
      let (dev1, e1, bytes1) =
        zero_loop_lem calls.writes per 0 dev (u64 (u64 (n * per) * large_block_bytes)) a.writes in
      (dev1, rw (a.opened, a.sought, other, e1) refl, λ x. ground (arith, bytes1 x, start, ends))

  pub run_zero-Zeroes :
      (n : ℕ) → n < num_zero_threads → Zeroes n (run_zero (plan_of device_bytes) calls n dev)
  run_zero-Zeroes n h = elim (dec_lt n 7) [
    | yes p ↦ other_thread-Zeroes n p
    | no np ↦
        subst (λ k. Zeroes k (run_zero (plan_of device_bytes) calls k dev))
          (let e : 7 ≡ n = omega arith in e) last_thread-Zeroes
  ]
