-- ===== src/Prep/Salt.antt =====
-- `run_salt` of act_prep.c: the part of the device that a thread writes to.
use native.Mathlib.Nat.{mul-le-mul_right, add-mul, one-mul}
use act.Common.{
  ℕ, zero, suc, ◌+◌, ◌*◌, ◌/◌, ◌%◌, ◌^◌, ◌≤◌, ◌<◌, ◌≡◌, ◌⊎◌, inl, inr, refl, ap, ◌∙◌, true, arith,
  Bool-cases, ◌==◌, if◌then◌else◌, dec_lt, Option, some,
}
use act.Common.Memory.{Bytes}
use act.Common.Word.{u32, u64}
use act.Io.{Syscall}
use act.Io.Transfer.{Bounded, write_all-Moved}
use act.Random.{Seeds}
use act.Random.Fill.{state_after, words, rand_fill_lem}
use act.Prep.{
  Plan, Calls, num_salt_threads, large_block_bytes, discover_num_blocks, salt_loop, run_salt,
}

-- The device after a call, which differs from `dev` from `first` up to `last` only.
abbrev pub Within : Bytes → ℕ → ℕ → Bytes → Type 0
Within dev first last dev' = (x : ℕ) → (dev' x ≡ dev x) ⊎ ((first ≤ x) × (x < last))

abbrev LoopEnds : Bytes → ℕ → ℕ → Option (Bytes × ℕ) → Type 0
LoopEnds dev first last r =
    (dev' : Bytes) × (position : ℕ) × (r ≡ some (dev', position)) × Within dev first last dev'

salt_loop-Within :
    (writes : ℕ → Syscall) (s : Seeds) (buf : Bytes) (left b : ℕ) (dev : Bytes) (position : ℕ)
    → ((k : ℕ) → Bounded (writes k))
    → LoopEnds dev position
        (position + left * large_block_bytes)
        (salt_loop writes s buf left b dev position)
unfolding salt_loop
salt_loop-Within writes s buf zero b dev position w = (dev, position, refl, λ x. inl refl)
salt_loop-Within writes s buf (suc left) b dev position w =
    let (buf', filled, _, _) = rand_fill_lem s buf large_block_bytes in
    let m =
      write_all-Moved (large_block_bytes + 1) (writes b) dev buf' large_block_bytes position (w b)
        (omega arith) (omega arith) in
    elim (Bool-cases m.done) [
      | inl more ↦
          let (dev2, position2, ends, within) =
            salt_loop-Within writes (state_after (words large_block_bytes) s) buf' left (b + 1)
              m.result (position + m.moved) w in
          (
            dev2,
            position2,
            rw (filled, m.ends, more) ends,
            λ x. ground (arith, within x, m.bytes x, m.within),
          )
      | inr failed ↦ (
        m.result,
        position + m.moved,
        rw (filled, m.ends, failed) refl,
        λ x. ground (arith, m.bytes x, m.within),
      )
    ]

-- Where the part of thread `n` begins, and where it ends: the last thread takes the blocks left over.
abbrev pub salt_start : ℕ → ℕ → ℕ
salt_start blocks n = n * (blocks / num_salt_threads) * large_block_bytes

abbrev pub salt_end : ℕ → ℕ → ℕ
salt_end blocks n =
    if n + 1 == num_salt_threads then blocks * large_block_bytes else salt_start blocks (n + 1)

-- No part reaches beyond the whole blocks.
pub salt_end-le :
    (blocks n : ℕ) → n < num_salt_threads → salt_end blocks n ≤ blocks * large_block_bytes
salt_end-le blocks n h = ground (arith, mul-le-mul_right {m = n + 1} {n = 7} (blocks / 8))

-- What `discover_num_blocks` computes for the salt threads.
pub record SaltPlan (plan : Plan) : Type 0 where
  pub per : plan.blocks_per_salt_thread ≡ plan.num_large_blocks / num_salt_threads
  pub extra : plan.extra_blocks_to_salt ≡ plan.num_large_blocks % num_salt_threads
  pub wide : plan.num_large_blocks * large_block_bytes < 2 ^ 64

pub salt_plan :
    (device_bytes : ℕ) (plan : Plan)
    → discover_num_blocks true device_bytes ≡ some plan
    → device_bytes < 2 ^ 64
    → SaltPlan plan
unfolding discover_num_blocks
salt_plan device_bytes plan d wide = record {
  per = ground (arith, d);
  extra = ground (arith, d);
  wide = ground (arith, d);
}

pub salt_range :
    (plan : Plan) (n : ℕ)
    → n < num_salt_threads
    → SaltPlan plan
    → let start = u64 (u64 (n * plan.blocks_per_salt_thread) * large_block_bytes) in
      let blocks =
        if u32 (n + 1) == num_salt_threads
        then u64 (plan.blocks_per_salt_thread + plan.extra_blocks_to_salt)
        else plan.blocks_per_salt_thread in
      (salt_start plan.num_large_blocks n ≡ start)
      × (start + blocks * large_block_bytes ≡ salt_end plan.num_large_blocks n)
salt_range plan n h p = (
  same,
  elim (dec_lt n 7) [
    | yes q ↦ ground (arith, next, start, p.per, same)
    | no nq ↦ ground (arith, last, p.per, p.extra, p.wide, same)
  ],
)
  where
    each : ℕ
    each = plan.num_large_blocks / 8

    bound : n * each ≤ 7 * each
    bound = mul-le-mul_right {m = n} {n = 7} each (omega arith)

    next : (n + 1) * each ≡ n * each + each
    next = add-mul n 1 each ∙ ap (λ k. n * each + k) (one-mul each)

    start : n * plan.blocks_per_salt_thread ≡ n * each
    start = ap (λ k. n * k) p.per

    same :
        salt_start plan.num_large_blocks n
        ≡ u64 (u64 (n * plan.blocks_per_salt_thread) * large_block_bytes)
    same = omega (arith, start, bound, p.wide)

    last : 7 ≤ n → n * each ≡ 7 * each
    last q = ap (λ k. k * each) (let e : n ≡ 7 = omega arith in e)

-- A salt thread ends, whatever its calls return, and changes no byte outside its part.
pub run_salt-Within :
    (device_bytes : ℕ) (plan : Plan) (calls : Calls) (s : Seeds) (buf : Bytes) (n : ℕ) (dev : Bytes)
    → discover_num_blocks true device_bytes ≡ some plan
    → device_bytes < 2 ^ 64
    → n < num_salt_threads
    → ((b : ℕ) → Bounded (calls.writes b))
    → (dev' : Bytes) × (run_salt plan calls s buf n dev ≡ some dev')
      × Within dev (salt_start plan.num_large_blocks n) (salt_end plan.num_large_blocks n) dev'
unfolding discover_num_blocks run_salt
run_salt-Within device_bytes plan calls s buf n dev d wide h w = elim (Bool-cases calls.allocated) [
  | inl al ↦ elim (Bool-cases calls.opened) [
    | inl op ↦ elim (Bool-cases calls.sought) [
      | inl se ↦
          let (dev', position, ends, within) =
            salt_loop-Within calls.writes s buf blocks 0 dev start w in
          (dev', rw (al, op, se, ends) refl, λ x. ground (arith, within x, range))
      | inr se ↦ (dev, rw (al, op, se) refl, λ x. inl refl)
    ]
    | inr op ↦ (dev, rw (al, op) refl, λ x. inl refl)
  ]
  | inr al ↦ (dev, rw (al) refl, λ x. inl refl)
]
  where
    start : ℕ
    start = u64 (u64 (n * plan.blocks_per_salt_thread) * large_block_bytes)

    blocks : ℕ
    blocks =
        if u32 (n + 1) == num_salt_threads
        then u64 (plan.blocks_per_salt_thread + plan.extra_blocks_to_salt)
        else plan.blocks_per_salt_thread

    range :
        (salt_start plan.num_large_blocks n ≡ start)
        × (start + blocks * large_block_bytes ≡ salt_end plan.num_large_blocks n)
    range = salt_range plan n h (salt_plan device_bytes plan d wide)
