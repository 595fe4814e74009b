-- ===== src/Prep/Filled.antt =====
-- `run_salt` of act_prep.c: the bytes that a thread leaves in its part of the device.
use act.Common.{
  ℕ, zero, suc, ◌+◌, ◌-◌, ◌*◌, ◌<◌, ◌≡◌, refl, sym, ap, ap₂, ◌∙◌, true, arith, ◌==◌, if◌then◌else◌,
  ltb, leb, ◌&&◌, Option, some,
}
use act.Common.Memory.{Bytes}
use act.Common.Word.{u32, u64}
use act.Io.{Syscall, write_all}
use act.Io.Transfer.{Works, Works-Bounded, moves_all, write_all-Moved}
use act.Random.{Seeds, advance, rand_fill}
use act.Random.Fill.{state_after, output_byte, output_byte-far, words, rand_fill_lem}
use act.Prep.{Plan, Calls, num_salt_threads, large_block_bytes, salt_loop, run_salt}
use act.Prep.Zero.{AllWork}
use act.Prep.Salt.{salt_start, salt_end, SaltPlan, salt_range}

-- The bytes from `first` up to `last` are those that the generator gives from `s` on, and the others
-- as in `dev`.
abbrev pub salted : Seeds → Bytes → ℕ → ℕ → Bytes
salted s dev first last x = if leb first x && ltb x last then output_byte s (x - first) else dev x

-- After `k` words the generator goes on with the bytes that follow theirs.
output_byte-state_after :
    (k : ℕ) (s : Seeds) (x : ℕ) → output_byte (state_after k s) x ≡ output_byte s (x + 8 * k)
output_byte-state_after zero s x = ap (output_byte s) (let e : x ≡ x + 8 * 0 = omega arith in e)
output_byte-state_after (suc k) s x =
    output_byte-state_after k (advance s) x
    ∙ sym (output_byte-far s (x + 8 * k))
    ∙ ap (output_byte s) (let e : x + 8 * k + 8 ≡ x + 8 * suc k = omega arith in e)

-- One block, filled and written by calls that work.
salt_block :
    (sys : Syscall) (s : Seeds) (buf dev : Bytes) (position : ℕ)
    → Works sys
    → (buf' : Bytes) × (dev' : Bytes) × (rand_fill s buf large_block_bytes
        ≡ some (buf', state_after (words large_block_bytes) s))
      × (write_all (large_block_bytes + 1) sys dev position buf' large_block_bytes
          ≡ some (true, dev', position + large_block_bytes))
      × ((x : ℕ) → dev' x ≡ salted s dev position (position + large_block_bytes) x)
salt_block sys s buf dev position w =
    let (buf', filled, bytes, size) = rand_fill_lem s buf large_block_bytes in
    let (dev', e, moved) = moves_all w dev position buf' 0 large_block_bytes _ (
      write_all-Moved (large_block_bytes + 1) sys dev buf' large_block_bytes position
        (Works-Bounded sys w) (omega arith) (omega arith)) in
    (buf', dev', filled, e, λ x. ground (arith, moved x, bytes (x - position), size))

salt_loop_lem :
    (writes : ℕ → Syscall) (s : Seeds) (buf : Bytes) (left b : ℕ) (dev : Bytes) (position : ℕ)
    → ((k : ℕ) → Works (writes k))
    → (dev' : Bytes) × (salt_loop writes s buf left b dev position
        ≡ some (dev', position + left * large_block_bytes))
      × ((x : ℕ) → dev' x ≡ salted s dev position (position + left * large_block_bytes) x)
unfolding salt_loop
salt_loop_lem writes s buf zero b dev position w =
    (dev, ap (λ p. some (dev, p)) (omega arith), λ x. ground arith)
salt_loop_lem writes s buf (suc left) b dev position w =
    let (buf', dev1, filled, written, bytes1) = salt_block (writes b) s buf dev position (w b) in
    let (dev2, e2, bytes2) =
      salt_loop_lem writes (state_after (words large_block_bytes) s) buf' left (b + 1) dev1
        (position + large_block_bytes) w in
    (
      dev2,
      rw (filled, written) (e2 ∙ ap (λ p. some (dev2, p)) (omega arith)),
      λ x. ground (
        arith,
        bytes1 x,
        bytes2 x,
        output_byte-state_after (words large_block_bytes) s (x - (position + large_block_bytes)),
      ),
    )

-- The calls of a salt thread that meets no error.
pub record SaltsWork (calls : Calls) : Type 0 where
  pub allocated : calls.allocated ≡ true
  pub others : AllWork calls

-- What thread `n` leaves of its part.
abbrev pub Salts : Seeds → Bytes → ℕ → ℕ → Option Bytes → Type 0
Salts s dev blocks n r =
    (dev' : Bytes) × (r ≡ some dev')
    × ((x : ℕ) → dev' x ≡ salted s dev (salt_start blocks n) (salt_end blocks n) x)

-- A salt thread whose calls work fills its part, and that only, with the bytes of its generator.
pub run_salt-Salts :
    (plan : Plan) (calls : Calls) (s : Seeds) (buf : Bytes) (n : ℕ) (dev : Bytes)
    → SaltPlan plan
    → n < num_salt_threads
    → SaltsWork calls
    → Salts s dev plan.num_large_blocks n (run_salt plan calls s buf n dev)
unfolding run_salt
run_salt-Salts plan calls s buf n dev p h a =
    let (first, last) = salt_range plan n h p in
    let (dev', ends, bytes) = salt_loop_lem calls.writes s buf blocks 0 dev start a.others.writes in
    (
      dev',
      rw (a.allocated, a.others.opened, a.others.sought, ends) refl,
      λ x. bytes x ∙ ap₂ (λ from to. salted s dev from to x) (sym first) last,
    )
  where
    start : ℕ
    start = u64 (u64 (n * plan.blocks_per_salt_thread) * large_block_bytes)

    blocks : ℕ
    blocks =
        if u32 (n + 1) == num_salt_threads
        then u64 (plan.blocks_per_salt_thread + plan.extra_blocks_to_salt)
        else plan.blocks_per_salt_thread
