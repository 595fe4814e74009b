-- ===== src/Random/Fill.antt =====
-- `rand_fill` of random.c: a buffer is filled with the outputs of the generator in order.
use act.Common.{
  ℕ, zero, suc, ◌+◌, ◌-◌, ◌*◌, ◌/◌, ◌%◌, ◌^◌, ◌≤◌, ◌<◌, ◌≡◌, refl, ap, ap₂, ◌∙◌, some, arith,
  dec_lt, ltb, lt→ltb, le→ltb_false, if◌then◌else◌,
}
use act.Common.Memory.{Bytes}
use act.Random.{Seeds, advance, xorshift128plus, store_64, fill_loop, rand_fill}

-- The state after `k` steps, and the output of the next one.
abbrev pub state_after : ℕ → Seeds → Seeds
state_after zero s = s
state_after (suc k) s = state_after k (advance s)

abbrev pub output : ℕ → Seeds → ℕ
output k s = (xorshift128plus (state_after k s)).0

-- Byte `x` of the outputs, written one after the other as 64-bit words.
abbrev pub output_byte : Seeds → ℕ → ℕ
output_byte s x = output (x / 8) s / 256 ^ (x % 8) % 256

output_byte-near : (s : Seeds) (x : ℕ) → x < 8 → output_byte s x ≡ output 0 s / 256 ^ x % 256
output_byte-near s x h = ap₂ (λ q r. output q s / 256 ^ r % 256) zeroth low
  where
    zeroth : x / 8 ≡ 0
    zeroth = omega arith

    low : x % 8 ≡ x
    low = omega arith

pub output_byte-far : (s : Seeds) (x : ℕ) → output_byte s (x + 8) ≡ output_byte (advance s) x
output_byte-far s x = ap₂ (λ q r. output q s / 256 ^ r % 256) next low
  where
    next : (x + 8) / 8 ≡ suc (x / 8)
    next = omega arith

    low : (x + 8) % 8 ≡ x % 8
    low = omega arith

-- The words that the loop writes when `left` bytes are to be filled.
abbrev pub words : ℕ → ℕ
words left = (left + 7) / 8

-- What a loop from `at` on leaves in the buffer.
abbrev Filled : Seeds → Bytes → ℕ → ℕ → Bytes → Type 0
Filled s m at n m' =
    (x : ℕ)
    → m' x ≡ (if ltb x at then m x else if ltb x (at + 8 * n) then output_byte s (x - at) else m x)

Filled-step :
    (s : Seeds) (m m' : Bytes) (at n : ℕ)
    → Filled (advance s) (store_64 m at (output 0 s)) (at + 8) n m'
    → Filled s m at (suc n) m'
Filled-step s m m' at n h x = elim (dec_lt x at) [
  | yes before ↦ ground (arith, h x)
  | no from ↦ elim (dec_lt x (at + 8)) [
    | yes near ↦ ground (arith, h x, output_byte-near s (x - at))
    | no far ↦
        ground (arith, h x, output_byte-far s (x - (at + 8)), ap (output_byte s) (shifted far))
  ]
]
  where
    shifted : ¬ (x < at + 8) → x - (at + 8) + 8 ≡ x - at
    shifted far = omega arith

advance_eq : (s : Seeds) → (xorshift128plus s).1 ≡ advance s
unfolding xorshift128plus
advance_eq s = refl

-- What a loop on `fuel` has done when it ends.
record Fills (s : Seeds) (m : Bytes) (at n fuel size : ℕ) : Type 0 where
  buffer : Bytes
  ends : fill_loop fuel s m at size ≡ some (buffer, state_after n s)
  filled : Filled s m at n buffer

fill_done :
    (fuel : ℕ) (s : Seeds) (m : Bytes) (at n size : ℕ)
    → size ≤ at
    → n ≡ 0
    → Fills s m at n (suc fuel) size
unfolding fill_loop
fill_done fuel s m at n size h e = record {
  buffer = m;
  ends = rw (le→ltb_false at size h, e);
  filled = λ x. ground arith;
}

fill_loop_lem :
    (fuel : ℕ) (s : Seeds) (m : Bytes) (at n size : ℕ)
    → size ≤ at + fuel
    → n ≡ words (size - at)
    → Fills s m at n (suc fuel) size
unfolding fill_loop
fill_loop_lem zero s m at n size h e = fill_done zero s m at n size (omega arith) (omega arith)
fill_loop_lem (suc fuel) s m at zero size h e =
    fill_done (suc fuel) s m at zero size (omega arith) refl
fill_loop_lem (suc fuel) s m at (suc n) size h e =
    let r =
      fill_loop_lem fuel (advance s) (store_64 m at (output 0 s)) (at + 8) n size (omega arith)
        (omega arith) in
    record {
      buffer = r.buffer;
      ends = rw (lt→ltb at size (omega arith)) (
          ap (λ t. fill_loop (suc fuel) t (store_64 m at (output 0 s)) (at + 8) size) (advance_eq s)
          ∙ r.ends);
      filled = Filled-step s m r.buffer at n r.filled;
    }

-- `rand_fill` ends, and leaves the first 8 * ((size + 7) / 8) bytes of the buffer as the outputs of
-- the generator in order, the others as they were, and the generator just after those outputs. That is
-- `size` bytes, rounded up to a multiple of 8.
pub rand_fill_lem :
    (s : Seeds) (m : Bytes) (size : ℕ)
    → (m' : Bytes) × (rand_fill s m size ≡ some (m', state_after (words size) s))
      × ((x : ℕ) → m' x ≡ (if ltb x (8 * words size) then output_byte s x else m x))
      × (8 * words size ≡ size + (8 - size % 8) % 8)
unfolding rand_fill
rand_fill_lem s m size =
    let r = fill_loop_lem size s m 0 (words size) size (omega arith) (omega arith) in
    (
      r.buffer,
      ap (λ f. fill_loop f s m 0 size) (omega_suc size) ∙ r.ends,
      λ x. r.filled x ∙ ground arith,
      omega arith,
    )
  where
    omega_suc : (n : ℕ) → n + 1 ≡ suc n
    omega_suc n = omega arith
