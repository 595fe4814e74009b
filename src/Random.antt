-- ===== src/Random.antt =====
-- src/common/random.c: the xorshift128+ generator of each thread, and random buffers.
pub mod Nonzero
pub mod Fill
use Prim.Native.Nat.{bit_or, bit_xor}
use act.Common.{
  ℕ, zero, suc, ◌+◌, ◌-◌, ◌*◌, ◌/◌, ◌%◌, ◌^◌, Bool, true, Option, none, some, ◌&&◌, ltb, leb,
  if◌then◌else◌,
}
use act.Common.Memory.{Bytes}
use act.Common.Word.{u32, u64}

-- `tl_seed0` and `tl_seed1`.
pub record Seeds : Type 0 where
  pub seed0 : ℕ
  pub seed1 : ℕ

-- The arguments are the results of the four calls of `rand`.
pub rand_seed_thread : ℕ → ℕ → ℕ → ℕ → Seeds
rand_seed_thread a b c d = record {
  seed0 = bit_or (u64 (a * 2 ^ 32)) b;
  seed1 = bit_or (u64 (c * 2 ^ 32)) d;
}

-- The value of `tl_seed1` after a step, from `s1 ^ (s1 << 23)` and `s0`.
abbrev pub mix : ℕ → ℕ → ℕ
mix s1 s0 = bit_xor (bit_xor (bit_xor s1 s0) (s1 / 2 ^ 17)) (s0 / 2 ^ 26)

unfoldable pub advance : Seeds → Seeds
advance s = record {
  seed0 = s.seed1;
  seed1 = mix (bit_xor s.seed0 (u64 (s.seed0 * 2 ^ 23))) s.seed1;
}

unfoldable pub xorshift128plus : Seeds → ℕ × Seeds
xorshift128plus s = let s' = advance s in (u64 (s'.seed1 + s.seed1), s')

unfoldable pub rand_32 : Seeds → ℕ × Seeds
rand_32 s = let (n, s') = xorshift128plus s in (u32 n, s')

unfoldable pub rand_64 : Seeds → ℕ × Seeds
rand_64 s = xorshift128plus s

-- `*p = word` at a byte offset, low byte first.
abbrev pub store_64 : Bytes → ℕ → ℕ → Bytes
store_64 m at word i = if leb at i && ltb i (at + 8) then word / 256 ^ (i - at) % 256 else m i

-- The loop of `rand_fill` on fuel, from the offset `at` on; `none` means that the fuel ran out.
pub fill_loop : ℕ → Seeds → Bytes → ℕ → ℕ → Option (Bytes × Seeds)
fill_loop zero s m at size = none
fill_loop (suc fuel) s m at size =
    let (n, s') = xorshift128plus s in
    let rest = fill_loop fuel s' (store_64 m at n) (at + 8) size in
    if ltb at size then rest else some (m, s)

pub rand_fill : Seeds → Bytes → ℕ → Option (Bytes × Seeds)
rand_fill s m size = fill_loop (size + 1) s m 0 size
