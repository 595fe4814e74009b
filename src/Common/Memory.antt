-- ===== src/Common/Memory.antt =====
-- Storage that C code addresses by byte: heap blocks, buffers and device contents.
use Prim.Native.Nat.{ℕ, zero, suc, ◌+◌, ◌-◌, ◌≤◌, ◌<◌}
use mathlib.Core.Path.{◌≡◌, refl, ap₂}
use mathlib.Core.Bool.{◌&&◌}
use mathlib.Core.List.{List, [], ◌∷◌}
use mathlib.Core.Option.{Option, none, some}
use native.Mathlib.Omega.{arith}
use act.Common.Tests.{ltb, leb, if◌then◌else◌}

-- The byte at each offset.
abbrev pub Bytes : Type 0
Bytes = ℕ → ℕ

-- `memcpy(dst + d, src + s, n)`: the result is the new contents of `dst`.
abbrev pub memcpy : Bytes → ℕ → Bytes → ℕ → ℕ → Bytes
memcpy dst d src s n i = if leb d i && ltb i (d + n) then src (s + (i - d)) else dst i

-- The `n` bytes from offset `at` on.
abbrev pub slice : Bytes → ℕ → ℕ → List ℕ
slice m at zero = []
slice m at (suc n) = m at ∷ slice m (at + 1) n

-- Slices are equal where the bytes are.
pub slice-ext :
    (m m' : Bytes) (a b n : ℕ)
    → ((j : ℕ) → j < n → m (a + j) ≡ m' (b + j))
    → slice m a n ≡ slice m' b n
slice-ext m m' a b zero h = refl
slice-ext m m' a b (suc n) h =
    ap₂ ◌∷◌ (head (h 0 (omega arith)))
      (slice-ext m m' (a + 1) (b + 1) n λ j p. step j (h (suc j) (omega arith)))
  where
    head : m (a + 0) ≡ m' (b + 0) → m a ≡ m' b
    head e = ground arith

    step : (j : ℕ) → m (a + suc j) ≡ m' (b + suc j) → m (a + 1 + j) ≡ m' (b + 1 + j)
    step j e = ground arith

-- A block of the C heap: `size` bytes may be accessed.
pub record Block : Type 0 where
  pub size : ℕ
  pub bytes : Bytes

-- `memcpy` between a block and other memory. `none` is an access outside the block.
abbrev pub copy_in : Block → ℕ → Bytes → ℕ → Option Block
copy_in b at src n =
    if leb (at + n) b.size then some (record b { bytes = memcpy b.bytes at src 0 n }) else none

abbrev pub copy_out : Block → ℕ → ℕ → Option (List ℕ)
copy_out b at n = if leb (at + n) b.size then some (slice b.bytes at n) else none

abbrev pub copy_block : Block → ℕ → Block → ℕ → ℕ → Option Block
copy_block dst d src s n =
    if leb (d + n) dst.size && leb (s + n) src.size
    then some (record dst { bytes = memcpy dst.bytes d src.bytes s n })
    else none

pub copy_in_ok :
    (b : Block) (at : ℕ) (src : Bytes) (n : ℕ)
    → at + n ≤ b.size
    → copy_in b at src n ≡ some (record b { bytes = memcpy b.bytes at src 0 n })
copy_in_ok b at src n h = ground arith

pub copy_out_ok :
    (b : Block) (at n : ℕ) → at + n ≤ b.size → copy_out b at n ≡ some (slice b.bytes at n)
copy_out_ok b at n h = ground arith

pub copy_block_ok :
    (dst : Block) (d : ℕ) (src : Block) (s n : ℕ)
    → d + n ≤ dst.size
    → s + n ≤ src.size
    → copy_block dst d src s n ≡ some (record dst { bytes = memcpy dst.bytes d src.bytes s n })
copy_block_ok dst d src s n h k = ground arith

-- What an allocation answers: `none` is NULL. `realloc` of NULL is an allocation.
pub record Heap : Type 0 where
  pub malloc : ℕ → Option Block
  pub realloc : Option Block → ℕ → Option Block

-- The contract of `malloc` and `realloc`: the size that was asked for, and the old bytes kept.
pub record Allocates (h : Heap) : Type 0 where
  pub malloc_size : (n : ℕ) (b : Block) → h.malloc n ≡ some b → b.size ≡ n
  pub realloc_size : (o : Option Block) (n : ℕ) (b : Block) → h.realloc o n ≡ some b → b.size ≡ n
  pub realloc_keeps :
      (a : Block) (n : ℕ) (b : Block)
      → h.realloc (some a) n ≡ some b
      → (i : ℕ) → i < a.size
      → i < n
      → b.bytes i ≡ a.bytes i
