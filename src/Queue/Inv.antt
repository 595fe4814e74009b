-- ===== src/Queue/Inv.antt =====
-- The representation invariant of `struct queue_s`, and the elements that a valid queue holds.
use act.Common.{
  ℕ, zero, suc, ◌+◌, ◌-◌, ◌*◌, ◌%◌, ◌^◌, ◌≤◌, ◌<◌, ◌≡◌, refl, sym, ap, ap₂, ◌∙◌, ◌≢◌, Option, none,
  some, List, [], ◌∷◌, ◌++◌, arith, dec_lt,
}
use act.Common.Lists.{length}
use native.Mathlib.Nat.{mod-eq_of_lt, mod-lt, mod-add-mod, mod-eq-sub-mod, mul-le-mul_right}
use act.Common.Memory.{Bytes, Block, slice, slice-ext, memcpy}
use act.Common.Word.{u64}
use act.Queue.{Queue, q_ele_ptr}

-- `end_size` is 32 bits wide, so the bytes of the block are counted in 32 bits. `top` bounds the
-- write offset.
pub record InvBelow (top : ℕ) (q : Queue) (b : Block) : Type 0 where
  pub held : q.elements ≡ some b
  pub sized : b.size ≡ q.alloc_sz * q.ele_size
  pub bytes : q.alloc_sz * q.ele_size < 2 ^ 32
  pub some_slots : 0 < q.alloc_sz
  pub few_slots : q.alloc_sz ≤ 2 ^ 30
  pub ordered : q.read_offset ≤ q.write_offset
  pub fits : q.write_offset ≤ q.read_offset + q.alloc_sz
  pub low : q.write_offset < top

-- Between calls.
abbrev pub Inv : Queue → Block → Type 0
Inv = InvBelow (2 ^ 31)

abbrev pub IsValid : Queue → Type 0
IsValid q = (b : Block) × Inv q b

-- The slot of the element with offset `i`.
abbrev pub slot : ℕ → ℕ → ℕ → ℕ
slot alloc ele i = i % alloc * ele

-- The elements with offsets `i` to `i + n - 1`, oldest first.
abbrev pub window : Bytes → ℕ → ℕ → ℕ → ℕ → List (List ℕ)
window m alloc ele i zero = []
window m alloc ele i (suc n) = slice m (slot alloc ele i) ele ∷ window m alloc ele (i + 1) n

abbrev pub contents_of : Queue → Option Block → List (List ℕ)
contents_of q none = []
contents_of q (some b) =
    window b.bytes q.alloc_sz q.ele_size q.read_offset (q.write_offset - q.read_offset)

unfoldable pub contents : Queue → List (List ℕ)
contents q = contents_of q q.elements

pub contents_lem :
    (q : Queue) {b : Block}
    → q.elements ≡ some b
    → contents q
      ≡ window b.bytes q.alloc_sz q.ele_size q.read_offset (q.write_offset - q.read_offset)
unfolding contents
contents_lem q e = ap (contents_of q) e

pub window-ext :
    (m m' : Bytes) (a a' e i i' n : ℕ)
    → ((k : ℕ) → k < n → (j : ℕ) → j < e → m (slot a e (i + k) + j) ≡ m' (slot a' e (i' + k) + j))
    → window m a e i n ≡ window m' a' e i' n
window-ext m m' a a' e i i' zero h = refl
window-ext m m' a a' e i i' (suc n) h =
    ap₂ ◌∷◌
      (slice-ext m m' (slot a e i) (slot a' e i') e λ j p. ground (arith, h 0 (omega arith) j p))
      (window-ext m m' a a' e (i + 1) (i' + 1) n
        λ k l j p. ground (arith, h (suc k) (omega arith) j p))

pub window-snoc :
    (m : Bytes) (a e i n : ℕ)
    → window m a e i (suc n) ≡ window m a e i n ++ (slice m (slot a e (i + n)) e ∷ [])
window-snoc m a e i zero = ap (λ t. slice m (slot a e t) e ∷ []) (omega arith)
window-snoc m a e i (suc n) = ap (◌∷◌ (slice m (slot a e i) e)) (
    window-snoc m a e (i + 1) n
    ∙ ap (λ t. window m a e (i + 1) n ++ (slice m (slot a e t) e ∷ [])) (omega arith))

pub length-window : (m : Bytes) (a e i n : ℕ) → length (window m a e i n) ≡ n
length-window m a e i zero = refl
length-window m a e i (suc n) = ap suc (length-window m a e (i + 1) n)

-- Fewer than `a` steps round the buffer do not come back to the same slot.
pub mod-ne : (a r k n : ℕ) → k < n → n < a → (r + k) % a ≢ (r + n) % a
mod-ne a r k n h l e = absurd (elim (dec_lt (u + (n - k)) a) [
  | yes p ↦ omega (arith, on, mod-eq_of_lt p)
  | no p ↦ omega (
    arith,
    on,
    mod-lt (r + k) {m = a} (omega arith),
    mod-eq-sub-mod {n = u + (n - k)} {m = a} (omega arith),
    mod-eq_of_lt {n = u + (n - k) - a} {m = a}
        (omega (arith, mod-lt (r + k) {m = a} (omega arith))),
  )
])
  where
    u : ℕ
    u = (r + k) % a

    further : r + n ≡ r + k + (n - k)
    further = omega arith

    on : u ≡ (u + (n - k)) % a
    on = e ∙ ap (λ t. t % a) further ∙ sym (mod-add-mod (r + k) a (n - k))

-- Different slots do not overlap.
pub slots_apart : (e s t : ℕ) → s < t → s * e + e ≤ t * e
slots_apart e s t h = omega (arith, mul-le-mul_right {m = suc s} {n = t} e h)

-- A byte outside the slot that is written.
pub memcpy_other :
    (m src : Bytes) (a e r k n j : ℕ)
    → k < n
    → n < a
    → j < e
    → memcpy m (slot a e (r + n)) src 0 e (slot a e (r + k) + j) ≡ m (slot a e (r + k) + j)
memcpy_other m src a e r k n j h l p = elim (dec_lt ((r + k) % a) ((r + n) % a)) [
  | yes below ↦ ground (arith, slots_apart e ((r + k) % a) ((r + n) % a) below)
  | no other ↦ ground (arith, slots_apart e ((r + n) % a) ((r + k) % a), mod-ne a r k n h l)
]

memcpy_same : (m src : Bytes) (at e j : ℕ) → j < e → memcpy m at src 0 e (at + j) ≡ src (0 + j)
memcpy_same m src at e j p = ground arith

pub window-memcpy :
    (m src : Bytes) (a e r n : ℕ)
    → n < a
    → window (memcpy m (slot a e (r + n)) src 0 e) a e r (suc n)
      ≡ window m a e r n ++ (slice src 0 e ∷ [])
window-memcpy m src a e r n h =
    window-snoc m' a e r n
    ∙ ap₂ (λ w v. w ++ (v ∷ []))
        (window-ext m' m a a e r r n λ k l j p. memcpy_other m src a e r k n j l h p)
        (slice-ext m' src (slot a e (r + n)) 0 e λ j p. memcpy_same m src (slot a e (r + n)) e j p)
  where
    m' : Bytes
    m' = memcpy m (slot a e (r + n)) src 0 e

-- The offsets of bytes within the block do not wrap.
pub total_bytes : {q : Queue} {b : Block} → Inv q b → u64 (q.alloc_sz * q.ele_size) ≡ b.size
total_bytes v = omega arith

pub ele_ptr_in :
    {q : Queue} {b : Block} (i : ℕ)
    → Inv q b
    → (q_ele_ptr q i ≡ slot q.alloc_sz q.ele_size i)
      × (slot q.alloc_sz q.ele_size i + q.ele_size ≤ b.size)
ele_ptr_in {q} i v =
    let room = slots_apart q.ele_size (i % q.alloc_sz) q.alloc_sz (mod-lt i v.some_slots) in
    (
      mod-eq_of_lt {n = slot q.alloc_sz q.ele_size i} {m = 2 ^ 64} (omega (arith, room)),
      omega (arith, room),
    )
