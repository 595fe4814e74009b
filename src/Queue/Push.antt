-- ===== src/Queue/Push.antt =====
-- `queue_push` of queue.c: an element goes to the tail, and the write offset is kept from wrapping.
use Prim.Native.Nat.{bit_and}
use native.Mathlib.Nat.{mod-lt, mod-add-mod}
use act.Common.{
  ℕ, suc, ◌+◌, ◌-◌, ◌*◌, ◌/◌, ◌%◌, ◌^◌, ◌≤◌, ◌<◌, ◌≡◌, ◌≢◌, refl, sym, ap, ap₂, ◌∙◌, ◌↔◌, inl, inr,
  Option, none, some, [], ◌∷◌, ◌++◌, arith, Bool-cases, ◌==◌, ==→eq, ==_false→ne, if◌then◌else◌,
}
use act.Common.Bits.{bit_and-shift, bit_and-ones}
use act.Common.Memory.{Bytes, Block, Heap, Allocates, memcpy, slice, copy_in_ok}
use act.Common.Word.{u32, u64}
use act.Queue.{Queue, Status, ok, err, q_sz, q_unwrap, put_tail, put_resized, queue_push}
use act.Queue.Inv.{
  Inv, InvBelow, IsValid, contents, contents_lem, window, window-ext, window-memcpy, slot,
  ele_ptr_in,
}
use act.Queue.Resize.{Resized, grown, refused, lost, q_resize_lem}

-- The mask 0xC0000000 tests the two top bits of an offset.
pub offset_mask : (w : ℕ) → w < 2 ^ 32 → (bit_and w 0xC0000000 ≡ 0) ↔ (w < 2 ^ 30)
offset_mask w h = (λ z. omega (arith, value, z), λ l. omega (arith, value, l))
  where
    value : bit_and w 0xC0000000 ≡ w / 2 ^ 30 % 4 * 2 ^ 30
    value = bit_and-shift 30 w 3 ∙ ap (λ t. t * 2 ^ 30) (bit_and-ones 2 (w / 2 ^ 30))

-- Both offsets go down by the same multiple of the capacity.
pub unwrap_lem :
    {q : Queue} {b : Block}
    → InvBelow (2 ^ 32) q b
    → Inv (q_unwrap q) b × (contents (q_unwrap q) ≡ contents q)
unfolding q_unwrap
unwrap_lem {q} {b} v = (inv, same)
  where
    n : ℕ
    n = q.write_offset - q.read_offset

    size : u32 (q.read_offset % q.alloc_sz + q_sz q) ≡ q.read_offset % q.alloc_sz + n
    size = omega (arith, mod-lt q.read_offset v.some_slots)

    inv : Inv (q_unwrap q) b
    inv = record {
      held = v.held;
      sized = v.sized;
      bytes = v.bytes;
      some_slots = v.some_slots;
      few_slots = v.few_slots;
      ordered = omega (arith, size);
      fits = omega (arith, size);
      low = omega (arith, size, mod-lt q.read_offset v.some_slots);
    }

    same : contents (q_unwrap q) ≡ contents q
    same =
        contents_lem (q_unwrap q) v.held
        ∙ ap (window b.bytes q.alloc_sz q.ele_size (q.read_offset % q.alloc_sz))
            (omega (arith, size))
        ∙ window-ext b.bytes b.bytes q.alloc_sz q.alloc_sz q.ele_size (q.read_offset % q.alloc_sz)
            q.read_offset n
            (λ k l j p.
              ap (λ t. b.bytes (t * q.ele_size + j)) (mod-add-mod q.read_offset q.alloc_sz k))
        ∙ sym (contents_lem q v.held)

lowered : {t : ℕ} {q : Queue} {b : Block} → InvBelow t q b → q.write_offset < 2 ^ 31 → Inv q b
lowered v l = record {
  held = v.held;
  sized = v.sized;
  bytes = v.bytes;
  some_slots = v.some_slots;
  few_slots = v.few_slots;
  ordered = v.ordered;
  fits = v.fits;
  low = l;
}

-- What a push that finds a free slot does.
record Put (q : Queue) (ele : Bytes) (q' : Queue) : Type 0 where
  valid : IsValid q'
  added : contents q' ≡ contents q ++ (slice ele 0 q.ele_size ∷ [])

module _ {q : Queue} {b : Block} (v : Inv q b) (free : q.write_offset < q.read_offset + q.alloc_sz)
    (ele : Bytes) where
  written : Block
  written = record b {
    bytes = memcpy b.bytes (slot q.alloc_sz q.ele_size q.write_offset) ele 0 q.ele_size;
  }

  abbrev stored : Queue
  stored = record q { elements = some written; write_offset = u32 (q.write_offset + 1) }

  stored-Inv : InvBelow (2 ^ 32) stored written
  unfolding written
  stored-Inv = record {
    held = refl;
    sized = v.sized;
    bytes = v.bytes;
    some_slots = v.some_slots;
    few_slots = v.few_slots;
    ordered = omega arith;
    fits = omega arith;
    low = omega arith;
  }

  contents-stored : contents stored ≡ contents q ++ (slice ele 0 q.ele_size ∷ [])
  unfolding written
  contents-stored =
      contents_lem stored refl
      ∙ ap (window written.bytes q.alloc_sz q.ele_size q.read_offset) one_more
      ∙ ap
          (λ t.
            window (memcpy b.bytes (slot q.alloc_sz q.ele_size t) ele 0 q.ele_size) q.alloc_sz
              q.ele_size q.read_offset (suc (q.write_offset - q.read_offset)))
          tail
      ∙ window-memcpy b.bytes ele q.alloc_sz q.ele_size q.read_offset
          (q.write_offset - q.read_offset) (omega arith)
      ∙ ap (λ w. w ++ (slice ele 0 q.ele_size ∷ [])) (sym (contents_lem q v.held))
    where
      one_more : u32 (q.write_offset + 1) - q.read_offset ≡ suc (q.write_offset - q.read_offset)
      one_more = omega arith

      tail : q.write_offset ≡ q.read_offset + (q.write_offset - q.read_offset)
      tail = omega arith

  put_tail_eq :
      put_tail q ele
      ≡ some (ok, if bit_and stored.write_offset 0xC0000000 == 0 then stored else q_unwrap stored)
  unfolding put_tail written
  put_tail_eq = simp (
    v.held,
    (ele_ptr_in q.write_offset v).0,
    copy_in_ok b (slot q.alloc_sz q.ele_size q.write_offset) ele q.ele_size
        (ele_ptr_in q.write_offset v).1,
  )

  put_tail_lem : (q' : Queue) × (put_tail q ele ≡ some (ok, q')) × Put q ele q'
  put_tail_lem = elim (Bool-cases (bit_and stored.write_offset 0xC0000000 == 0)) [
    | inl low ↦ (
      stored,
      rw (put_tail_eq, low),
      record {
        valid = (
          written,
          lowered stored-Inv
              (omega (arith, (offset_mask stored.write_offset (omega arith)).0 (==→eq _ _ low))),
        );
        added = contents-stored;
      },
    )
    | inr high ↦
        let (inv, same) = unwrap_lem stored-Inv in
        (
          q_unwrap stored,
          rw (put_tail_eq, high),
          record { valid = (written, inv); added = same ∙ contents-stored },
        )
  ]

-- Twice the slots still fit the offsets and the 32-bit count of bytes.
abbrev pub CanGrow : Queue → Type 0
CanGrow q = (q.alloc_sz * 2 ≤ 2 ^ 30) × (q.alloc_sz * 2 * q.ele_size < 2 ^ 32)

abbrev pub IsFull : Queue → Type 0
IsFull q = q.write_offset ≡ q.read_offset + q.alloc_sz

-- What a push may come to: the element is added at the tail, or the queue was full and the call for a
-- block of twice its bytes returned NULL. A failed `malloc` leaves it as it was; `realloc`, which is called
-- where the oldest element lies in the first slot, has dropped its block.
pub data Pushed (heap : Heap) (q : Queue) (ele : Bytes) : Option (Status × Queue) → Type 0 where
  added :
      (q' : Queue)
      → IsValid q'
      → contents q' ≡ contents q ++ (slice ele 0 q.ele_size ∷ [])
      → Pushed heap q ele (some (ok, q'))
  kept :
      IsFull q
      → q.read_offset % q.alloc_sz ≢ 0
      → heap.malloc (q.alloc_sz * 2 * q.ele_size) ≡ none
      → Pushed heap q ele (some (err, q))
  dropped :
      IsFull q
      → q.read_offset % q.alloc_sz ≡ 0
      → heap.realloc q.elements (q.alloc_sz * 2 * q.ele_size) ≡ none
      → Pushed heap q ele (some (err, record q { elements = none }))

put_tail-Pushed :
    {heap : Heap} {q : Queue} {b : Block}
    → Inv q b
    → q.write_offset < q.read_offset + q.alloc_sz
    → (ele : Bytes) → Pushed heap q ele (put_tail q ele)
put_tail-Pushed v free ele =
    let (q', e, p) = put_tail_lem v free ele in rw e (added q' p.valid p.added)

Resized-Pushed :
    {heap : Heap} {q : Queue} {b : Block} {n : ℕ} {r : Option (Status × Queue)} (ele : Bytes)
    → Inv q b
    → IsFull q
    → q.alloc_sz < n
    → u64 (n * q.ele_size) ≡ q.alloc_sz * 2 * q.ele_size
    → Resized heap q n r
    → Pushed heap q ele (put_resized ele r)
unfolding put_resized
Resized-Pushed {q} {b} ele v full more twice (grown q' c inv slots size write read con) =
    let (q'', e, p) = put_tail_lem inv (omega arith) ele in
    rw e (added q'' p.valid (p.added ∙ ap₂ (λ w s. w ++ (slice ele 0 s ∷ [])) con size))
Resized-Pushed {heap} ele v full more twice (refused start e) =
    kept full start (ap heap.malloc (sym twice) ∙ e)
Resized-Pushed {heap} {q} ele v full more twice (lost start e) =
    dropped full start (ap (heap.realloc q.elements) (sym twice) ∙ e)

-- A push to a valid queue that can still be enlarged never faults, adds exactly its element at the
-- tail, and fails only when the queue is full and the allocation of twice its bytes fails.
pub queue_push-Pushed :
    (heap : Heap) (q : Queue) (ele : Bytes)
    → Allocates heap
    → IsValid q
    → CanGrow q
    → Pushed heap q ele (queue_push heap q ele)
unfolding queue_push
queue_push-Pushed heap q ele laws (b, v) can = elim (Bool-cases (q_sz q == q.alloc_sz)) [
  | inl full ↦ rw full (
      Resized-Pushed ele v (omega (arith, ==→eq _ _ full)) (omega (arith, double)) twice (
        q_resize_lem heap laws v (u32 (q.alloc_sz * 2)) (omega (arith, ==→eq _ _ full))
          (omega (arith, double)) (omega (arith, double))
          (omega (arith, can, ap (λ t. t * q.ele_size) double))))
  | inr free ↦ rw free (put_tail-Pushed v (omega (arith, ==_false→ne _ _ free)) ele)
]
  where
    double : u32 (q.alloc_sz * 2) ≡ q.alloc_sz * 2
    double = omega (arith, v.some_slots, v.few_slots)

    twice : u64 (u32 (q.alloc_sz * 2) * q.ele_size) ≡ q.alloc_sz * 2 * q.ele_size
    twice = omega (arith, can, ap (λ t. t * q.ele_size) double)
