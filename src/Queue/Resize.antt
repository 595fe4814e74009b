-- ===== src/Queue/Resize.antt =====
-- `q_resize` of queue.c: the elements keep their order when the block is replaced by a larger one.
use native.Mathlib.Nat.{
  mod-eq_of_lt, mod-lt, mod-add-mod, mod-eq-sub-mod, mul-le-mul_right, zero-add,
}
use act.Common.{
  ℕ, ◌+◌, ◌-◌, ◌*◌, ◌%◌, ◌^◌, ◌≤◌, ◌<◌, ◌≡◌, refl, sym, ap, ◌∙◌, ◌≢◌, ◌⊎◌, inl, inr, Option, none,
  some, arith, dec_lt, Bool-cases, Option-cases, ◌==◌, ==→eq, ==_false→ne,
}
use act.Common.Memory.{Bytes, Block, Heap, Allocates, memcpy, copy_block_ok}
use act.Common.Word.{u32, u64, sub32, sub64}
use act.Queue.{Queue, Status, ok, err, q_resize, unwind, end_size, resize_in_place, resize_by_copy}
use act.Queue.Inv.{
  Inv, contents, contents_lem, window, window-ext, slot, slots_apart, total_bytes, ele_ptr_in,
}

-- Where the element `k` steps on from slot `R` lies.
mod_from : (a r k : ℕ) → k < a → r % a + k < a → (r + k) % a ≡ r % a + k
mod_from a r k h l = sym (mod-add-mod r a k) ∙ mod-eq_of_lt l

mod_round : (a r k : ℕ) → k < a → a ≤ r % a + k → (r + k) % a ≡ r % a + k - a
mod_round a r k h l =
    sym (mod-add-mod r a k)
    ∙ mod-eq-sub-mod l
    ∙ mod-eq_of_lt (omega (arith, mod-lt r {m = a} (omega arith)))

mul_from : (e x y z : ℕ) → x ≡ y + z → x * e ≡ y * e + z * e
mul_from e x y z h = omega (arith, ap (λ (t : ℕ). t * e) h)

-- The two copies of a resize, byte by byte.
two_copies :
    (new old : Bytes) (x y end total start : ℕ)
    → ((x < end) × (y ≡ start + x)) ⊎ ((end ≤ x) × (x < total) × (y + end ≡ x))
    → memcpy (memcpy new 0 old start end) end old 0 (total - end) x ≡ old y
two_copies new old x y end total start (inl h) = ground arith
two_copies new old x y end total start (inr h) = ground arith

unwind_byte :
    (new old : Bytes) (a e r k j : ℕ)
    → k < a
    → j < e
    → let end = (a - r % a) * e in
      memcpy (memcpy new 0 old (r % a * e) end) end old 0 (a * e - end) (k * e + j)
      ≡ old (slot a e (r + k) + j)
unwind_byte new old a e r k j h p = elim (dec_lt k (a - r % a)) [
  | yes front ↦
      let place : slot a e (r + k) ≡ r % a * e + k * e =
        mul_from e ((r + k) % a) (r % a) k (mod_from a r k h (omega arith)) in
      two_copies new old (k * e + j) (slot a e (r + k) + j) ((a - r % a) * e) (a * e) (r % a * e)
        (inl (omega (arith, slots_apart e k (a - r % a) front), omega (arith, place)))
  | no back ↦
      let place : k * e ≡ slot a e (r + k) + (a - r % a) * e =
        mul_from e k ((r + k) % a) (a - r % a)
          (omega (arith, mod_round a r k h (omega arith), mod-lt r {m = a} (omega arith))) in
      two_copies new old (k * e + j) (slot a e (r + k) + j) ((a - r % a) * e) (a * e) (r % a * e)
        (inr (omega (arith, place), omega (arith, slots_apart e k a h), omega (arith, place)))
]

-- `end_size` is what the source means by it, while the bytes are counted in 32 bits.
pub end_size_lem :
    {q : Queue} {b : Block}
    → Inv q b
    → q.read_offset % q.alloc_sz ≢ 0
    → end_size q ≡ (q.alloc_sz - q.read_offset % q.alloc_sz) * q.ele_size
end_size_lem {q} v h =
    ap (λ t. u32 (t * q.ele_size)) tail_slots ∙ mod-eq_of_lt (omega (arith, fewer))
  where
    tail_slots :
        sub32 q.alloc_sz (q.read_offset % q.alloc_sz) ≡ q.alloc_sz - q.read_offset % q.alloc_sz
    tail_slots = omega (arith, mod-lt q.read_offset v.some_slots)

    fewer : (q.alloc_sz - q.read_offset % q.alloc_sz) * q.ele_size ≤ q.alloc_sz * q.ele_size
    fewer = mul-le-mul_right q.ele_size (omega arith)

module _ {q : Queue} {b : Block} (new : Block) (n : ℕ) (v : Inv q b) where
  abbrev start : ℕ
  start = slot q.alloc_sz q.ele_size q.read_offset

  abbrev end : ℕ
  end = (q.alloc_sz - q.read_offset % q.alloc_sz) * q.ele_size

  abbrev unwound : Block
  unwound = record new {
    bytes = memcpy (memcpy new.bytes 0 b.bytes start end) end b.bytes 0 (b.size - end);
  }

  start-add-end : start + end ≡ b.size
  start-add-end = omega (arith, parts, v.sized)
    where
      parts : q.alloc_sz * q.ele_size ≡ start + end
      parts =
          mul_from q.ele_size q.alloc_sz (q.read_offset % q.alloc_sz)
            (q.alloc_sz - q.read_offset % q.alloc_sz)
            (omega (arith, mod-lt q.read_offset v.some_slots))

  unwind_eq :
      q.read_offset % q.alloc_sz ≢ 0
      → q.alloc_sz ≤ n
      → new.size ≡ n * q.ele_size
      → unwind q b new ≡ some unwound
  unfolding unwind
  unwind_eq h g s =
      rw
        (
          (ele_ptr_in q.read_offset v).0,
          end_size_lem v h,
          total_bytes v,
          copy_block_ok new 0 b start end (omega (arith, start-add-end, room))
              (omega (arith, start-add-end)),
          rest,
        )
        (copy_block_ok _ end b 0 (b.size - end) (omega (arith, start-add-end, room)) (omega arith))
    where
      room : b.size ≤ new.size
      room = omega (arith, v.sized, mul-le-mul_right q.ele_size g)

      rest : sub64 b.size end ≡ b.size - end
      rest = omega (arith, start-add-end, v.sized, v.bytes)

  unwound-window :
      q.alloc_sz ≤ n
      → window unwound.bytes n q.ele_size 0 q.alloc_sz
        ≡ window b.bytes q.alloc_sz q.ele_size q.read_offset q.alloc_sz
  unwound-window g =
      window-ext unwound.bytes b.bytes n q.alloc_sz q.ele_size 0 q.read_offset q.alloc_sz λ k l j p.
        rw (v.sized, place k l)
          (unwind_byte new.bytes b.bytes q.alloc_sz q.ele_size q.read_offset k j l p)
    where
      place : (k : ℕ) → k < q.alloc_sz → slot n q.ele_size (0 + k) ≡ k * q.ele_size
      place k l =
          ap (λ t. t * q.ele_size) (mod-eq_of_lt {n = 0 + k} {m = n} (omega arith) ∙ zero-add k)

-- What a resize of a full queue to `n` slots may come to.
pub data Resized (heap : Heap) (q : Queue) (n : ℕ) : Option (Status × Queue) → Type 0 where
  grown :
      (q' : Queue) (b : Block)
      → Inv q' b
      → q'.alloc_sz ≡ n
      → q'.ele_size ≡ q.ele_size
      → q'.write_offset ≡ q.alloc_sz
      → q'.read_offset ≡ 0
      → contents q' ≡ contents q
      → Resized heap q n (some (ok, q'))
  refused :
      q.read_offset % q.alloc_sz ≢ 0
      → heap.malloc (u64 (n * q.ele_size)) ≡ none
      → Resized heap q n (some (err, q))
  lost :
      q.read_offset % q.alloc_sz ≡ 0
      → heap.realloc q.elements (u64 (n * q.ele_size)) ≡ none
      → Resized heap q n (some (err, record q { elements = none }))

module _ (heap : Heap) (laws : Allocates heap) {q : Queue} {b : Block} (v : Inv q b) (n : ℕ)
    (full : q.write_offset ≡ q.read_offset + q.alloc_sz) (more : q.alloc_sz < n) (few : n ≤ 2 ^ 30)
    (bytes : n * q.ele_size < 2 ^ 32) where
  -- A queue whose elements lie in order from the front of a block of `n` slots.
  front_Resized :
      (c : Block)
      → c.size ≡ n * q.ele_size
      → window c.bytes n q.ele_size 0 q.alloc_sz
        ≡ window b.bytes q.alloc_sz q.ele_size q.read_offset q.alloc_sz
      → Resized heap q n (
          some (
            ok,
            record q {
              elements = some c;
              read_offset = 0;
              write_offset = q.alloc_sz;
              alloc_sz = n;
            },
          ))
  front_Resized c s w = grown _ c inv refl refl refl refl (
      contents_lem _ {b = c} refl
      ∙ ap (window c.bytes n q.ele_size 0) (omega arith)
      ∙ w
      ∙ ap (window b.bytes q.alloc_sz q.ele_size q.read_offset) (omega arith)
      ∙ sym (contents_lem q v.held))
    where
      inv :
          Inv
            (record q {
              elements = some c;
              read_offset = 0;
              write_offset = q.alloc_sz;
              alloc_sz = n;
            })
            c
      inv = record {
        held = refl;
        sized = s;
        bytes = bytes;
        some_slots = omega arith;
        few_slots = few;
        ordered = omega arith;
        fits = omega arith;
        low = omega arith;
      }

  resize_in_place_lem : q.read_offset % q.alloc_sz ≡ 0 → Resized heap q n (resize_in_place heap q n)
  unfolding resize_in_place
  resize_in_place_lem e = elim (Option-cases (heap.realloc q.elements (u64 (n * q.ele_size)))) [
    | inl none_left ↦ rw (none_left, resize_in_place) (lost e none_left)
    | inr (c, given) ↦
        rw (given, resize_in_place)
          (front_Resized c (size c given) (
            window-ext c.bytes b.bytes n q.alloc_sz q.ele_size 0 q.read_offset q.alloc_sz
              λ k l j p. same c given k l j p))
  ]
    where
      size :
          (c : Block)
          → heap.realloc q.elements (u64 (n * q.ele_size)) ≡ some c
          → c.size ≡ n * q.ele_size
      size c given = laws.realloc_size q.elements _ c given ∙ mod-eq_of_lt (omega arith)

      kept :
          (c : Block)
          → heap.realloc q.elements (u64 (n * q.ele_size)) ≡ some c
          → (i : ℕ) → i < b.size
          → c.bytes i ≡ b.bytes i
      kept c given i l = laws.realloc_keeps b _ c (rw v.held at given) i l (
          omega
            (arith, v.sized, mul-le-mul_right {m = q.alloc_sz} {n = n} q.ele_size (omega arith)))

      near : (k : ℕ) → k < q.alloc_sz → (q.read_offset + k) % q.alloc_sz ≡ k
      near k l = mod_from q.alloc_sz q.read_offset k l (omega arith) ∙ omega arith

      same :
          (c : Block)
          → heap.realloc q.elements (u64 (n * q.ele_size)) ≡ some c
          → (k : ℕ) → k < q.alloc_sz
          → (j : ℕ) → j < q.ele_size
          → c.bytes (slot n q.ele_size (0 + k) + j)
            ≡ b.bytes (slot q.alloc_sz q.ele_size (q.read_offset + k) + j)
      same c given k l j p =
          rw (near k l, mod-eq_of_lt {n = 0 + k} {m = n} (omega arith), zero-add k)
            (kept c given (k * q.ele_size + j)
              (omega (arith, v.sized, slots_apart q.ele_size k q.alloc_sz l)))

  resize_by_copy_lem : q.read_offset % q.alloc_sz ≢ 0 → Resized heap q n (resize_by_copy heap q n)
  unfolding resize_by_copy
  resize_by_copy_lem e = elim (Option-cases (heap.malloc (u64 (n * q.ele_size)))) [
    | inl none_left ↦ rw (none_left, resize_by_copy) (refused e none_left)
    | inr (c, given) ↦
        let size : c.size ≡ n * q.ele_size =
          laws.malloc_size _ c given ∙ mod-eq_of_lt (omega arith) in
        rw (given, resize_by_copy)
          (simp (v.held, unwind_eq c n v e (omega arith) size)
            (front_Resized (unwound c n v) size (unwound-window c n v (omega arith))))
  ]

  pub q_resize_lem : Resized heap q n (q_resize heap q n)
  unfolding q_resize
  q_resize_lem = elim (Bool-cases (q.read_offset % q.alloc_sz == 0)) [
    | inl e ↦ rw e (resize_in_place_lem (==→eq _ _ e))
    | inr e ↦ rw e (resize_by_copy_lem (==_false→ne _ _ e))
  ]
