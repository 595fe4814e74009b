-- ===== src/Queue/Create.antt =====
-- `queue_create` and `queue_sz` of queue.c.
use act.Common.{
  ℕ, ◌-◌, ◌*◌, ◌^◌, ◌<◌, ◌≡◌, refl, ap, ◌∙◌, Bool, true, false, subst, if◌then◌else◌, none, some,
  [], arith, Option-cases, inl, inr,
}
use native.Mathlib.Nat.{mod-eq_of_lt}
use act.Common.Lists.{length}
use act.Common.Memory.{Block, Heap, Allocates}
use act.Common.Word.{u64}
use act.Queue.{Queue, q_alloc_sz, new_queue, queue_create, queue_sz}
use act.Queue.Inv.{Inv, IsValid, contents, contents_lem, length-window}

new_queue-Inv :
    (b : Block) (ele_size : ℕ) (thread_safe : Bool)
    → b.size ≡ q_alloc_sz * ele_size
    → q_alloc_sz * ele_size < 2 ^ 32
    → Inv (new_queue thread_safe ele_size b) b
new_queue-Inv b ele_size thread_safe s h = record {
  held = refl;
  sized = s;
  bytes = h;
  some_slots = omega arith;
  few_slots = omega arith;
  ordered = omega arith;
  fits = omega arith;
  low = omega arith;
}

created :
    (b : Block) (locks : Bool) (ele_size : ℕ) (thread_safe : Bool) (q : Queue)
    → (if thread_safe
        then (if locks then some (new_queue thread_safe ele_size b) else none)
        else some (new_queue thread_safe ele_size b))
      ≡ some q
    → new_queue thread_safe ele_size b ≡ q
created b true ele_size true q e = cc
created b false ele_size true q e = cc
created b locks ele_size false q e = cc

-- What `queue_create` returns is a valid, empty queue of elements of the size asked for; the first
-- block must fit the 32-bit count of bytes.
pub queue_create-IsValid :
    (heap : Heap) (locks : Bool) (ele_size : ℕ) (thread_safe : Bool) (q : Queue)
    → Allocates heap
    → q_alloc_sz * ele_size < 2 ^ 32
    → queue_create heap locks ele_size thread_safe ≡ some q
    → IsValid q × (contents q ≡ []) × (q.ele_size ≡ ele_size) × (q.thread_safe ≡ thread_safe)
unfolding queue_create
queue_create-IsValid heap locks ele_size thread_safe q laws h e =
    elim (Option-cases (heap.malloc (u64 (q_alloc_sz * ele_size)))) [
      | inl no_memory ↦ absurd (refuse no_memory)
      | inr (b, given) ↦
          subst
            (λ t.
              IsValid t
              × (contents t ≡ [])
              × (t.ele_size ≡ ele_size)
              × (t.thread_safe ≡ thread_safe))
            (created b locks ele_size thread_safe q (rw (given, queue_create) at e))
            (
              (
                b,
                new_queue-Inv b ele_size thread_safe
                    (laws.malloc_size _ b given ∙ mod-eq_of_lt (omega arith)) h,
              ),
              contents_lem (new_queue thread_safe ele_size b) refl,
              refl,
              refl,
            )
    ]
  where
    refuse : heap.malloc (u64 (q_alloc_sz * ele_size)) ≡ none → ⊥
    refuse no_memory = let e' = (rw (no_memory, queue_create) at e) in cc

-- `queue_sz` counts the elements held.
pub queue_sz-length : (q : Queue) → IsValid q → queue_sz q ≡ length (contents q)
unfolding queue_sz
queue_sz-length q (b, v) = omega (
  arith,
  ap length (contents_lem q v.held),
  length-window b.bytes q.alloc_sz q.ele_size q.read_offset (q.write_offset - q.read_offset),
)
