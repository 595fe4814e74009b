-- ===== src/Queue.antt =====
-- src/common/queue.c and queue.h: a circular buffer of fixed-size elements in one heap block,
-- doubled when it is full. The mutex makes each call atomic, so a call is a function of the state;
-- what other threads do while a call waits is an argument.
pub mod Inv
pub mod Resize
pub mod Create
pub mod Push
pub mod Pop
use Prim.Native.Nat.{bit_and}
use act.Common.{
  ℕ, zero, suc, ◌+◌, ◌-◌, ◌*◌, ◌/◌, ◌%◌, Bool, true, false, Option, none, some, List, [], ◌∷◌, ◌==◌,
  ltb, if◌then◌else◌,
}
use act.Common.Word.{u32, u64, sub32, sub64}
use act.Common.Partial.{◌>>=◌}
use act.Common.Memory.{Bytes, Block, Heap, copy_in, copy_out, copy_block}
use act.Common.Int.{ℤ, pos, negsuc}

-- `struct queue_s`, without its mutex and condition variable. `elements` is NULL at `none`.
pub record Queue : Type 0 where
  pub thread_safe : Bool
  pub alloc_sz : ℕ
  pub read_offset : ℕ
  pub write_offset : ℕ
  pub ele_size : ℕ
  pub elements : Option Block

-- QUEUE_OK, QUEUE_ERR and QUEUE_EMPTY.
pub data Status : Type 0 where
  ok err empty : Status

abbrev pub q_alloc_sz : ℕ
q_alloc_sz = 64 * 1024

-- The macros Q_SZ, Q_EMPTY and Q_ELE_PTR.
abbrev pub q_sz : Queue → ℕ
q_sz q = sub32 q.write_offset q.read_offset

abbrev pub q_empty : Queue → Bool
q_empty q = q.write_offset == q.read_offset

abbrev pub q_ele_ptr : Queue → ℕ → ℕ
q_ele_ptr q i = u64 (i % q.alloc_sz * q.ele_size)

abbrev pub new_queue : Bool → ℕ → Block → Queue
new_queue thread_safe ele_size b = record {
  thread_safe = thread_safe;
  alloc_sz = q_alloc_sz;
  read_offset = 0;
  write_offset = 0;
  ele_size = ele_size;
  elements = some b;
}

-- `none` is NULL. `locks` says whether the mutex and the condition variable could be made.
unfoldable pub queue_create : Heap → Bool → ℕ → Bool → Option Queue
queue_create heap locks ele_size thread_safe = elim (heap.malloc (u64 (q_alloc_sz * ele_size))) [
  | none ↦ none
  | some b ↦
      if thread_safe
      then (if locks then some (new_queue thread_safe ele_size b) else none)
      else some (new_queue thread_safe ele_size b)
]

pub queue_sz : Queue → ℕ
queue_sz q = q_sz q

-- From here on `none` is a fault: an access through NULL or outside a block.
resize_in_place : Heap → Queue → ℕ → Option (Status × Queue)
resize_in_place heap q new_sz = elim (heap.realloc q.elements (u64 (new_sz * q.ele_size))) [
  | none ↦ some (err, record q { elements = none })
  | some b ↦ some (
    ok,
    record q { elements = some b; read_offset = 0; write_offset = q.alloc_sz; alloc_sz = new_sz },
  )
]

-- `end_size` is a uint32_t.
abbrev pub end_size : Queue → ℕ
end_size q = u32 (sub32 q.alloc_sz (q.read_offset % q.alloc_sz) * q.ele_size)

-- The two copies that bring the oldest element to the front.
pub unwind : Queue → Block → Block → Option Block
unwind q old new = do
  front ← copy_block new 0 old (q_ele_ptr q q.read_offset) (end_size q)
  copy_block front (end_size q) old 0 (sub64 (u64 (q.alloc_sz * q.ele_size)) (end_size q))

resize_by_copy : Heap → Queue → ℕ → Option (Status × Queue)
resize_by_copy heap q new_sz = elim (heap.malloc (u64 (new_sz * q.ele_size))) [
  | none ↦ some (err, q)
  | some new ↦ do
    old ← q.elements
    b ← unwind q old new
    some (
      ok,
      record q { elements = some b; write_offset = q.alloc_sz; read_offset = 0; alloc_sz = new_sz },
    )
]

pub q_resize : Heap → Queue → ℕ → Option (Status × Queue)
q_resize heap q new_sz =
    if q.read_offset % q.alloc_sz == 0
    then resize_in_place heap q new_sz
    else resize_by_copy heap q new_sz

pub q_unwrap : Queue → Queue
q_unwrap q =
    let read = q.read_offset % q.alloc_sz in
    record q { read_offset = read; write_offset = u32 (read + q_sz q) }

-- The part of `queue_push` behind the resize.
pub put_tail : Queue → Bytes → Option (Status × Queue)
put_tail q ele = do
  old ← q.elements
  b ← copy_in old (q_ele_ptr q q.write_offset) ele q.ele_size
  let q' = record q { elements = some b; write_offset = u32 (q.write_offset + 1) }
  some (ok, if bit_and q'.write_offset 0xC0000000 == 0 then q' else q_unwrap q')

-- What follows `q_resize` in `queue_push`.
put_resized : Bytes → Option (Status × Queue) → Option (Status × Queue)
put_resized ele none = none
put_resized ele (some (ok, q)) = put_tail q ele
put_resized ele (some (_, q)) = some (err, q)

pub queue_push : Heap → Queue → Bytes → Option (Status × Queue)
queue_push heap q ele =
    if q_sz q == q.alloc_sz
    then put_resized ele (q_resize heap q (u32 (q.alloc_sz * 2)))
    else put_tail q ele

-- The part of `queue_pop` behind the wait.
pub take_head : Queue → Option (Status × List ℕ × Queue)
take_head q = do
  b ← q.elements
  ele ← copy_out b (q_ele_ptr q q.read_offset) q.ele_size
  let read = u32 (q.read_offset + 1)
  some (
    ok,
    ele,
    if read == q.write_offset
        then record q { read_offset = 0; write_offset = 0 }
        else record q { read_offset = read },
  )

-- How `queue_pop` reads `ms_wait`: QUEUE_FOREVER is -1, QUEUE_NO_WAIT is 0. Any other negative value waits
-- until `tp`, which is set only where `ms_wait` is positive.
pub data Wait : Type 0 where
  forever no_wait timed unset : Wait

pub wait_of : ℤ → Wait
wait_of (pos zero) = no_wait
wait_of (pos (suc ms)) = timed
wait_of (negsuc zero) = forever
wait_of (negsuc (suc ms)) = unset

-- What a pop comes to: a return, a fault, which the use of an unset `tp` is too, or a wait that has not
-- ended.
pub data PopResult : Type 0 where
  returns : Status → List ℕ → Queue → PopResult
  faults waits : PopResult

abbrev pub returned : Option (Status × List ℕ × Queue) → PopResult
returned none = faults
returned (some (s, ele, q)) = returns s ele q

-- `wakes` is the queue as each wait on the condition variable leaves it.
pub wait_pop : Wait → Queue → List Queue → PopResult
wait_pop no_wait q wakes = if q_empty q then returns empty [] q else returned (take_head q)
wait_pop unset q wakes = if q_empty q then faults else returned (take_head q)
wait_pop w q [] = if q_empty q then waits else returned (take_head q)
wait_pop forever q (q' ∷ wakes) =
    let later = wait_pop forever q' wakes in if q_empty q then later else returned (take_head q)
wait_pop timed q (q' ∷ wakes) =
    if q_empty q
    then (if q_empty q' then returns empty [] q' else returned (take_head q'))
    else returned (take_head q)

pub queue_pop : Queue → ℤ → List Queue → PopResult
queue_pop q ms_wait wakes =
    if q.thread_safe
    then wait_pop (wait_of ms_wait) q wakes
    else (if q_empty q then returns empty [] q else returned (take_head q))

-- `tp` after the additions, from the time of the call: seconds and nanoseconds.
pub wait_deadline : ℕ → ℕ → ℕ → ℕ × ℕ
wait_deadline tv_sec tv_nsec ms =
    let sec = tv_sec + ms / 1000 in
    let nsec = tv_nsec + ms % 1000 * 1000000 in
    if ltb 1000000000 nsec then (sec + 1, nsec - 1000000000) else (sec, nsec)
