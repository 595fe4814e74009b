-- ===== src/Queue/Pop.antt =====
-- `queue_pop` of queue.c: the oldest element, the three ways to wait, and the time limit.
use act.Common.{
  ℕ, suc, ◌+◌, ◌-◌, ◌*◌, ◌%◌, ◌^◌, ◌≤◌, ◌<◌, ◌≡◌, refl, sym, ap, ap₂, ◌∙◌, ◌≢◌, ◌↔◌, ◌⊎◌, inl, inr,
  Bool, true, false, some, List, [], ◌∷◌, arith, Bool-cases, ◌==◌, ==→eq, ==_false→ne,
  if◌then◌else◌,
}
use act.Common.Int.{ℤ, pos}
use act.Common.Memory.{Block, slice, copy_out_ok}
use act.Common.Word.{u32}
use act.Queue.{
  Queue, ok, empty, q_empty, take_head, queue_pop, Wait, forever, no_wait, timed, unset, wait_of,
  PopResult, returns, faults, waits, returned, wait_pop, wait_deadline,
}
use act.Queue.Inv.{Inv, IsValid, contents, contents_lem, window, slot, ele_ptr_in}

-- The same capacity and size of elements.
abbrev pub SameShape : Queue → Queue → Type 0
SameShape s q = (q.alloc_sz ≡ s.alloc_sz) × (q.ele_size ≡ s.ele_size)

-- What comes of taking the head of `s`.
pub data Took (s : Queue) : PopResult → Type 0 where
  took :
      (ele : List ℕ) (q : Queue)
      → IsValid q
      → SameShape s q
      → contents s ≡ ele ∷ contents q
      → Took s (returns ok ele q)

contents_empty : {q : Queue} {b : Block} → Inv q b → q_empty q ≡ true → contents q ≡ []
contents_empty {q} {b} v e =
    contents_lem q v.held
    ∙ ap (window b.bytes q.alloc_sz q.ele_size q.read_offset) {y = 0} (omega (arith, ==→eq _ _ e))

module _ {q : Queue} {b : Block} (v : Inv q b) (some_left : q.read_offset < q.write_offset) where
  abbrev next : ℕ
  next = u32 (q.read_offset + 1)

  abbrev front : List ℕ
  front = slice b.bytes (slot q.alloc_sz q.ele_size q.read_offset) q.ele_size

  split :
      contents q
      ≡ front
        ∷ window b.bytes q.alloc_sz q.ele_size
            (q.read_offset + 1)
            (q.write_offset - (q.read_offset + 1))
  split =
      contents_lem q v.held
      ∙ ap (window b.bytes q.alloc_sz q.ele_size q.read_offset) (
          let e : q.write_offset - q.read_offset ≡ suc (q.write_offset - (q.read_offset + 1)) =
            omega arith in
          e)

  take_head_eq :
      take_head q
      ≡ some (
        ok,
        front,
        if next == q.write_offset
            then record q { read_offset = 0; write_offset = 0 }
            else record q { read_offset = next },
      )
  unfolding take_head
  take_head_eq = simp (
    v.held,
    (ele_ptr_in q.read_offset v).0,
    copy_out_ok b (slot q.alloc_sz q.ele_size q.read_offset) q.ele_size
        (ele_ptr_in q.read_offset v).1,
  )

  moved-Inv :
      (r w : ℕ)
      → r ≤ w
      → w ≤ r + q.alloc_sz
      → w < 2 ^ 31
      → Inv (record q { read_offset = r; write_offset = w }) b
  moved-Inv r w o f l = record {
    held = v.held;
    sized = v.sized;
    bytes = v.bytes;
    some_slots = v.some_slots;
    few_slots = v.few_slots;
    ordered = o;
    fits = f;
    low = l;
  }

  pub take_head-Took : Took q (returned (take_head q))
  take_head-Took = elim (Bool-cases (next == q.write_offset)) [
    | inl last ↦
        rw (take_head_eq, last)
          (took front _ (b, moved-Inv 0 0 (omega arith) (omega arith) (omega arith)) (refl, refl)
            (split
              ∙ ap (λ n. front ∷ window b.bytes q.alloc_sz q.ele_size (q.read_offset + 1) n) {y = 0}
                  (omega (arith, ==→eq _ _ last))
              ∙ ap (◌∷◌ front) (sym (contents_lem _ {b = b} v.held))))
    | inr more ↦
        rw (take_head_eq, more)
          (took front _ (b, moved-Inv next q.write_offset (omega arith) (omega arith) v.low)
            (refl, refl)
            (split
              ∙ ap₂ (λ r n. front ∷ window b.bytes q.alloc_sz q.ele_size r n) step
                  (ap (λ r. q.write_offset - r) step)
              ∙ ap (◌∷◌ front) (sym (contents_lem _ {b = b} v.held))))
  ]
    where
      step : q.read_offset + 1 ≡ next
      step = omega arith

-- `s` is the first of the states in which a call finds the queue that may hold an element: those before it
-- hold none.
pub data FirstHeld (s : Queue) : List Queue → Type 0 where
  first : {q : Queue} {qs : List Queue} → s ≡ q → FirstHeld s (q ∷ qs)
  later : {q : Queue} {qs : List Queue} → contents q ≡ [] → FirstHeld s qs → FirstHeld s (q ∷ qs)

abbrev pub AllEmpty : List Queue → Type 0
AllEmpty [] = Unit {0}
AllEmpty (q ∷ qs) = (contents q ≡ []) × AllEmpty qs

abbrev pub AllValid : List Queue → Type 0
AllValid [] = Unit {0}
AllValid (q ∷ qs) = IsValid q × AllValid qs

-- What a call that waits by `w` may come to, when it finds the queue in state `q` and the waits leave it in
-- those of `wakes`, in this order.
pub data Popped (w : Wait) (q : Queue) (wakes : List Queue) : PopResult → Type 0 where
  popped : (s : Queue) {r : PopResult} → FirstHeld s (q ∷ wakes) → Took s r → Popped w q wakes r
  found_empty : w ≡ no_wait → contents q ≡ [] → Popped w q wakes (returns empty [] q)
  timed_out :
      (q' : Queue) (more : List Queue)
      → w ≡ timed
      → wakes ≡ q' ∷ more
      → contents q ≡ []
      → contents q' ≡ []
      → Popped w q wakes (returns empty [] q')
  waiting :
      AllEmpty (q ∷ wakes) → (w ≡ forever) ⊎ ((w ≡ timed) × (wakes ≡ [])) → Popped w q wakes waits
  unset_limit : w ≡ unset → contents q ≡ [] → Popped w q wakes faults

one_more :
    {q q' : Queue} {wakes : List Queue} {r : PopResult}
    → contents q ≡ []
    → Popped forever q' wakes r
    → Popped forever q (q' ∷ wakes) r
one_more c (popped s m t) = popped s (later c m) t
one_more c (found_empty w e) = absurd cc
one_more c (timed_out q' more w e e1 e2) = absurd cc
one_more c (waiting e w) = waiting (c, e) (inl refl)
one_more c (unset_limit w e) = absurd cc

-- The queue is not empty.
pop_here :
    {w : Wait} (q : Queue) (wakes : List Queue)
    → IsValid q
    → q_empty q ≡ false
    → Popped w q wakes (returned (take_head q))
pop_here q wakes (b, v) e =
    popped q (first refl) (take_head-Took v (omega (arith, v.ordered, ==_false→ne _ _ e)))

none_held : (q : Queue) → IsValid q → q_empty q ≡ true → contents q ≡ []
none_held q (b, v) e = contents_empty v e

pub wait_pop-Popped :
    (w : Wait) (q : Queue) (wakes : List Queue)
    → AllValid (q ∷ wakes)
    → Popped w q wakes (wait_pop w q wakes)
unfolding wait_pop
wait_pop-Popped no_wait q wakes v = elim (Bool-cases (q_empty q)) [
  | inl e ↦ rw e (found_empty refl (none_held q v.0 e))
  | inr e ↦ rw e (pop_here q wakes v.0 e)
]
wait_pop-Popped unset q wakes v = elim (Bool-cases (q_empty q)) [
  | inl e ↦ rw e (unset_limit refl (none_held q v.0 e))
  | inr e ↦ rw e (pop_here q wakes v.0 e)
]
wait_pop-Popped forever q [] v = elim (Bool-cases (q_empty q)) [
  | inl e ↦ rw e (waiting (none_held q v.0 e, tt) (inl refl))
  | inr e ↦ rw e (pop_here q [] v.0 e)
]
wait_pop-Popped timed q [] v = elim (Bool-cases (q_empty q)) [
  | inl e ↦ rw e (waiting (none_held q v.0 e, tt) (inr (refl, refl)))
  | inr e ↦ rw e (pop_here q [] v.0 e)
]
wait_pop-Popped forever q (q' ∷ wakes) v = elim (Bool-cases (q_empty q)) [
  | inl e ↦ rw e (one_more (none_held q v.0 e) (wait_pop-Popped forever q' wakes v.1))
  | inr e ↦ rw e (pop_here q (q' ∷ wakes) v.0 e)
]
wait_pop-Popped timed q (q' ∷ wakes) v = elim (Bool-cases (q_empty q)) [
  | inl e ↦ elim (Bool-cases (q_empty q')) [
    | inl e' ↦ rw (e, e') (timed_out q' wakes refl refl (none_held q v.0 e) (none_held q' v.1.0 e'))
    | inr e' ↦ rw (e, e') (second_pop q q' wakes v.1.0 (none_held q v.0 e) e')
  ]
  | inr e ↦ rw e (pop_here q (q' ∷ wakes) v.0 e)
]
  where
    second_pop :
        (q q' : Queue) (wakes : List Queue)
        → IsValid q'
        → contents q ≡ []
        → q_empty q' ≡ false
        → Popped timed q (q' ∷ wakes) (returned (take_head q'))
    second_pop q q' wakes (b, v) c e =
        popped q' (later c (first refl))
          (take_head-Took v (omega (arith, v.ordered, ==_false→ne _ _ e)))

-- A queue that is not thread safe never waits.
abbrev pub waits_by : Queue → ℤ → Wait
waits_by q ms_wait = if q.thread_safe then wait_of ms_wait else no_wait

pub waits_by-no_wait : (q : Queue) → waits_by q (pos 0) ≡ no_wait
unfolding wait_of
waits_by-no_wait q = ground arith

pub queue_pop-Popped :
    (q : Queue) (ms_wait : ℤ) (wakes : List Queue)
    → AllValid (q ∷ wakes)
    → Popped (waits_by q ms_wait) q wakes (queue_pop q ms_wait wakes)
unfolding queue_pop
queue_pop-Popped q ms_wait wakes v = shared_or_not q.thread_safe
  where
    shared_or_not :
        (shared : Bool)
        → Popped (if shared then wait_of ms_wait else no_wait) q wakes (
            if shared
            then wait_pop (wait_of ms_wait) q wakes
            else (if q_empty q then returns empty [] q else returned (take_head q)))
    shared_or_not true = wait_pop-Popped (wait_of ms_wait) q wakes v
    shared_or_not false = elim (Bool-cases (q_empty q)) [
      | inl e ↦ rw e (found_empty refl (none_held q v.0 e))
      | inr e ↦ rw e (pop_here q wakes v.0 e)
    ]

-- A valid `struct timespec` keeps its nanoseconds below a second.
abbrev pub IsTimespec : ℕ → Type 0
IsTimespec nsec = nsec < 1000000000

-- The time limit lies exactly `ms` milliseconds after the time of the call. Its nanoseconds make a
-- full second, which is no valid time, exactly when those of the call and of the wait add up to one.
pub wait_deadline_lem :
    (tv_sec tv_nsec ms : ℕ)
    → IsTimespec tv_nsec
    → let (sec, nsec) = wait_deadline tv_sec tv_nsec ms in
      (sec * 1000000000 + nsec ≡ tv_sec * 1000000000 + tv_nsec + ms * 1000000)
      × (nsec ≤ 1000000000)
      × (IsTimespec nsec ↔ (tv_nsec + ms % 1000 * 1000000 ≢ 1000000000))
unfolding wait_deadline
wait_deadline_lem tv_sec tv_nsec ms h = ground arith
