-- ===== src/Storage/Descriptors/Use.antt =====
-- `read_from_device` and `write_to_device` of act_storage.c: what becomes of the bytes and of the file
-- descriptor.
use act.Common.{
  ℕ, ◌+◌, ◌*◌, ◌^◌, ◌≤◌, ◌<◌, ◌≡◌, ◌⊎◌, inl, inr, sym, ap, ap₂, ◌∙◌, subst, Bool, true, false,
  arith, ne→==_false, eq→==, Option, some, List, [], ◌∷◌, ◌++◌,
}
use act.Common.Partial.{◌>>=◌}
use act.Common.Memory.{Bytes, Heap, Allocates, memcpy}
use act.Queue.{Queue}
use act.Queue.Inv.{IsValid}
use act.Queue.Pop.{SameShape}
use act.Queue.Push.{CanGrow}
use act.Io.Transfer.{Stopped, Bounded, Moved, Outcome, pread_all-Moved, pwrite_all-Moved}
use act.Storage.Descriptors.{no_fd, no_time, Answers, Used, used, read_from_device, write_to_device}
use act.Storage.Descriptors.Pool.{pool, HasRoom, taken-HasRoom, fd_get-pool, fd_put-pool}

-- Open descriptors.
abbrev pub AllOpen : List ℕ → Type 0
AllOpen [] = Unit {0}
AllOpen (fd ∷ fds) = (fd < no_fd) × AllOpen fds

-- A pool of descriptors that is ready for an operation.
pub record IsReady (q : Queue) : Type 0 where
  pub valid : IsValid q
  pub grows : CanGrow q
  pub four : q.ele_size ≡ 4
  pub fds : AllOpen (pool q)

-- `fd` was taken from the pool `before`, which has the others left, or was opened.
abbrev pub Taken : ℕ → ℕ → List ℕ → List ℕ → Type 0
Taken opened fd before rest = ((before ≡ []) × (rest ≡ []) × (fd ≡ opened)) ⊎ (before ≡ fd ∷ rest)

-- What an operation may come to that is to move `size` bytes.
pub data Operated (a : Answers) (before : List ℕ) (dst : Bytes) (d : ℕ) (src : Bytes) (s size : ℕ)
    : Option Used → Type 0 where
  not_opened :
      (q : Queue)
      → before ≡ []
      → a.opened ≡ no_fd
      → IsValid q
      → pool q ≡ []
      → Operated a before dst d src s size
          (some (record { stop_time = no_time; bytes = dst; fd_q = q; closed = [] }))
  completed :
      (fd : ℕ) (rest : List ℕ) (bytes : Bytes) (q : Queue)
      → Taken a.opened fd before rest
      → ((x : ℕ) → bytes x ≡ memcpy dst d src s size x)
      → IsValid q
      → pool q ≡ rest ++ (fd ∷ [])
      → Operated a before dst d src s size
          (some (record { stop_time = a.stop_ns; bytes = bytes; fd_q = q; closed = [] }))
  failed :
      (fd moved i left : ℕ) (bytes : Bytes) (q : Queue)
      → Stopped (a.calls i left) left
      → Taken a.opened fd before (pool q)
      → moved ≤ size
      → ((x : ℕ) → bytes x ≡ memcpy dst d src s moved x)
      → IsValid q
      → Operated a before dst d src s size
          (some (record { stop_time = no_time; bytes = bytes; fd_q = q; closed = fd ∷ [] }))

module _ (heap : Heap) (a : Answers) (before : List ℕ) (dst : Bytes) (d : ℕ) (src : Bytes)
    (s size : ℕ) (laws : Allocates heap) where
  -- The end of an operation, after the transfer.
  used-Operated :
      (fd : ℕ) (q : Queue) (r : Option (Bool × Bytes × ℕ))
      → fd < no_fd
      → Taken a.opened fd before (pool q)
      → IsValid q
      → CanGrow q
      → q.ele_size ≡ 4
      → HasRoom q
      → Moved a.calls dst d src s size r
      → Operated a before dst d src s size (r >>= (λ t. used heap q fd a.stop_ns t))
  used-Operated fd q r small t v can four room m =
      subst (λ r'. Operated a before dst d src s size (r' >>= (λ t. used heap q fd a.stop_ns t)))
        (sym m.ends) (by_done m.done m.outcome)
    where
      by_done :
          (done : Bool)
          → Outcome a.calls size m.moved done
          → Operated a before dst d src s size
              (used heap q fd a.stop_ns (done, m.result, d + m.moved))
      by_done true all =
          let (q', e, v', kept) = fd_put-pool heap q fd laws v can four (omega arith) room in
          rw e (
            completed fd (pool q) m.result q' t
              (λ x. m.bytes x ∙ ap (λ n. memcpy dst d src s n x) all) v' kept)
      by_done false (i, left, stopped) =
          failed fd m.moved i left m.result q stopped t m.within m.bytes v

-- The descriptor of an operation is an open one, and the others are still ready.
pub Taken-open :
    (opened fd : ℕ) (before rest : List ℕ)
    → AllOpen before
    → opened < 2 ^ 32
    → Taken opened fd before rest
    → (fd < no_fd) ⊎ ((fd ≡ no_fd) × (before ≡ []) × (opened ≡ no_fd))
Taken-open opened fd before rest o h (inl (e, r, same)) = ground (arith, e, same)
Taken-open opened fd before rest o h (inr e) = inl (subst AllOpen e o).0

none_left :
    (opened fd : ℕ) (before rest : List ℕ) → Taken opened fd before rest → before ≡ [] → rest ≡ []
none_left opened fd before rest (inl (e, r, same)) h = r
none_left opened fd before rest (inr e) h = cc

-- A descriptor that `fd_get` has taken from the pool.
pub taken :
    (opened fd : ℕ) (q q' : Queue)
    → ((pool q ≡ []) × (q' ≡ q) × (fd ≡ opened)) ⊎ (pool q ≡ fd ∷ pool q')
    → Taken opened fd (pool q) (pool q')
taken opened fd q q' (inl (none_kept, same, e)) = inl (none_kept, ap pool same ∙ none_kept, e)
taken opened fd q q' (inr e) = inr e

pub grows : (q q' : Queue) → SameShape q q' → CanGrow q → CanGrow q'
grows q q' (slots, ele) (few, bytes) =
    (omega (arith, slots, few), omega (arith, ap₂ (λ n e. n * 2 * e) slots ele, bytes))

pub read_from_device-Operated :
    (heap : Heap) (a : Answers) (q : Queue) (device : Bytes) (offset size : ℕ) (buf : Bytes)
    → Allocates heap
    → IsReady q
    → a.opened < 2 ^ 32
    → Bounded a.calls
    → size < 2 ^ 32
    → Operated a
        (pool q)
        buf
        0
        device
        offset
        size
        (read_from_device heap a q device offset size buf)
unfolding read_from_device
read_from_device-Operated heap a q device offset size buf laws ready opens bounded small =
    let (fd, q', e, v, shape, t) = fd_get-pool q a.opened ready.valid in
    let t' = taken a.opened fd q q' t in
    elim (Taken-open a.opened fd (pool q) (pool q') ready.fds opens t') [
      | inl good ↦
          rw (e, ne→==_false fd no_fd (λ p. omega (arith, p, good)))
            (used-Operated heap a (pool q) buf 0 device offset size laws fd q' _ good t' v
              (grows q q' shape ready.grows) (shape.1 ∙ ready.four)
              (taken-HasRoom a.opened fd q q' ready.valid shape t)
              (pread_all-Moved (size + 1) a.calls device buf size offset bounded
                (omega (arith, small)) (omega arith)))
      | inr (none_such, no_pool, refused) ↦
          rw (e, eq→== fd no_fd none_such)
            (not_opened q' no_pool refused v (none_left a.opened fd (pool q) (pool q') t' no_pool))
    ]

pub write_to_device-Operated :
    (heap : Heap) (a : Answers) (q : Queue) (device : Bytes) (offset size : ℕ) (buf : Bytes)
    → Allocates heap
    → IsReady q
    → a.opened < 2 ^ 32
    → Bounded a.calls
    → size < 2 ^ 32
    → Operated a (pool q) device offset buf 0 size (write_to_device heap a q device offset size buf)
unfolding write_to_device
write_to_device-Operated heap a q device offset size buf laws ready opens bounded small =
    let (fd, q', e, v, shape, t) = fd_get-pool q a.opened ready.valid in
    let t' = taken a.opened fd q q' t in
    elim (Taken-open a.opened fd (pool q) (pool q') ready.fds opens t') [
      | inl good ↦
          rw (e, ne→==_false fd no_fd (λ p. omega (arith, p, good)))
            (used-Operated heap a (pool q) device offset buf 0 size laws fd q' _ good t' v
              (grows q q' shape ready.grows) (shape.1 ∙ ready.four)
              (taken-HasRoom a.opened fd q q' ready.valid shape t)
              (pwrite_all-Moved (size + 1) a.calls device buf size offset bounded
                (omega (arith, small)) (omega arith)))
      | inr (none_such, no_pool, refused) ↦
          rw (e, eq→== fd no_fd none_such)
            (not_opened q' no_pool refused v (none_left a.opened fd (pool q) (pool q') t' no_pool))
    ]
