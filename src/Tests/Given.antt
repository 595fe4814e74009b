-- ===== src/Tests/Given.antt =====
-- Inputs that the tests share: a heap, queues, system calls, a generator and histograms.
use act.Common.{min, ℕ, ◌<◌, ◌≡◌, ◌⊎◌, refl, true, Option, none, some, arith}
use act.Common.Int.{pos}
use act.Common.Memory.{Bytes, Block, Heap, Allocates}
use act.Io.{Syscall}
use act.Io.Transfer.{Bounded, Works}
use act.Queue.{Queue}
use act.Queue.Inv.{IsValid}
use act.Random.{Seeds}

abbrev pub bytes_of : Option Block → Bytes
bytes_of none i = 0
bytes_of (some b) i = b.bytes i

-- A heap that never runs out.
abbrev pub heap : Heap
heap = record {
  malloc = λ n. some (record { size = n; bytes = λ i. 0 });
  realloc = λ o n. some (record { size = n; bytes = bytes_of o });
}

pub heap-Allocates : Allocates heap
heap-Allocates = record {
  malloc_size = λ n b e. ground arith;
  realloc_size = λ o n b e. ground arith;
  realloc_keeps = λ a n b e i p q. ground arith;
}

-- Two elements in four slots of four bytes each.
abbrev pub two_held : Queue
two_held = record {
  thread_safe = true;
  alloc_sz = 4;
  read_offset = 3;
  write_offset = 5;
  ele_size = 4;
  elements = some (record { size = 16; bytes = λ i. i });
}

pub two_held-IsValid : IsValid two_held
two_held-IsValid = (
  record { size = 16; bytes = λ i. i },
  record {
    held = refl;
    sized = refl;
    bytes = omega arith;
    some_slots = omega arith;
    few_slots = omega arith;
    ordered = omega arith;
    fits = omega arith;
    low = omega arith;
  },
)

-- The same with every slot in use, from the last one round.
abbrev pub full_queue : Queue
full_queue = record two_held { write_offset = 7 }

pub full_queue-IsValid : IsValid full_queue
full_queue-IsValid = (
  record { size = 16; bytes = λ i. i },
  record {
    held = refl;
    sized = refl;
    bytes = omega arith;
    some_slots = omega arith;
    few_slots = omega arith;
    ordered = omega arith;
    fits = omega arith;
    low = omega arith;
  },
)

-- Calls that transfer at most three bytes each.
abbrev pub short_calls : Syscall
short_calls i size = pos (min size 3)

pub short_calls-Bounded : Bounded short_calls
short_calls-Bounded i size n e = ground arith

pub short_calls-Works : Works short_calls
short_calls-Works i size = (min size 3, refl, omega arith, short size)
  where
    short : (size : ℕ) → (size ≡ 0) ⊎ (0 < min size 3)
    short size = ground arith

abbrev pub seeds : Seeds
seeds = record { seed0 = 1; seed1 = 2 }
