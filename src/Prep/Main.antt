-- ===== src/Prep/Main.antt =====
-- `main` of act_prep.c: the device is zeroed by some threads, and then salted by others.
pub mod Device
pub mod Failing
use act.Common.{
  ℕ, zero, suc, ◌+◌, Bool, true, false, Option, none, some, ◌==◌, if◌then◌else◌, List, [], ◌∷◌,
}
use act.Common.Memory.{Bytes}
use act.Common.Partial.{◌>>=◌}
use act.Random.{Seeds, rand_seed_thread}
use act.Prep.{
  Plan, Calls, num_zero_threads, num_salt_threads, discover_num_blocks, zero_threads, run_salt,
}

-- What the calls of the process outside the program come to: those of `discover_num_blocks` and
-- `create_zero_buffer`, whether thread `n` could be created, what its calls return, the order that the
-- threads are taken in, and for each salt thread what its calls of `rand` return and what the buffer
-- that it allocates holds.
pub record Outside : Type 0 where
  pub opened : Bool
  pub device_bytes : ℕ
  pub zero_buffer_allocated : Bool
  pub zero_created : ℕ → Bool
  pub zero_calls : ℕ → Calls
  pub zero_order : List ℕ
  pub salt_created : ℕ → Bool
  pub salt_calls : ℕ → Calls
  pub salt_order : List ℕ
  pub rand : ℕ → ℕ → ℕ
  pub buffers : ℕ → Bytes

-- How the process ends: with what status, and what the device then holds. Where a thread cannot be
-- created the process ends while the `running` threads before it may be at work, and what the device then
-- holds is not said.
pub data Outcome : Type 0 where
  exited : (status : ℕ) (device : Bytes) → Outcome
  exited_among : (status running : ℕ) → Outcome

-- The status of `exit(-1)`.
abbrev pub failure : ℕ
failure = 255

-- The loop of `pthread_create` with `left` threads to go, from thread `n` on: the thread that could
-- not be created.
pub create_threads : (ℕ → Bool) → ℕ → ℕ → Option ℕ
create_threads created zero n = none
create_threads created (suc left) n =
    let rest = create_threads created left (n + 1) in if created n then rest else some n

-- `rand_seed_thread` in salt thread `n`.
pub thread_seeds : Outside → ℕ → Seeds
thread_seeds o n = rand_seed_thread (o.rand n 0) (o.rand n 1) (o.rand n 2) (o.rand n 3)

-- The salt threads, one after another in the order given.
pub salt_threads : Outside → Plan → List ℕ → Bytes → Option Bytes
salt_threads o plan [] dev = some dev
salt_threads o plan (n ∷ order) dev = do
  dev' ← run_salt plan (o.salt_calls n) (thread_seeds o n) (o.buffers n) n dev
  salt_threads o plan order dev'

-- The part of `main` from "Begin salting" on.
pub begin_salting : Outside → Plan → Bytes → Option ℕ → Option Outcome
begin_salting o plan dev (some n) = some (exited_among failure n)
begin_salting o plan dev none = do dev' ← salt_threads o plan o.salt_order dev; some (exited 0 dev')

-- The part of `main` from the creation of the zero threads on.
pub begin_zeroing : Outside → Plan → Bytes → Option ℕ → Option Outcome
begin_zeroing o plan dev (some n) = some (exited_among failure n)
begin_zeroing o plan dev none = do
  dev' ← zero_threads plan o.zero_calls o.zero_order dev
  begin_salting o plan dev' (create_threads o.salt_created num_salt_threads 0)

-- The part of `main` from `discover_num_blocks` on.
pub prepare : Outside → Bytes → Option Plan → Option Outcome
prepare o dev none = some (exited failure dev)
prepare o dev (some plan) =
    if o.zero_buffer_allocated
    then begin_zeroing o plan dev (create_threads o.zero_created num_zero_threads 0)
    else some (exited failure dev)

-- The device is the second argument; the first is `argc`.
pub main : ℕ → Outside → Bytes → Option Outcome
main argc o dev =
    if argc == 2
    then prepare o dev (discover_num_blocks o.opened o.device_bytes)
    else some (exited 0 dev)
