-- ===== src/Prep/Main/Device.antt =====
-- What the device holds after a run of act_prep.c in which no call fails.
use act.Common.{
  ℕ, zero, suc, ◌+◌, ◌-◌, ◌*◌, ◌/◌, ◌^◌, ◌≤◌, ◌<◌, ◌≡◌, ◌≢◌, ℕ_discrete, ◌⊎◌, inl, inr, refl, subst,
  Bool, true, none, arith, if◌then◌else◌, dec_lt, ltb, Option, some, List, [], ◌∷◌, ◌∙◌,
}
use act.Common.Memory.{Bytes}
use act.Random.Fill.{output_byte}
use act.Prep.{
  Plan, num_salt_threads, num_zero_threads, large_block_bytes, discover_num_blocks, zero_threads,
}
use act.Prep.Zero.{AllWork}
use act.Prep.Cover.{Below, Has, zero_threads-covers}
use act.Prep.Salt.{salt_start, salt_end, salt_end-le, SaltPlan, salt_plan}
use act.Prep.Filled.{SaltsWork, salted, run_salt-Salts}
use act.Prep.Main.{
  Outside, Outcome.exited, create_threads, thread_seeds, salt_threads, begin_zeroing, begin_salting,
  prepare, main,
}
use native.Mathlib.Nat.{mul-le-mul_right, zero-mul}

-- Salt thread `n` owns the byte `x`, of a device of so many large blocks.
abbrev pub OwnsSalt : ℕ → ℕ → ℕ → Type 0
OwnsSalt blocks n x = (salt_start blocks n ≤ x) × (x < salt_end blocks n)

-- The byte that salt thread `n` leaves at `x`.
abbrev pub salt_byte : Outside → ℕ → ℕ → ℕ → ℕ
salt_byte o blocks n x = output_byte (thread_seeds o n) (x - salt_start blocks n)

salt_owner_below :
    (blocks n x : ℕ)
    → n < num_salt_threads
    → x < salt_start blocks n
    → (k : ℕ) × (k < num_salt_threads) × OwnsSalt blocks k x
salt_owner_below blocks zero x h l = absurd (omega (arith, zero-mul (blocks / 8)))
salt_owner_below blocks (suc n) x h l = elim (dec_lt x (salt_start blocks n)) [
  | yes p ↦ salt_owner_below blocks n x (omega arith) p
  | no np ↦ (n, omega arith, (omega arith, ground arith))
]

salt_owner :
    (blocks x : ℕ)
    → x < blocks * large_block_bytes
    → (k : ℕ) × (k < num_salt_threads) × OwnsSalt blocks k x
salt_owner blocks x l = elim (dec_lt x (salt_start blocks 7)) [
  | yes p ↦ salt_owner_below blocks 7 x (omega arith) p
  | no np ↦ (7, omega arith, (omega arith, l))
]

-- A byte has one owner.
one_owner :
    (blocks n k x : ℕ)
    → OwnsSalt blocks n x
    → OwnsSalt blocks k x
    → k < num_salt_threads
    → n < num_salt_threads
    → n ≡ k
one_owner blocks n k x on ok hk hn = elim (dec_lt n k) [
  | yes p ↦ absurd (ground (arith, mul-le-mul_right {m = n + 1} {n = k} (blocks / 8)))
  | no np ↦ elim (dec_lt k n) [
    | yes q ↦ absurd (ground (arith, mul-le-mul_right {m = k + 1} {n = n} (blocks / 8)))
    | no nq ↦ omega arith
  ]
]

module _ (o : Outside) (plan : Plan) (p : SaltPlan plan)
    (a : (n : ℕ) → SaltsWork (o.salt_calls n)) where
  -- After the threads of `order`: a byte of theirs is as they leave it, and the others are as before.
  abbrev AllSalted : List ℕ → Bytes → Option Bytes → Type 0
  AllSalted order dev r =
      (dev' : Bytes) × (r ≡ some dev')
      × ((x k : ℕ)
          → k < num_salt_threads
          → OwnsSalt plan.num_large_blocks k x
          → (dev' x ≡ salt_byte o plan.num_large_blocks k x) ⊎ (dev' x ≡ dev x))
      × ((x k : ℕ)
          → k < num_salt_threads
          → OwnsSalt plan.num_large_blocks k x
          → Has k order
          → dev' x ≡ salt_byte o plan.num_large_blocks k x)
      × ((x : ℕ) → plan.num_large_blocks * large_block_bytes ≤ x → dev' x ≡ dev x)

  -- What one thread does to a byte that thread `k` owns.
  by_owner :
      (dev dev1 : Bytes) (n x k : ℕ)
      → n < num_salt_threads
      → k < num_salt_threads
      → OwnsSalt plan.num_large_blocks k x
      → ((y : ℕ)
          → dev1 y
            ≡ salted
                (thread_seeds o n)
                dev
                (salt_start plan.num_large_blocks n)
                (salt_end plan.num_large_blocks n)
                y)
      → ((n ≡ k) × (dev1 x ≡ salt_byte o plan.num_large_blocks k x)) ⊎ ((n ≢ k) × (dev1 x ≡ dev x))
  by_owner dev dev1 n x k hn hk owns bytes = elim (ℕ_discrete n k) [
    | yes e ↦ inl (
      e,
      subst (λ j. OwnsSalt blocks j x → dev1 x ≡ salt_byte o blocks j x) e
          (λ own. bytes x ∙ ground arith) owns,
    )
    | no ne ↦ inr (ne, ground (arith, bytes x, other ne))
  ]
    where
      blocks : ℕ
      blocks = plan.num_large_blocks

      other : n ≢ k → ¬ OwnsSalt blocks n x
      other ne own = ne (one_owner blocks n k x own owns hk hn)

  all_salted :
      (order : List ℕ) (dev : Bytes)
      → Below num_salt_threads order
      → AllSalted order dev (salt_threads o plan order dev)
  unfolding salt_threads
  all_salted [] dev b = (dev, refl, λ x k h own. inr refl, λ x k h own i. absurd i, λ x l. refl)
  all_salted (n ∷ order) dev (l, b) =
      let (dev1, e1, bytes1) =
        run_salt-Salts plan (o.salt_calls n) (thread_seeds o n) (o.buffers n) n dev p l (a n) in
      let (dev2, e2, either, all, beyond) = all_salted order dev1 b in
      (
        dev2,
        rw (e1) e2,
        λ x k h own. ground (arith, by_owner dev dev1 n x k l h own bytes1, either x k h own),
        λ x k h own i.
            ground
              (arith, by_owner dev dev1 n x k l h own bytes1, either x k h own, all x k h own, i),
        λ x far. beyond x far ∙ bytes1 x ∙ ground (arith, salt_end-le plan.num_large_blocks n l),
      )

-- No call fails, and every thread is taken once or more.
pub record Healthy (o : Outside) : Type 0 where
  pub opened : o.opened ≡ true
  pub wide : o.device_bytes < 2 ^ 64
  pub allocated : o.zero_buffer_allocated ≡ true
  pub zero_created : (n : ℕ) → o.zero_created n ≡ true
  pub zero_works : (n : ℕ) → AllWork (o.zero_calls n)
  pub zero_below : Below num_zero_threads o.zero_order
  pub zero_all : (k : ℕ) → k < num_zero_threads → Has k o.zero_order
  pub salt_created : (n : ℕ) → o.salt_created n ≡ true
  pub salt_works : (n : ℕ) → SaltsWork (o.salt_calls n)
  pub salt_below : Below num_salt_threads o.salt_order
  pub salt_all : (k : ℕ) → k < num_salt_threads → Has k o.salt_order

-- The byte `x` of a device of so many blocks, after the run: that of the salt thread that owns it, or,
-- after the last block, 0 up to the size of the device, and as before from there on.
abbrev pub Prepared : Outside → Bytes → Bytes → ℕ → ℕ → Type 0
Prepared o dev dev' blocks x =
    ((k : ℕ) × (k < num_salt_threads) × OwnsSalt blocks k x × (dev' x ≡ salt_byte o blocks k x))
    ⊎ ((blocks * large_block_bytes ≤ x) × (dev' x ≡ (if ltb x o.device_bytes then 0 else dev x)))

create_threads-all :
    (created : ℕ → Bool) (left n : ℕ)
    → ((k : ℕ) → created k ≡ true)
    → create_threads created left n ≡ none
unfolding create_threads
create_threads-all created zero n h = refl
create_threads-all created (suc left) n h = rw (h n) (create_threads-all created left (n + 1) h)

plan_blocks :
    (device_bytes : ℕ)
    → (plan : Plan) × (discover_num_blocks true device_bytes ≡ some plan)
      × (plan.num_large_blocks ≡ device_bytes / large_block_bytes)
unfolding discover_num_blocks
plan_blocks device_bytes = (_, refl, refl)

main_ends :
    (o : Outside) (dev : Bytes) (plan : Plan) (dev1 dev2 : Bytes)
    → Healthy o
    → discover_num_blocks true o.device_bytes ≡ some plan
    → zero_threads plan o.zero_calls o.zero_order dev ≡ some dev1
    → salt_threads o plan o.salt_order dev1 ≡ some dev2
    → main 2 o dev ≡ some (exited 0 dev2)
unfolding main prepare begin_zeroing begin_salting
main_ends o dev plan dev1 dev2 h d e1 e2 =
    simp
      (
        h.opened,
        d,
        h.allocated,
        create_threads-all o.zero_created 8 0 h.zero_created,
        e1,
        create_threads-all o.salt_created 8 0 h.salt_created,
        e2,
      )
      refl

-- Where no call fails and every thread runs, in whatever order the zero threads and then the salt
-- threads are taken, `main` returns 0. The device is then divided: each byte of its whole large blocks
-- is in the part of a salt thread, and is the byte that this thread's generator, seeded by its four
-- calls of `rand`, gives at that place of the part; the bytes after the last whole block are 0; and
-- what lies beyond the size is as before.
pub main-Salted :
    (o : Outside) (dev : Bytes)
    → Healthy o
    → let blocks = o.device_bytes / large_block_bytes in
      (dev' : Bytes) × (main 2 o dev ≡ some (exited 0 dev'))
      × ((x : ℕ) → Prepared o dev dev' blocks x)
main-Salted o dev h =
    let (plan, d, e) = plan_blocks o.device_bytes in
    let (dev1, e1, zeroes) =
      zero_threads-covers o.device_bytes plan o.zero_calls o.zero_order dev d h.zero_works h.wide
        h.zero_below h.zero_all in
    let (dev2, e2, either, all, beyond) =
      all_salted o plan (salt_plan o.device_bytes plan d h.wide) h.salt_works o.salt_order dev1
        h.salt_below in
    (
      dev2,
      main_ends o dev plan dev1 dev2 h d e1 e2,
      subst (λ b. (x : ℕ) → Prepared o dev dev2 b x) e
          (λ x. elim (dec_lt x (plan.num_large_blocks * large_block_bytes)) [
            | yes near ↦
                let (k, l, own) = salt_owner plan.num_large_blocks x near in
                inl (k, l, own, all x k l own (h.salt_all k l))
            | no far ↦ inr (omega arith, beyond x (omega arith) ∙ zeroes x)
          ]),
    )
