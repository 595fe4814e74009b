-- ===== src/Prep/Main/Failing.antt =====
-- Runs of act_prep.c in which calls may fail.
use act.Common.{
  ℕ, zero, suc, ◌+◌, ◌*◌, ◌^◌, ◌≤◌, ◌<◌, ◌≡◌, ◌⊎◌, inl, inr, refl, sym, subst, Bool, true, false,
  arith, Bool-cases, ◌==◌, ==→eq, Option, none, some, List, [], ◌∷◌,
}
use act.Common.Memory.{Bytes}
use act.Io.Transfer.{Bounded}
use act.Prep.{
  Plan, Calls, num_salt_threads, num_zero_threads, large_block_bytes, discover_num_blocks,
  zero_threads,
}
use act.Prep.Zero.{plan_of}
use act.Prep.Cover.{Below, part_end-le}
use act.Prep.Salt.{Within, run_salt-Within, salt_end-le}
use act.Prep.Stopped.{run_zero-KeepsOthers}
use act.Prep.Main.{
  Outside, Outcome, Outcome.exited, Outcome.exited_among, create_threads, thread_seeds,
  salt_threads, begin_zeroing, begin_salting, prepare, main,
}

-- The process ends with no byte beyond the size of the device changed, or with status 255 at the first thread,
-- for zeroing or for salting, that could not be created.
abbrev pub StaysWithin : Outside → Bytes → Outcome → Type 0
StaysWithin o dev (exited status device) = Within dev 0 o.device_bytes device
StaysWithin o dev (exited_among status n) =
    (status ≡ 255)
    × (((n < num_zero_threads) × (o.zero_created n ≡ false))
        ⊎ ((n < num_salt_threads) × (o.salt_created n ≡ false)))

missing_thread :
    (created : ℕ → Bool) (left n m : ℕ)
    → create_threads created left n ≡ some m
    → (m < n + left) × (created m ≡ false)
unfolding create_threads
missing_thread created zero n m e = absurd cc
missing_thread created (suc left) n m e = elim (Bool-cases (created n)) [
  | inl yes_made ↦
      let rest = missing_thread created left (n + 1) m (rw yes_made at e) in
      (omega (arith, rest.0), rest.1)
  | inr not_made ↦ first_missing n m (rw not_made at e) not_made
]
  where
    first_missing :
        (n m : ℕ)
        → ◌≡◌ {A = Option ℕ} (some n) (some m)
        → created n ≡ false
        → (m < n + suc left) × (created m ≡ false)
    first_missing n m e f = ground (arith, e, f)

-- No call moves more bytes than it was asked for, and the threads are those of the program.
pub record Allowed (o : Outside) : Type 0 where
  pub wide : o.device_bytes < 2 ^ 64
  pub zero_writes : (n b : ℕ) → Bounded ((o.zero_calls n).writes b)
  pub salt_writes : (n b : ℕ) → Bounded ((o.salt_calls n).writes b)
  pub zero_below : Below num_zero_threads o.zero_order
  pub salt_below : Below num_salt_threads o.salt_order

zero_threads-Within :
    (device_bytes : ℕ) (calls : ℕ → Calls) (order : List ℕ) (dev : Bytes)
    → device_bytes < 2 ^ 64
    → ((n b : ℕ) → Bounded ((calls n).writes b))
    → Below num_zero_threads order
    → (dev' : Bytes) × (zero_threads (plan_of device_bytes) calls order dev ≡ some dev')
      × Within dev 0 device_bytes dev'
unfolding zero_threads
zero_threads-Within device_bytes calls [] dev wide w b = (dev, refl, λ x. inl refl)
zero_threads-Within device_bytes calls (n ∷ order) dev wide w (l, b) =
    let (dev1, e1, within1) = run_zero-KeepsOthers device_bytes (calls n) dev (w n) wide n l in
    let (dev2, e2, within2) = zero_threads-Within device_bytes calls order dev1 wide w b in
    (dev2, rw (e1) e2, λ x. ground (arith, within1 x, within2 x, part_end-le device_bytes n l))

salt_threads-Within :
    (o : Outside) (plan : Plan) (order : List ℕ) (dev : Bytes)
    → discover_num_blocks true o.device_bytes ≡ some plan
    → plan.num_large_blocks * large_block_bytes ≤ o.device_bytes
    → Allowed o
    → Below num_salt_threads order
    → (dev' : Bytes) × (salt_threads o plan order dev ≡ some dev')
      × Within dev 0 o.device_bytes dev'
unfolding salt_threads
salt_threads-Within o plan [] dev d fits a b = (dev, refl, λ x. inl refl)
salt_threads-Within o plan (n ∷ order) dev d fits a (l, b) =
    let (dev1, e1, within1) =
      run_salt-Within o.device_bytes plan (o.salt_calls n) (thread_seeds o n) (o.buffers n) n dev d
        a.wide l (a.salt_writes n) in
    let (dev2, e2, within2) = salt_threads-Within o plan order dev1 d fits a b in
    (
      dev2,
      rw (e1) e2,
      λ x. ground (arith, within1 x, within2 x, salt_end-le plan.num_large_blocks n l, fits),
    )

-- How `main`, or a part of it, ends.
abbrev pub EndsWithin : Outside → Bytes → Option Outcome → Type 0
EndsWithin o dev r = (outcome : Outcome) × (r ≡ some outcome) × StaysWithin o dev outcome

module _ (o : Outside) (a : Allowed o) where
  begin_salting-EndsWithin :
      (plan : Plan) (dev dev1 : Bytes) (missing : Option ℕ)
      → create_threads o.salt_created num_salt_threads 0 ≡ missing
      → discover_num_blocks true o.device_bytes ≡ some plan
      → plan.num_large_blocks * large_block_bytes ≤ o.device_bytes
      → Within dev 0 o.device_bytes dev1
      → EndsWithin o dev (begin_salting o plan dev1 missing)
  unfolding begin_salting
  begin_salting-EndsWithin plan dev dev1 (some n) c d fits w =
      (_, refl, (refl, inr (missing_thread o.salt_created num_salt_threads 0 n c)))
  begin_salting-EndsWithin plan dev dev1 none c d fits w =
      let (dev2, e2, within2) =
        salt_threads-Within o plan o.salt_order dev1 d fits a a.salt_below in
      (exited 0 dev2, rw (e2) refl, λ x. ground (arith, w x, within2 x))

  begin_zeroing-EndsWithin :
      (dev : Bytes) (missing : Option ℕ)
      → create_threads o.zero_created num_zero_threads 0 ≡ missing
      → discover_num_blocks true o.device_bytes ≡ some (plan_of o.device_bytes)
      → EndsWithin o dev (begin_zeroing o (plan_of o.device_bytes) dev missing)
  unfolding begin_zeroing
  begin_zeroing-EndsWithin dev (some n) c d =
      (_, refl, (refl, inl (missing_thread o.zero_created num_zero_threads 0 n c)))
  begin_zeroing-EndsWithin dev none c d =
      let (dev1, e1, within1) =
        zero_threads-Within o.device_bytes o.zero_calls o.zero_order dev a.wide a.zero_writes
          a.zero_below in
      rw (e1) (
        begin_salting-EndsWithin (plan_of o.device_bytes) dev dev1
          (create_threads o.salt_created num_salt_threads 0) refl d (omega arith) within1)

  main_begins :
      (argc : ℕ) (dev : Bytes)
      → (argc == 2) ≡ true
      → o.opened ≡ true
      → o.zero_buffer_allocated ≡ true
      → main argc o dev
        ≡ begin_zeroing o
            (plan_of o.device_bytes)
            dev
            (create_threads o.zero_created num_zero_threads 0)
  unfolding main prepare discover_num_blocks
  main_begins argc dev two opened allocated = simp (two, opened, allocated) refl

  -- Whatever arguments the program is given and whatever its calls return, as long as none of them moves
  -- more bytes than it was asked for, `main` ends: with no byte beyond the size of the device changed, or
  -- with 255 at a thread that could not be created, where nothing is said of the device. Either it exits
  -- with the device as it was, or there was one argument, the device could be opened
  -- and the zero buffer was allocated.
  pub main-Within :
      (argc : ℕ) (dev : Bytes)
      → EndsWithin o dev (main argc o dev)
        × (((status : ℕ) × (main argc o dev ≡ some (exited status dev)))
            ⊎ ((argc ≡ 2) × (o.opened ≡ true) × (o.zero_buffer_allocated ≡ true)))
  unfolding main prepare discover_num_blocks
  main-Within argc dev = elim (Bool-cases (argc == 2)) [
    | inr other ↦ rw other ((_, refl, λ x. inl refl), inl (_, refl))
    | inl two ↦ elim (Bool-cases o.opened) [
      | inr closed ↦ rw (two, closed) ((_, refl, λ x. inl refl), inl (_, refl))
      | inl opened ↦ elim (Bool-cases o.zero_buffer_allocated) [
        | inr none_left ↦ rw (two, opened, none_left) ((_, refl, λ x. inl refl), inl (_, refl))
        | inl allocated ↦ (
          subst (EndsWithin o dev) (sym (main_begins argc dev two opened allocated)) (
              begin_zeroing-EndsWithin dev (create_threads o.zero_created num_zero_threads 0) refl
                refl),
          inr (==→eq argc 2 two, opened, allocated),
        )
      ]
    ]
  ]
