-- ===== src/Storage/LargeBlocks.antt =====
-- src/storage/act_storage.c: the threads that read and write large blocks at a constant rate.
use act.Common.{
  ℕ, ◌+◌, ◌-◌, ◌*◌, ◌^◌, ◌≤◌, ◌<◌, ◌≡◌, Bool, true, false, Option, some, List, [], ◌∷◌, arith,
}
use act.Common.Memory.{Heap}
use act.Common.Partial.{◌>>=◌}
use act.Common.Word.{u64, sub64}
use act.StorageCfg.{StorageCfg, DoubleOps}
use act.Storage.{Device}
use act.Storage.Descriptors.{Answers}
use act.Storage.Generators.{Pace, sleep, go_on, stop_test, pace_of}
use act.Storage.Generators.Pacing.{Paced, paced_lem}
use act.Storage.Transactions.{Worker, read_and_report_large_block, write_and_report_large_block}

-- What the system answers to one operation, and the times before it and after it.
pub record Turn : Type 0 where
  pub answers : Answers
  pub start_time : ℕ
  pub now_us : ℕ

module _ (ops : DoubleOps) (to_u64 : ops.Double → ℕ) (cfg : StorageCfg ops.Double) where
  -- When the operation after `count` of them is due; `rate` is that of all devices together.
  unfoldable pub target_us : ops.Double → ℕ → ℕ
  target_us rate count =
      to_u64 (ops.div (ops.of_ℕ (u64 (u64 (count * 1000000) * cfg.num_devices))) rate)

  unfoldable pub large_block_pace : ops.Double → ℕ → ℕ → ℕ → Pace
  large_block_pace rate run_start_us count now_us =
      pace_of cfg.max_lag_usec (sub64 (target_us rate count) (sub64 now_us run_start_us))

  -- What a loop does after an operation: `more` are the rounds after it. The first result is
  -- `g_running`.
  abbrev pub paced : Option (Bool × Worker) → Worker → Pace → Option (Bool × Worker)
  paced more w stop_test = some (false, w)
  paced more w go_on = more
  paced more w (sleep us) = more

  -- The loop of both threads: one round for each turn, after which another thread ends the test.
  pub large_block_loop :
      (Answers → ℕ → Worker → Option Worker)
      → ops.Double
      → ℕ
      → List Turn
      → ℕ
      → Worker
      → Option (Bool × Worker)
  large_block_loop operate rate run_start_us [] count w = some (true, w)
  large_block_loop operate rate run_start_us (t ∷ turns) count w = do
    w' ← operate t.answers t.start_time w
    let count' = u64 (count + 1)
    paced (large_block_loop operate rate run_start_us turns count' w') w'
        (large_block_pace rate run_start_us count' t.now_us)

  module _ (heap : Heap) (dev : Device) where
    -- `allocated` says whether `act_valloc` returns a buffer.
    pub run_large_block_reads : Bool → ℕ → List Turn → Worker → Option (Bool × Worker)
    run_large_block_reads false run_start_us turns w = some (false, w)
    run_large_block_reads true run_start_us turns w =
        large_block_loop (read_and_report_large_block heap cfg dev) cfg.large_block_reads_per_sec
          run_start_us turns 0 w

    pub run_large_block_writes : Bool → ℕ → List Turn → Worker → Option (Bool × Worker)
    run_large_block_writes false run_start_us turns w = some (false, w)
    run_large_block_writes true run_start_us turns w =
        large_block_loop (write_and_report_large_block heap cfg dev) cfg.large_block_writes_per_sec
          run_start_us turns 0 w

  -- A thread that is ahead of its rate sleeps until it is due, one that is behind by no more than the
  -- limit goes on at once, and one that is behind by more stops the test.
  pub large_block_pace-Paced :
      (rate : ops.Double) (run_start_us count now_us : ℕ)
      → run_start_us ≤ now_us
      → now_us < 2 ^ 62
      → target_us rate count < now_us - run_start_us + 2 ^ 32
      → Paced cfg.max_lag_usec
          (now_us - run_start_us)
          (target_us rate count)
          (large_block_pace rate run_start_us count now_us)
  unfolding large_block_pace
  large_block_pace-Paced rate run_start_us count now_us started short soon = rw elapsed (
      paced_lem cfg.max_lag_usec (now_us - run_start_us) (target_us rate count)
        (omega (arith, short)) soon)
    where
      elapsed : sub64 now_us run_start_us ≡ now_us - run_start_us
      elapsed = omega (arith, started, short)
