-- ===== src/Index/Threads.antt =====
-- src/index/act_index.c: the request generators and the cache threads, one round of the loop of each.
pub mod Rounds
pub mod Load
use act.Common.{
  ℕ, zero, suc, ◌+◌, ◌-◌, ◌*◌, ◌/◌, ◌%◌, ◌^◌, Bool, true, false, ◌&&◌, Option, none, some, ◌==◌,
  ltb, leb, if◌then◌else◌,
}
use act.Common.Memory.{Heap}
use act.Common.Partial.{◌>>=◌}
use act.Common.Word.{u32, u64, sub64}
use act.Random.{Seeds, rand_32}
use act.IndexCfg.{IndexCfg}
use act.Storage.Descriptors.{Answers}
use act.Storage.Generators.{Pace, pace_of}
use act.Index.{Device, TransReq, bundle_size, random_io_offset}
use act.Index.Transactions.{System, Thread, choose, read_cache_and_report, write_cache_and_report}

-- What one round of a generator does: the test is stopped because too many requests are queued, or a
-- request goes to a queue and the thread continues by `Pace`.
pub data Round : Type 0 where
  too_many : Round
  queued : ℕ → TransReq → Pace → Round

-- The pace of a generator; `none` is a division by zero.
unfoldable pub generator_pace : IndexCfg → ℕ → ℕ → ℕ → Option Pace
generator_pace cfg run_start_us count now_us =
    let trans_thread_reads_per_sec = cfg.trans_thread_reads_per_sec / cfg.service_threads in
    if trans_thread_reads_per_sec == 0
    then none
    else some (
        pace_of cfg.max_lag_usec
          (sub64 (u64 (count * 1000000) / trans_thread_reads_per_sec) (sub64 now_us run_start_us)))

-- `reqs_queued` is `g_reqs_queued`, the pattern of an int32_t; the second result is its new value.
-- `start_ns` and `now_us` are the times that the clock returns.
unfoldable pub generate_read_req :
    IndexCfg → System → ℕ → ℕ → ℕ → ℕ → ℕ → Seeds → Option (Round × ℕ × Seeds)
generate_read_req cfg sys run_start_us start_ns now_us count reqs_queued s =
    let reqs_queued' = u32 (reqs_queued + 1) in
    if ltb cfg.max_reqs_queued reqs_queued' && ltb reqs_queued' (2 ^ 31)
    then some (too_many, reqs_queued', s)
    else (do
      (d, offset, s') ← choose cfg sys s
      next ← generator_pace cfg run_start_us (count + 1) now_us
      some (
        queued (u32 (count % cfg.num_queues))
            (record { dev = d; offset = offset; start_time = start_ns }) next,
        reqs_queued',
        s',
      ))

-- What the system answers to a read and a write of a cache thread, and when they start.
pub record CacheAnswers : Type 0 where
  pub read : Answers
  pub read_start : ℕ
  pub write : Answers
  pub write_start : ℕ

-- The pace of a cache thread; `none` is a division by zero.
unfoldable pub cache_pace : IndexCfg → ℕ → ℕ → ℕ → Option Pace
cache_pace cfg run_start_us count now_us =
    let target_factor = u64 (u64 (1000000 * cfg.num_devices) * cfg.cache_threads) in
    if cfg.cache_thread_reads_and_writes_per_sec == 0
    then none
    else some (
        pace_of cfg.max_lag_usec (
          sub64 (u64 (count * target_factor) / cfg.cache_thread_reads_and_writes_per_sec)
            (sub64 now_us run_start_us)))

module _ (heap : Heap) (cfg : IndexCfg) where
  -- The inner loop of `run_cache_simulation`, with `n` rounds left from the round `i` on.
  pub cache_ops : (ℕ → CacheAnswers) → ℕ → ℕ → Thread → System → Option (Thread × System)
  cache_ops answers i zero t sys = some (t, sys)
  cache_ops answers i (suc n) t sys = do
    (t1, sys1) ← read_cache_and_report heap cfg (answers i).read (answers i).read_start t sys
    (t2, sys2) ← write_cache_and_report heap cfg (answers i).write (answers i).write_start t1 sys1
    cache_ops answers (i + 1) n t2 sys2

  -- One round of the outer loop: its pace, and the new count.
  pub run_cache_simulation :
      (ℕ → CacheAnswers) → ℕ → ℕ → ℕ → Thread → System → Option (Pace × ℕ × Thread × System)
  run_cache_simulation answers run_start_us now_us count t sys = do
    (t', sys') ← cache_ops answers 0 bundle_size t sys
    let count' = u64 (count + bundle_size)
    next ← cache_pace cfg run_start_us count' now_us
    some (next, count', t', sys')
