-- ===== src/Index/Threads/Rounds.antt =====
-- What a round of a generator of act_index.c comes to, and the pace of its threads.
use act.Common.{
  ltb→lt, ltb_false→le, lt→ltb, ==→eq, ==_false→ne, ℕ, ◌+◌, ◌-◌, ◌*◌, ◌/◌, ◌%◌, ◌^◌, ◌≤◌, ◌<◌, ◌≡◌,
  ◌⊎◌, inl, inr, refl, true, Option, none, some, ◌==◌, ltb, arith, ne→==_false, Bool-cases,
}
use act.Common.Word.{u32, u64, sub64}
use act.Random.{Seeds}
use act.IndexCfg.{IndexCfg}
use act.Storage.Generators.{Pace, pace_of}
use act.Storage.Generators.Pacing.{Paced, paced_lem}
use act.Index.Places.{IsPlace}
use act.Index.Transactions.{System}
use act.Index.Transactions.Report.{IsSystem, choose-IsPlace}
use act.Index.Threads.{Round, too_many, queued, generator_pace, generate_read_req, cache_pace}

-- The rate of one generator.
abbrev pub rate : IndexCfg → ℕ
rate cfg = cfg.trans_thread_reads_per_sec / cfg.service_threads

-- The microseconds after which `count` requests are due, at `n` requests of a factor in microseconds.
abbrev pub due_at : ℕ → ℕ → ℕ → ℕ
due_at count factor n = count * factor / n

fits : (n : ℕ) → n < 2 ^ 64 → u64 n ≡ n
fits n h = omega arith

module _ (cfg : IndexCfg) (run_start count now : ℕ) (started : run_start ≤ now)
    (short : now < 2 ^ 62) where
  elapsed : sub64 now run_start ≡ now - run_start
  elapsed = omega arith

  pub generator_pace-Paced :
      count * 1000000 < 2 ^ 64
      → due_at count 1000000 (rate cfg) < now - run_start + 2 ^ 32
      → 0 < rate cfg
      → (p : Pace) × (generator_pace cfg run_start count now ≡ some p)
        × Paced cfg.max_lag_usec (now - run_start) (due_at count 1000000 (rate cfg)) p
  unfolding generator_pace
  generator_pace-Paced narrow soon some_rate =
      rw (ne→==_false (rate cfg) 0 (λ e. omega (arith, e, some_rate)), exact, elapsed)
        (
          _,
          refl,
          paced_lem cfg.max_lag_usec (now - run_start) (due_at count 1000000 (rate cfg))
              (omega arith) soon,
        )
    where
      exact : u64 (count * 1000000) ≡ count * 1000000
      exact = omega arith

  -- The time that an operation of each of the cache threads takes, by a number per second.
  abbrev pub factor_us : ℕ
  factor_us = 1000000 * cfg.num_devices * cfg.cache_threads

  pub cache_pace-Paced :
      count * factor_us < 2 ^ 64
      → factor_us < 2 ^ 64
      → 1000000 * cfg.num_devices < 2 ^ 64
      → due_at count factor_us cfg.cache_thread_reads_and_writes_per_sec < now - run_start + 2 ^ 32
      → 0 < cfg.cache_thread_reads_and_writes_per_sec
      → (p : Pace) × (cache_pace cfg run_start count now ≡ some p)
        × Paced cfg.max_lag_usec
            (now - run_start)
            (due_at count factor_us cfg.cache_thread_reads_and_writes_per_sec)
            p
  unfolding cache_pace
  cache_pace-Paced narrow factor devices soon some_rate =
      rw
        (
          ne→==_false cfg.cache_thread_reads_and_writes_per_sec 0
              (λ e. omega (arith, e, some_rate)),
          fits (1000000 * cfg.num_devices) devices,
          fits factor_us factor,
          fits (count * factor_us) narrow,
          elapsed,
        )
        (
          _,
          refl,
          paced_lem cfg.max_lag_usec (now - run_start)
              (due_at count factor_us cfg.cache_thread_reads_and_writes_per_sec) (omega arith) soon,
        )

module _ (cfg : IndexCfg) (sys : System) (run_start start_ns now count reqs_queued : ℕ) where
  -- By its pace a generator waits for the time that its next request is due after `run_start`.
  abbrev pub pace_due : ℕ → Pace
  pace_due n = pace_of cfg.max_lag_usec (sub64 (u64 (n * 1000000) / rate cfg) (sub64 now run_start))

  -- What a round of a generator comes to, with `reqs_queued` requests before it.
  pub data Generated : Option (Round × ℕ × Seeds) → Type 0 where
    refused :
        (s : Seeds)
        → cfg.max_reqs_queued < reqs_queued + 1
        → Generated (some (too_many, reqs_queued + 1, s))
    generated :
        (d offset : ℕ) (s : Seeds)
        → reqs_queued + 1 ≤ cfg.max_reqs_queued
        → d < cfg.num_devices
        → IsPlace (sys.devices d).n_io_offsets offset
        → count % cfg.num_queues < cfg.num_queues
        → 0 < rate cfg
        → Generated (
            some (
              queued
                  (count % cfg.num_queues)
                  (record { dev = d; offset = offset; start_time = start_ns })
                  (pace_due (count + 1)),
              reqs_queued + 1,
              s,
            ))
    crashed : reqs_queued + 1 ≤ cfg.max_reqs_queued → rate cfg ≡ 0 → Generated none

  pace_cases :
      (n : ℕ)
      → ((rate cfg ≡ 0) × (generator_pace cfg run_start n now ≡ none))
        ⊎ ((0 < rate cfg) × (generator_pace cfg run_start n now ≡ some (pace_due n)))
  unfolding generator_pace
  pace_cases n = elim (Bool-cases (rate cfg == 0)) [
    | inl e ↦ rw e (inl (omega (arith, ==→eq (rate cfg) 0 e), refl))
    | inr e ↦ rw e (inr (ground (arith, ==_false→ne (rate cfg) 0 e), refl))
  ]

  -- A round of a generator stops the test where the limit on the requests is passed; otherwise its
  -- request, at a place of a device, goes to the next queue in turn, and it goes on by the pace at which
  -- the request after it is due. A round within the limit divides by zero exactly where the reads of the
  -- transaction threads are fewer than the generators.
  pub generate_read_req-Generated :
      (s : Seeds)
      → IsSystem cfg sys
      → reqs_queued + 1 < 2 ^ 31
      → 0 < cfg.num_queues
      → cfg.num_queues < 2 ^ 32
      → Generated (generate_read_req cfg sys run_start start_ns now count reqs_queued s)
  unfolding generate_read_req
  generate_read_req-Generated s v few some_queue queues =
      let (d, offset, s', chosen, exists, place) = choose-IsPlace cfg sys s v in
      elim (Bool-cases (ltb cfg.max_reqs_queued (reqs_queued + 1))) [
        | inl over ↦
            rw (counted, over, small)
              (refused s (ltb→lt cfg.max_reqs_queued (reqs_queued + 1) over))
        | inr under ↦
            let room = ltb_false→le cfg.max_reqs_queued (reqs_queued + 1) under in
            elim (pace_cases (count + 1)) [
              | inl (zero_rate, e) ↦ rw (counted, under, chosen, e) (crashed room zero_rate)
              | inr (some_rate, e) ↦
                  rw (counted, under, chosen, e, turn)
                    (generated d offset s' room exists place (omega (arith, some_queue)) some_rate)
            ]
      ]
    where
      counted : u32 (reqs_queued + 1) ≡ reqs_queued + 1
      counted = omega arith

      small : ltb (reqs_queued + 1) (2 ^ 31) ≡ true
      small = lt→ltb (reqs_queued + 1) (2 ^ 31) few

      turn : u32 (count % cfg.num_queues) ≡ count % cfg.num_queues
      turn = omega (arith, queues, some_queue)
