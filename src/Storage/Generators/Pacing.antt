-- ===== src/Storage/Generators/Pacing.antt =====
-- How the generators of act_storage.c keep their pace, and the limit on the requests queued.
use act.Common.{ℕ, ◌+◌, ◌-◌, ◌*◌, ◌/◌, ◌^◌, ◌≤◌, ◌<◌, ◌≡◌, arith, dec_lt}
use act.Common.Word.{u64, sub64}
use act.Storage.Generators.{Pace, sleep, go_on, stop_test, pace, pace_of}

-- When the thread is next due, in microseconds since the start of the run.
abbrev pub due : ℕ → ℕ → ℕ
due count reqs_per_sec = count * 1000000 / reqs_per_sec

-- What a thread should do `elapsed` microseconds into the run.
pub data Paced (max_lag elapsed due_us : ℕ) : Pace → Type 0 where
  early : elapsed < due_us → Paced max_lag elapsed due_us (sleep (due_us - elapsed))
  in_time : due_us ≤ elapsed → elapsed ≤ due_us + max_lag → Paced max_lag elapsed due_us go_on
  late : due_us + max_lag < elapsed → Paced max_lag elapsed due_us stop_test

module _ (max_lag elapsed due_us : ℕ) (h : elapsed < 2 ^ 62) (k : due_us < elapsed + 2 ^ 32) where
  early_eq : elapsed < due_us → pace_of max_lag (sub64 due_us elapsed) ≡ sleep (due_us - elapsed)
  unfolding pace_of
  early_eq p = ground arith

  in_time_eq :
      due_us ≤ elapsed → elapsed ≤ due_us + max_lag → pace_of max_lag (sub64 due_us elapsed) ≡ go_on
  unfolding pace_of
  in_time_eq p q = ground arith

  late_eq : due_us + max_lag < elapsed → pace_of max_lag (sub64 due_us elapsed) ≡ stop_test
  unfolding pace_of
  late_eq p = ground arith

  pub paced_lem : Paced max_lag elapsed due_us (pace_of max_lag (sub64 due_us elapsed))
  paced_lem = elim (dec_lt elapsed due_us) [
    | yes p ↦ rw (early_eq p) (early p)
    | no np ↦ elim (dec_lt (due_us + max_lag) elapsed) [
      | yes q ↦ rw (late_eq q) (late q)
      | no nq ↦ rw (in_time_eq (omega arith) (omega arith)) (in_time (omega arith) (omega arith))
    ]
  ]

-- A thread that is ahead of its rate sleeps until it is due, one that is behind by no more than the
-- limit goes on at once, and one that is behind by more stops the test. The run must be shorter than
-- 2 ^ 62 microseconds, the requests below 2 ^ 64 / 1000000, and the sleep below 2 ^ 32.
pub pace-Paced :
    (max_lag reqs_per_sec run_start count now : ℕ)
    → 0 < reqs_per_sec
    → run_start ≤ now
    → now < 2 ^ 62
    → count * 1000000 < 2 ^ 64
    → due count reqs_per_sec < now - run_start + 2 ^ 32
    → Paced max_lag
        (now - run_start)
        (due count reqs_per_sec)
        (pace max_lag reqs_per_sec run_start count now)
unfolding pace
pace-Paced max_lag rate run_start count now p s w c d =
    rw (narrow, since) (paced_lem max_lag (now - run_start) (due count rate) (omega arith) d)
  where
    narrow : u64 (count * 1000000) ≡ count * 1000000
    narrow = omega arith

    since : sub64 now run_start ≡ now - run_start
    since = omega arith
