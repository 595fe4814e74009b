-- ===== src/Tests/Prepared.antt =====
-- `main` of act_prep at a device of nineteen large blocks and a half.
use act.Common.{◌==◌, if◌then◌else◌, ℕ, ◌+◌, ◌/◌, ◌≡◌, ◌⊎◌, refl, true, false, some, arith}
use act.Prep.{large_block_bytes}
use act.Prep.Filled.{SaltsWork}
use act.Prep.Main.{Outside, Outcome.exited, main}
use act.Prep.Main.Device.{Healthy, Prepared, main-Salted}
use act.Prep.Main.Failing.{Allowed, EndsWithin, main-Within}
use act.Tests.Given.{short_calls-Bounded}
use act.Tests.Preps.{device_bytes, calls, works, order, order-Below, order-Has}

abbrev outside : Outside
outside = record {
  opened = true;
  device_bytes = device_bytes;
  zero_buffer_allocated = true;
  zero_created = λ n. true;
  zero_calls = λ n. calls;
  zero_order = order;
  salt_created = λ n. true;
  salt_calls = λ n. calls;
  salt_order = order;
  rand = λ n i. 100 + n + i;
  buffers = λ n x. 7;
}

salts_work : SaltsWork calls
salts_work = record { allocated = refl; others = works }

healthy : Healthy outside
healthy = record {
  opened = refl;
  wide = omega arith;
  allocated = refl;
  zero_created = λ n. refl;
  zero_works = λ n. works;
  zero_below = order-Below;
  zero_all = order-Has;
  salt_created = λ n. refl;
  salt_works = λ n. salts_work;
  salt_below = order-Below;
  salt_all = order-Has;
}

main-Salted_example :
    (dev' : ℕ → ℕ) × (main 2 outside (λ x. 1) ≡ some (exited 0 dev'))
    × ((x : ℕ) → Prepared outside (λ y. 1) dev' (device_bytes / large_block_bytes) x)
main-Salted_example = main-Salted outside (λ x. 1) healthy

-- The third salt thread cannot be created.
abbrev lacking : Outside
lacking = record outside { salt_created = λ n. if n == 2 then false else true }

allowed : Allowed lacking
allowed = record {
  wide = omega arith;
  zero_writes = λ n b. short_calls-Bounded;
  salt_writes = λ n b. short_calls-Bounded;
  zero_below = order-Below;
  salt_below = order-Below;
}

main-Within_example :
    EndsWithin lacking (λ x. 1) (main 2 lacking (λ x. 1))
    × (((status : ℕ) × (main 2 lacking (λ x. 1) ≡ some (exited status (λ x. 1))))
        ⊎ ((◌≡◌ {A = ℕ} 2 2) × (lacking.opened ≡ true) × (lacking.zero_buffer_allocated ≡ true)))
main-Within_example = main-Within lacking allowed 2 (λ x. 1)
