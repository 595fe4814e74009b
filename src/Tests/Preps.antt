-- ===== src/Tests/Preps.antt =====
-- act_prep at concrete inputs.
use act.Common.{ℕ, ◌+◌, ◌*◌, ◌<◌, ◌≡◌, refl, true, some, arith, ltb, if◌then◌else◌, List, [], ◌∷◌}
use act.Common.Memory.{Bytes}
use act.Prep.{Plan, Calls, discover_num_blocks, zero_threads, num_zero_threads}
use act.Prep.Zero.{AllWork}
use act.Prep.Cover.{Below, Has, zero_threads-covers}
use act.Tests.Given.{short_calls, short_calls-Works}

-- Nineteen large blocks and a half.
abbrev pub device_bytes : ℕ
device_bytes = 19 * 131072 + 65536

abbrev plan : Plan
plan = record {
  num_large_blocks = 19;
  extra_bytes_to_zero = 65536;
  blocks_per_zero_thread = 2;
  blocks_per_salt_thread = 2;
  extra_blocks_to_zero = 3;
  extra_blocks_to_salt = 3;
}

discovers : discover_num_blocks true device_bytes ≡ some plan
unfolding discover_num_blocks
discovers = refl

abbrev pub calls : Calls
calls = record { allocated = true; opened = true; sought = true; writes = λ b. short_calls }

pub works : AllWork calls
works = record { opened = refl; sought = refl; writes = λ b. short_calls-Works }

abbrev pub order : List ℕ
order = 3 ∷ 1 ∷ 7 ∷ 0 ∷ 2 ∷ 6 ∷ 5 ∷ 4 ∷ []

pub order-Below : Below num_zero_threads order
order-Below = ground arith

pub order-Has : (k : ℕ) → k < num_zero_threads → Has k order
order-Has k h = ground arith

zero_threads_example :
    (dev' : Bytes) × (zero_threads plan (λ n. calls) order (λ i. 1) ≡ some dev')
    × ((x : ℕ) → dev' x ≡ (if ltb x device_bytes then 0 else 1))
zero_threads_example =
    zero_threads-covers device_bytes plan (λ n. calls) order (λ i. 1) discovers (λ n. works)
      (omega arith) order-Below order-Has
