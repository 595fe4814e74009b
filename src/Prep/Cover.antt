-- ===== src/Prep/Cover.antt =====
-- The zero threads of act_prep.c together.
use act.Common.{
  ℕ, zero, suc, ◌+◌, ◌/◌, ◌^◌, ◌≤◌, ◌<◌, ◌≡◌, ◌⊎◌, inr, refl, subst, true, arith, if◌then◌else◌,
  dec_lt, ltb, Option, some, List, [], ◌∷◌,
}
use act.Common.Memory.{Bytes}
use act.Prep.{Plan, Calls, num_zero_threads, large_block_bytes, discover_num_blocks, zero_threads}
use act.Prep.Zero.{part_start, part_end, plan_of, AllWork, run_zero-Zeroes}
use native.Mathlib.Nat.{mul-le-mul_right, zero-mul}

-- Thread `n` owns the byte `x`.
abbrev Owns : ℕ → ℕ → ℕ → Type 0
Owns device_bytes n x = (part_start device_bytes n ≤ x) × (x < part_end device_bytes n)

owner_below :
    (device_bytes n x : ℕ)
    → n < num_zero_threads
    → x < part_start device_bytes n
    → (k : ℕ) × (k < num_zero_threads) × Owns device_bytes k x
owner_below device_bytes zero x h l =
    absurd (omega (arith, zero-mul (device_bytes / large_block_bytes / 8)))
owner_below device_bytes (suc n) x h l = elim (dec_lt x (part_start device_bytes n)) [
  | yes p ↦ owner_below device_bytes n x (omega arith) p
  | no np ↦ (n, omega arith, (omega arith, ground arith))
]

-- Every byte of the device has an owner.
owner :
    (device_bytes x : ℕ)
    → x < device_bytes
    → (k : ℕ) × (k < num_zero_threads) × Owns device_bytes k x
owner device_bytes x l = elim (dec_lt x (part_start device_bytes 7)) [
  | yes p ↦ owner_below device_bytes 7 x (omega arith) p
  | no np ↦ (7, omega arith, (omega arith, l))
]

-- No part reaches beyond the device.
pub part_end-le :
    (device_bytes n : ℕ) → n < num_zero_threads → part_end device_bytes n ≤ device_bytes
part_end-le device_bytes n h =
    ground (arith, mul-le-mul_right {m = n + 1} {n = 7} (device_bytes / large_block_bytes / 8))

abbrev pub Below : ℕ → List ℕ → Type 0
Below m [] = Unit {0}
Below m (n ∷ ns) = (n < m) × Below m ns

abbrev pub Has : ℕ → List ℕ → Type 0
Has k [] = ⊥
Has k (n ∷ ns) = (n ≡ k) ⊎ Has k ns

module _ (device_bytes : ℕ) (calls : ℕ → Calls) (a : (n : ℕ) → AllWork (calls n))
    (wide : device_bytes < 2 ^ 64) where
  -- After the threads of `order`: a byte of theirs is zero, and one that is not zero is as before.
  abbrev Covered : List ℕ → Bytes → Option Bytes → Type 0
  Covered order dev r =
      (dev' : Bytes) × (r ≡ some dev')
      × ((x : ℕ) → ((dev' x ≡ 0) × (x < device_bytes)) ⊎ (dev' x ≡ dev x))
      × ((x k : ℕ) → Has k order → Owns device_bytes k x → dev' x ≡ 0)

  covers :
      (order : List ℕ) (dev : Bytes)
      → Below num_zero_threads order
      → Covered order dev (zero_threads (plan_of device_bytes) calls order dev)
  unfolding zero_threads
  covers [] dev b = (dev, refl, λ x. inr refl, λ x k h o. absurd h)
  covers (n ∷ order) dev (l, b) =
      let (dev1, e1, bytes1) = run_zero-Zeroes device_bytes (calls n) dev (a n) wide n l in
      let (dev2, e2, keeps, zeroes) = covers order dev1 b in
      (
        dev2,
        rw (e1) e2,
        λ x. ground (arith, keeps x, bytes1 x, part_end-le device_bytes n l),
        λ x k h o. ground (arith, keeps x, bytes1 x, zeroes x k, h, o),
      )

-- `run_zero` in all the threads, in whatever order, when no call fails: every byte of the device is
-- zero, and nothing beyond its end is written.
pub zero_threads-covers :
    (device_bytes : ℕ) (plan : Plan) (calls : ℕ → Calls) (order : List ℕ) (dev : Bytes)
    → discover_num_blocks true device_bytes ≡ some plan
    → ((n : ℕ) → AllWork (calls n))
    → device_bytes < 2 ^ 64
    → Below num_zero_threads order
    → ((k : ℕ) → k < num_zero_threads → Has k order)
    → (dev' : Bytes) × (zero_threads plan calls order dev ≡ some dev')
      × ((x : ℕ) → dev' x ≡ (if ltb x device_bytes then 0 else dev x))
unfolding discover_num_blocks
zero_threads-covers device_bytes plan calls order dev d a wide b h =
    let same : plan_of device_bytes ≡ plan = ground (arith, d) in
    let (dev', e, keeps, zeroes) = covers device_bytes calls a wide order dev b in
    (
      dev',
      subst (λ p. zero_threads p calls order dev ≡ some dev') same e,
      λ x.
          by_owner x dev' (keeps x)
            (λ l. let (k, p, o) = owner device_bytes x l in zeroes x k (h k p) o),
    )
  where
    by_owner :
        (x : ℕ) (dev' : Bytes)
        → ((dev' x ≡ 0) × (x < device_bytes)) ⊎ (dev' x ≡ dev x)
        → (x < device_bytes → dev' x ≡ 0)
        → dev' x ≡ (if ltb x device_bytes then 0 else dev x)
    by_owner x dev' keeps zeroes = ground arith
