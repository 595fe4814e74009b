-- ===== src/Prep/Stopped.antt =====
-- `run_zero` of act_prep.c where its calls may fail: the part of the device that a thread writes to.
use act.Common.{
  ℕ, zero, suc, ◌+◌, ◌*◌, ◌/◌, ◌%◌, ◌^◌, ◌≤◌, ◌<◌, ◌≡◌, inl, inr, refl, ap, ◌∙◌, subst, arith,
  Bool-cases, dec_lt, Option, some, Bool,
}
use act.Common.Memory.{Bytes}
use act.Common.Word.{u64}
use act.Io.{Syscall, write_all}
use act.Io.Transfer.{Bounded, write_all-Moved}
use act.Prep.{Calls, num_zero_threads, large_block_bytes, zero_buffer, zero_loop, run_zero}
use act.Prep.Zero.{part_start, part_end, plan_of, zero_range}
use act.Prep.Salt.{Within}

-- A write that its calls may stop changes nothing but the bytes asked for.
write_stops :
    (sys : Syscall) (dev buf : Bytes) (position size : ℕ)
    → Bounded sys
    → size ≤ large_block_bytes
    → (done : Bool) × (dev' : Bytes) × (moved : ℕ) × (write_all
          (large_block_bytes + 1)
          sys
          dev
          position
          buf
          size
        ≡ some (done, dev', position + moved))
      × (moved ≤ size)
      × Within dev position (position + size) dev'
write_stops sys dev buf position size w h =
    let m =
      write_all-Moved (large_block_bytes + 1) sys dev buf size position w (omega arith)
        (omega arith) in
    (m.done, m.result, m.moved, m.ends, m.within, λ x. ground (arith, m.bytes x, m.within))

zero_loop-Within :
    (writes : ℕ → Syscall) (left b : ℕ) (dev : Bytes) (position : ℕ)
    → ((k : ℕ) → Bounded (writes k))
    → (dev' : Bytes) × (moved : ℕ) × (zero_loop writes left b dev position
        ≡ some (dev', position + moved))
      × (moved ≤ left * large_block_bytes)
      × Within dev position (position + left * large_block_bytes) dev'
unfolding zero_loop
zero_loop-Within writes zero b dev position w =
    (dev, 0, ap (λ p. some (dev, p)) (omega arith), omega arith, λ x. inl refl)
zero_loop-Within writes (suc left) b dev position w =
    let (done, dev1, moved1, e1, le1, within1) =
      write_stops (writes b) dev zero_buffer position large_block_bytes (w b) (omega arith) in
    elim (Bool-cases done) [
      | inl more ↦
          let (dev2, moved2, e2, le2, within2) =
            zero_loop-Within writes left (b + 1) dev1 (position + moved1) w in
          (
            dev2,
            moved1 + moved2,
            rw (e1, more) (e2 ∙ ap (λ p. some (dev2, p)) (omega arith)),
            omega arith,
            λ x. ground (arith, within1 x, within2 x),
          )
      | inr failed ↦
          (dev1, moved1, rw (e1, failed) refl, omega arith, λ x. ground (arith, within1 x))
    ]

-- A zero thread ends, whatever its calls return, and changes no byte outside its part.
module _ (device_bytes : ℕ) (calls : Calls) (dev : Bytes) (w : (b : ℕ) → Bounded (calls.writes b))
    (wide : device_bytes < 2 ^ 64) where
  abbrev pub KeepsOthers : ℕ → Option Bytes → Type 0
  KeepsOthers n r =
      (dev' : Bytes) × (r ≡ some dev')
      × Within dev (part_start device_bytes n) (part_end device_bytes n) dev'

  last_thread-KeepsOthers : KeepsOthers 7 (run_zero (plan_of device_bytes) calls 7 dev)
  unfolding run_zero
  last_thread-KeepsOthers = elim (Bool-cases calls.opened) [
    | inr closed ↦ (dev, rw closed refl, λ x. inl refl)
    | inl opened ↦ elim (Bool-cases calls.sought) [
      | inr lost ↦ (dev, rw (opened, lost) refl, λ x. inl refl)
      | inl sought ↦
          let (dev1, moved1, e1, le1, within1) =
            zero_loop-Within calls.writes blocks 0 dev start w in
          let (done, dev2, moved2, e2, le2, within2) =
            write_stops (calls.writes blocks) dev1 zero_buffer (start + moved1)
              (device_bytes % large_block_bytes) (w blocks) (omega arith) in
          (dev2, rw (opened, sought, e1, e2) refl, λ x. ground (arith, within1 x, within2 x))
    ]
  ]
    where
      start : ℕ
      start = u64 (u64 (7 * (device_bytes / large_block_bytes / 8)) * large_block_bytes)

      blocks : ℕ
      blocks = u64 (device_bytes / large_block_bytes / 8 + device_bytes / large_block_bytes % 8)

  other_thread-KeepsOthers :
      (n : ℕ) → n < 7 → KeepsOthers n (run_zero (plan_of device_bytes) calls n dev)
  unfolding run_zero
  other_thread-KeepsOthers n h = elim (Bool-cases calls.opened) [
    | inr closed ↦ (dev, rw closed refl, λ x. inl refl)
    | inl opened ↦ elim (Bool-cases calls.sought) [
      | inr lost ↦ (dev, rw (opened, lost) refl, λ x. inl refl)
      | inl sought ↦
          let per : ℕ = device_bytes / large_block_bytes / 8 in
          let (other, start, ends) = zero_range device_bytes n wide h in
          let (dev1, moved1, e1, le1, within1) =
            zero_loop-Within calls.writes per 0 dev (u64 (u64 (n * per) * large_block_bytes)) w in
          (dev1, rw (opened, sought, other, e1) refl, λ x. ground (arith, within1 x, start, ends))
    ]
  ]

  pub run_zero-KeepsOthers :
      (n : ℕ) → n < num_zero_threads → KeepsOthers n (run_zero (plan_of device_bytes) calls n dev)
  run_zero-KeepsOthers n h = elim (dec_lt n 7) [
    | yes p ↦ other_thread-KeepsOthers n p
    | no np ↦
        subst (λ k. KeepsOthers k (run_zero (plan_of device_bytes) calls k dev))
          (let e : 7 ≡ n = omega arith in e) last_thread-KeepsOthers
  ]
