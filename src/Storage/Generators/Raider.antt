-- ===== src/Storage/Generators/Raider.antt =====
-- The offsets that the tomb raider of act_storage.c reads from.
use native.Mathlib.Nat.{
  mul-le-mul_right, add-mul, one-mul, mod-lt, mod-eq_of_lt, mod_self, suc-mod, zero-mul, zero-mod,
  mul-lt-mul_of_pos_right,
}
use act.Common.{
  ℕ, zero, suc, ◌+◌, ◌*◌, ◌%◌, ◌^◌, ◌<◌, ◌≡◌, inl, inr, sym, ap, ◌∙◌, true, arith, ◌==◌, ==→eq,
  ==_false→ne, Bool-cases, if◌then◌else◌,
}
use act.StorageCfg.{StorageCfg}
use act.Storage.{Device}
use act.Storage.Generators.{next_raid}

-- The offset of the n-th read, from 0 on.
abbrev pub raid : {D : Type 0} → StorageCfg D → Device → ℕ → ℕ
raid cfg dev zero = 0
raid cfg dev (suc n) = next_raid cfg dev (raid cfg dev n)

next_eq : (k : ℕ) → suc k ≡ k + 1
next_eq k = omega arith

module _ {D : Type 0} (cfg : StorageCfg D) (dev : Device) (p : 0 < dev.n_large_blocks)
    (q : 0 < cfg.large_block_ops_bytes)
    (w : dev.n_large_blocks * cfg.large_block_ops_bytes < 2 ^ 64) where
  step_lem :
      (k : ℕ)
      → k < dev.n_large_blocks
      → next_raid cfg dev (k * cfg.large_block_ops_bytes)
        ≡ (if k + 1 == dev.n_large_blocks then 0 else (k + 1) * cfg.large_block_ops_bytes)
  unfolding next_raid
  step_lem k h =
      let room =
        mul-le-mul_right {m = k + 1} {n = dev.n_large_blocks} cfg.large_block_ops_bytes
          (omega arith) in
      let split =
        add-mul k 1 cfg.large_block_ops_bytes
        ∙ ap (λ m. k * cfg.large_block_ops_bytes + m) (one-mul cfg.large_block_ops_bytes) in
      elim (Bool-cases (k + 1 == dev.n_large_blocks)) [
        | inl last ↦
            let same = ap (λ m. m * cfg.large_block_ops_bytes) (==→eq _ _ last) in
            rw (last) (ground (arith, split, same))
        | inr more ↦
            let strict =
              mul-lt-mul_of_pos_right {m = k + 1} {n = dev.n_large_blocks}
                {k = cfg.large_block_ops_bytes} (omega (arith, ==_false→ne _ _ more)) q in
            rw (more) (ground (arith, split, strict))
      ]

  wrapped :
      (n : ℕ)
      → (n % dev.n_large_blocks + 1 == dev.n_large_blocks) ≡ true
      → suc (n % dev.n_large_blocks) ≡ dev.n_large_blocks
  wrapped n e = omega (arith, ==→eq (n % dev.n_large_blocks + 1) dev.n_large_blocks e)

  wrap_lem :
      (n : ℕ)
      → (if n % dev.n_large_blocks + 1 == dev.n_large_blocks
          then 0
          else (n % dev.n_large_blocks + 1) * cfg.large_block_ops_bytes)
        ≡ suc n % dev.n_large_blocks * cfg.large_block_ops_bytes
  wrap_lem n = elim (Bool-cases (n % dev.n_large_blocks + 1 == dev.n_large_blocks)) [
    | inl last ↦ rw (last) (
        sym (
          ap (λ m. m * cfg.large_block_ops_bytes)
            (suc-mod n dev.n_large_blocks
              ∙ ap (λ m. m % dev.n_large_blocks) (wrapped n last)
              ∙ mod_self dev.n_large_blocks)
          ∙ zero-mul cfg.large_block_ops_bytes))
    | inr more ↦ rw (more) (
        sym (
          ap (λ m. m * cfg.large_block_ops_bytes)
            (suc-mod n dev.n_large_blocks
              ∙ mod-eq_of_lt (omega (arith, ==_false→ne _ _ more, mod-lt n p))
              ∙ next_eq (n % dev.n_large_blocks))))
  ]

  -- The n-th read of the tomb raider is of the large block n modulo their number.
  pub raid-block : (n : ℕ) → raid cfg dev n ≡ n % dev.n_large_blocks * cfg.large_block_ops_bytes
  raid-block zero = sym (
      ap (λ m. m * cfg.large_block_ops_bytes) (zero-mod dev.n_large_blocks)
      ∙ zero-mul cfg.large_block_ops_bytes)
  raid-block (suc n) =
      ap (next_raid cfg dev) (raid-block n)
      ∙ step_lem (n % dev.n_large_blocks) (mod-lt n p)
      ∙ wrap_lem n
