-- ===== src/Storage/Sites.antt =====
-- The arithmetic of the request patterns of act_storage.c: units of `u` bytes on a device, the
-- number of them in a request, and where an offset and a size in units lie.
use native.Mathlib.Nat.{
  lt-div-mul-add, mul-le-mul_right, le-mul_of_pos_right, mod-lt, mod-eq_of_lt, mul-div_cancel,
  mul-mod_left, mul_assoc, mul_comm, add-mul, div-add-mod, div-mul-le_self, one-mul,
}
use act.Common.{ℕ, suc, ◌+◌, ◌-◌, ◌*◌, ◌/◌, ◌%◌, ◌^◌, ◌≤◌, ◌<◌, ◌≡◌, sym, ap, ◌∙◌, arith, dec_lt}
use act.Common.Word.{u32, u64, sub32, sub64}

-- Whole units in a large block, and the records fit it.
pub record Fits (large s s_rmx u n : ℕ) : Type 0 where
  pub unit : 0 < u
  pub whole : large % u ≡ 0
  pub small : large ≤ 2 ^ 30
  pub holds : 0 < s
  pub ordered : s ≤ s_rmx
  pub fits : s_rmx ≤ large
  pub some_blocks : 0 < n
  pub wide : n * large < 2 ^ 64

-- A request within `bytes`, of whole units of `u` bytes, and large enough for `s` bytes.
pub record Placed (bytes u s offset size : ℕ) : Type 0 where
  pub inside : offset + size ≤ bytes
  pub aligned : offset % u ≡ 0
  pub whole : size % u ≡ 0
  pub holds : s ≤ size

-- The number of units that hold `s` bytes, as the code computes it.
abbrev pub ceiling : ℕ → ℕ → ℕ
ceiling s u = sub32 (u32 (s + u)) 1 / u

-- What the division gives.
record Ceiling (s u b : ℕ) : Type 0 where
  above : s ≤ b * u
  below : b * u < s + u

ceiling_lem : (s u : ℕ) → 0 < u → 0 < s → s + u < 2 ^ 32 → Ceiling s u (ceiling s u)
ceiling_lem s u p q w = record {
  above = omega (arith, eq, lt-div-mul-add {a = s + u - 1} {b = u} p);
  below = omega (arith, eq, div-mul-le_self (s + u - 1) u);
}
  where
    eq : ceiling s u ≡ (s + u - 1) / u
    eq = ap (λ n. n / u) (omega arith)

-- Multiples of `u` are ordered as their factors.
factors-le : (u a b : ℕ) → a * u < b * u + u → a ≤ b
factors-le u a b h = elim (dec_lt b a) [
  | yes p ↦ ground (arith, mul-le-mul_right {m = suc b} {n = a} u p, add-mul b 1 u, one-mul u)
  | no np ↦ omega arith
]

-- The blocks of a pattern: `total` units on the device, `b` and `b_rmx` in the requests.
pub record Sites (bytes s u total b b_rmx : ℕ) : Type 0 where
  pub unit : 0 < u
  pub exact : total * u ≡ bytes
  pub wide : bytes < 2 ^ 64
  pub fits : b_rmx ≤ total
  pub ordered : b ≤ b_rmx
  pub some_units : 0 < b
  pub holds : s ≤ b * u
  pub narrow : b_rmx * u < 2 ^ 32

module _ {large s s_rmx u n : ℕ} (f : Fits large s s_rmx u n) where
  unit-le : u ≤ large
  unit-le = elim (dec_lt large u) [
    | yes p ↦ omega (arith, f.holds, f.ordered, f.fits, f.whole, mod-eq_of_lt p)
    | no np ↦ omega arith
  ]

  exact_lem : u64 (n * large) / u * u ≡ n * large
  exact_lem =
      ap (λ m. m / u * u) narrow
      ∙ ap (λ m. m / u * u) split
      ∙ ap (λ m. m * u) (mul-div_cancel (n * (large / u)) f.unit)
      ∙ sym split
    where
      narrow : u64 (n * large) ≡ n * large
      narrow = omega (arith, f.wide)

      whole : large ≡ large / u * u
      whole = omega (arith, div-add-mod large u, mul_comm u (large / u), f.whole)

      split : n * large ≡ n * (large / u) * u
      split = ap (λ m. n * m) whole ∙ sym (mul_assoc n (large / u) u)

  pub sites : Sites (n * large) s u (u64 (n * large) / u) (ceiling s u) (ceiling s_rmx u)
  sites =
      let c = ceiling_lem s u f.unit f.holds (omega (arith, f.ordered, f.fits, f.small, unit-le)) in
      let c_rmx =
        ceiling_lem s_rmx u f.unit (omega (arith, f.holds, f.ordered))
          (omega (arith, f.fits, f.small, unit-le)) in
      record {
        unit = f.unit;
        exact = exact_lem;
        wide = f.wide;
        fits = factors-le u (ceiling s_rmx u) (u64 (n * large) / u) (
            omega (
              arith,
              exact_lem,
              c_rmx.below,
              f.fits,
              le-mul_of_pos_right large f.some_blocks,
              mul_comm large n,
            ));
        ordered =
            factors-le u (ceiling s u) (ceiling s_rmx u)
              (omega (arith, c.below, c_rmx.above, f.ordered));
        some_units = factors-le u 1 (ceiling s u) (omega (arith, one-mul u, c.above, f.holds));
        holds = c.above;
        narrow = omega (arith, c_rmx.below, f.fits, f.small, unit-le);
      }

module _ {bytes s u total b b_rmx : ℕ} (v : Sites bytes s u total b b_rmx) where
  total-lt : total < 2 ^ 64
  total-lt = omega (arith, v.exact, v.wide, le-mul_of_pos_right total v.unit)

  -- An offset of `x` units leaves room for the largest request.
  pub offset_lem :
      (x : ℕ) → (k : ℕ) × (u64 (x % u64 (sub64 total b_rmx + 1) * u) ≡ k * u) × (k + b_rmx ≤ total)
  offset_lem x = (
    k,
    omega (arith, mul-le-mul_right {m = k} {n = total} u (omega (arith, k_bound)), v.exact, v.wide),
    omega (arith, k_bound, v.fits),
  )
    where
      sites_eq : u64 (sub64 total b_rmx + 1) ≡ total - b_rmx + 1
      sites_eq = omega (arith, total-lt, v.fits, v.ordered, v.some_units)

      k : ℕ
      k = x % u64 (sub64 total b_rmx + 1)

      k_bound : k < total - b_rmx + 1
      k_bound =
          omega
            (arith, sites_eq, mod-lt x {m = u64 (sub64 total b_rmx + 1)} (omega (arith, sites_eq)))

  -- A size is that of `k` units, from the smallest request to the largest.
  pub size_lem :
      (y : ℕ)
      → (k : ℕ) × (u32 (u32 (b * u) + u32 (u * (y % u32 (sub32 b_rmx b + 1)))) ≡ k * u)
        × (b ≤ k)
        × (k ≤ b_rmx)
  size_lem y = (
    b + k,
    omega (
      arith,
      product,
      mul-le-mul_right {m = b + k} {n = b_rmx} u (omega (arith, k_bound, v.ordered)),
      v.narrow,
      add-mul b k u,
    ),
    omega arith,
    omega (arith, k_bound, v.ordered),
  )
    where
      sizes_eq : u32 (sub32 b_rmx b + 1) ≡ b_rmx - b + 1
      sizes_eq = omega (arith, v.ordered, v.some_units, v.narrow, le-mul_of_pos_right b_rmx v.unit)

      k : ℕ
      k = y % u32 (sub32 b_rmx b + 1)

      product : u * k ≡ k * u
      product = mul_comm u k

      k_bound : k < b_rmx - b + 1
      k_bound =
          omega (arith, sizes_eq, mod-lt y {m = u32 (sub32 b_rmx b + 1)} (omega (arith, sizes_eq)))

  pub one_size_lem : u32 (b * u) ≡ b * u
  one_size_lem = omega (arith, v.narrow, mul-le-mul_right {m = b} {n = b_rmx} u v.ordered)

  pub placed_lem :
      (j k offset size : ℕ)
      → offset ≡ j * u
      → size ≡ k * u
      → j + b_rmx ≤ total
      → b ≤ k
      → k ≤ b_rmx
      → Placed bytes u s offset size
  placed_lem j k offset size eo es room low high = record {
    inside = omega (
      arith,
      eo,
      es,
      add-mul j k u,
      v.exact,
      mul-le-mul_right {m = j + k} {n = total} u (omega arith),
    );
    aligned = ap (λ m. m % u) eo ∙ mul-mod_left j u;
    whole = ap (λ m. m % u) es ∙ mul-mod_left k u;
    holds = omega (arith, es, v.holds, mul-le-mul_right {m = b} {n = k} u low);
  }
