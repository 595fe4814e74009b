-- ===== src/Io/Transfer.antt =====
-- The loops of io.h: how they end, and what they have transferred.
use act.Common.{
  ℕ, zero, suc, ◌+◌, ◌-◌, ◌^◌, ◌≤◌, ◌<◌, ◌≡◌, refl, ap, ◌∙◌, ◌⊎◌, inl, inr, Bool, true, false,
  Option, some, arith, Bool-cases, ◌==◌, ==→eq, ==_false→ne, ne→==_false, ◌%◌,
}
use act.Common.Int.{ℤ, pos, negsuc}
use act.Common.Memory.{Bytes, memcpy}
use act.Common.Word.{sub64}
use act.Io.{Syscall, transfer_all, pread_all, pwrite_all, write_all}

-- The documented contract: no call transfers more than it was asked for.
abbrev pub Bounded : Syscall → Type 0
Bounded sys = (i size n : ℕ) → sys i size ≡ pos n → n ≤ size

-- The call that a failed loop ends with: an error, or nothing transferred of the bytes asked for.
abbrev pub Stopped : ℤ → ℕ → Type 0
Stopped (pos n) left = (n ≡ 0) × (0 < left)
Stopped (negsuc e) left = Unit {0}

-- A loop that returns true has moved everything; one that returns false was stopped by a call.
abbrev pub Outcome : Syscall → ℕ → ℕ → Bool → Type 0
Outcome sys size moved true = moved ≡ size
Outcome sys size moved false = (i : ℕ) × (left : ℕ) × Stopped (sys i left) left

-- The first `moved` of `size` bytes were transferred, and nothing else was written. All of them were,
-- or some call stopped the loop.
pub record Moved (sys : Syscall) (dst : Bytes) (d : ℕ) (src : Bytes) (s size : ℕ)
    (r : Option (Bool × Bytes × ℕ)) : Type 0 where
  pub done : Bool
  pub result : Bytes
  pub moved : ℕ
  pub ends : r ≡ some (done, result, d + moved)
  pub bytes : (x : ℕ) → result x ≡ memcpy dst d src s moved x
  pub within : moved ≤ size
  pub outcome : Outcome sys size moved done

ℤ-cases : (z : ℤ) → ((n : ℕ) × (z ≡ pos n)) ⊎ ((e : ℕ) × (z ≡ negsuc e))
ℤ-cases (pos n) = inl (n, refl)
ℤ-cases (negsuc e) = inr (e, refl)

memcpy_more :
    (dst src : Bytes) (d s n m x : ℕ)
    → memcpy (memcpy dst d src s n) (d + n) src (s + n) m x ≡ memcpy dst d src s (n + m) x
memcpy_more dst src d s n m x = ground arith

nothing : (dst src : Bytes) (d s x : ℕ) → dst x ≡ memcpy dst d src s 0 x
nothing dst src d s x = ground arith

-- A call that moved `n` bytes, and then the rest.
extend :
    {sys : Syscall} {r : Option (Bool × Bytes × ℕ)} {left : ℕ} (dst : Bytes) (d : ℕ) (src : Bytes)
    (s size n : ℕ)
    → n ≤ size
    → left ≡ size - n
    → Moved sys (memcpy dst d src s n) (d + n) src (s + n) left r
    → Moved sys dst d src s size r
extend {sys} {left} dst d src s size n h l m = record {
  done = m.done;
  result = m.result;
  moved = n + m.moved;
  ends = m.ends ∙ ap (λ t. some (m.done, m.result, t)) (omega arith);
  bytes = λ x. m.bytes x ∙ memcpy_more dst src d s n m.moved x;
  within = omega (arith, m.within);
  outcome = widen m.done m.outcome;
}
  where
    widen : (done : Bool) → Outcome sys left m.moved done → Outcome sys size (n + m.moved) done
    widen true e = omega (arith, e)
    widen false e = e

-- With more fuel than bytes, which are fewer than 2 ^ 63, the loop ends.
pub transfer_all-Moved :
    (fuel : ℕ) (sys : Syscall) (i : ℕ) (dst : Bytes) (d : ℕ) (src : Bytes) (s size : ℕ)
    → Bounded sys
    → size < 2 ^ 63
    → size < fuel
    → Moved sys dst d src s size (transfer_all fuel sys i dst d src s size)
unfolding transfer_all
transfer_all-Moved zero sys i dst d src s size b l f = absurd (omega arith)
transfer_all-Moved (suc fuel) sys i dst d src s size b l f = elim (ℤ-cases (sys i size)) [
  | inr (e, failed) ↦
      rw (failed, transfer_all, negative (suc (e % 2 ^ 63)) (omega arith))
        (record {
          done = false;
          result = dst;
          moved = 0;
          ends = ap (λ t. some (false, dst, t)) (omega arith);
          bytes = nothing dst src d s;
          within = omega arith;
          outcome = (i, size, rw failed tt);
        })
  | inl (n, e) ↦ elim (Bool-cases (n == size)) [
    | inl whole ↦
        rw (e, transfer_all, whole)
          (record {
            done = true;
            result = memcpy dst d src s n;
            moved = n;
            ends = refl;
            bytes = λ x. refl;
            within = b i size n e;
            outcome = ==→eq _ _ whole;
          })
    | inr part ↦ elim (Bool-cases (n == 0)) [
      | inl none_moved ↦
          rw (e, transfer_all, part, none_moved)
            (record {
              done = false;
              result = dst;
              moved = 0;
              ends = ap (λ t. some (false, dst, t)) (omega arith);
              bytes = nothing dst src d s;
              within = omega arith;
              outcome = (
                i,
                size,
                rw e (
                  ==→eq _ _ none_moved,
                  omega (arith, ==_false→ne _ _ part, ==→eq _ _ none_moved),
                ),
              );
            })
      | inr some_moved ↦
          let left : sub64 size n ≡ size - n = omega (arith, b i size n e) in
          let rest =
            transfer_all-Moved fuel sys (i + 1) (memcpy dst d src s n) (d + n) src (s + n)
              (sub64 size n) b (omega arith)
              (omega (arith, b i size n e, ==_false→ne _ _ some_moved)) in
          rw (e, transfer_all, part, some_moved)
            (extend dst d src s size n (b i size n e) left rest)
    ]
  ]
]
  where
    negative : (k : ℕ) → k ≤ 2 ^ 63 → (size + k == 2 ^ 64) ≡ false
    negative k h = ne→==_false (size + k) (2 ^ 64) (λ p. omega (arith, p, h, l))

-- With more fuel than bytes, which are fewer than 2 ^ 63, `pread_all` ends. Of `size` bytes it has read the first ones, in order, and touched nothing else;
-- where it returns true these are all, and where it returns false a call failed or read nothing.
pub pread_all-Moved :
    (fuel : ℕ) (sys : Syscall) (file buf : Bytes) (size offset : ℕ)
    → Bounded sys
    → size < 2 ^ 63
    → size < fuel
    → Moved sys buf 0 file offset size (pread_all fuel sys file buf size offset)
unfolding pread_all
pread_all-Moved fuel sys file buf size offset b l f =
    transfer_all-Moved fuel sys 0 buf 0 file offset size b l f

-- The same of `pwrite_all`, for the bytes of the file from `offset` on.
pub pwrite_all-Moved :
    (fuel : ℕ) (sys : Syscall) (file buf : Bytes) (size offset : ℕ)
    → Bounded sys
    → size < 2 ^ 63
    → size < fuel
    → Moved sys file offset buf 0 size (pwrite_all fuel sys file buf size offset)
unfolding pwrite_all
pwrite_all-Moved fuel sys file buf size offset b l f =
    transfer_all-Moved fuel sys 0 file offset buf 0 size b l f

-- The same of `write_all`, for the bytes from the position on, which moves with them.
pub write_all-Moved :
    (fuel : ℕ) (sys : Syscall) (file buf : Bytes) (size position : ℕ)
    → Bounded sys
    → size < 2 ^ 63
    → size < fuel
    → Moved sys file position buf 0 size (write_all fuel sys file position buf size)
unfolding write_all
write_all-Moved fuel sys file buf size position b l f =
    transfer_all-Moved fuel sys 0 file position buf 0 size b l f

-- Calls that do not fail, and move something where something is left.
abbrev pub Works : Syscall → Type 0
Works sys = (i size : ℕ) → (n : ℕ) × (sys i size ≡ pos n) × (n ≤ size) × ((size ≡ 0) ⊎ (0 < n))

pub Works-Bounded : (sys : Syscall) → Works sys → Bounded sys
Works-Bounded sys w i size n e = let (m, em, le, _) = w i size in ground (arith)

not-Stopped : (sys : Syscall) (i left : ℕ) → Works sys → ¬ (Stopped (sys i left) left)
not-Stopped sys i left w s =
    let (m, em, _, some_moved) = w i left in absurd (refuse some_moved (rw em at s))
  where
    refuse : {m : ℕ} → (left ≡ 0) ⊎ (0 < m) → (m ≡ 0) × (0 < left) → ⊥
    refuse p q = omega (arith, p, q)

abbrev pub AllMoved : Bytes → ℕ → Bytes → ℕ → ℕ → Option (Bool × Bytes × ℕ) → Type 0
AllMoved dst d src s size r =
    (result : Bytes) × (r ≡ some (true, result, d + size))
    × ((x : ℕ) → result x ≡ memcpy dst d src s size x)

-- With calls that work everything is moved.
module _ {sys : Syscall} (w : Works sys) (dst : Bytes) (d : ℕ) (src : Bytes) (s size : ℕ)
    (r : Option (Bool × Bytes × ℕ)) where
  by-Outcome :
      (done : Bool) (result : Bytes) (moved : ℕ)
      → Outcome sys size moved done
      → r ≡ some (done, result, d + moved)
      → ((x : ℕ) → result x ≡ memcpy dst d src s moved x)
      → AllMoved dst d src s size r
  by-Outcome true result moved e ends bytes = (
    result,
    ends ∙ ap (λ n. some (true, result, d + n)) e,
    λ x. bytes x ∙ ap (λ n. memcpy dst d src s n x) e,
  )
  by-Outcome false result moved (i, left, st) ends bytes = absurd (not-Stopped sys i left w st)

  pub moves_all : Moved sys dst d src s size r → AllMoved dst d src s size r
  moves_all m = by-Outcome m.done m.result m.moved m.outcome m.ends m.bytes
