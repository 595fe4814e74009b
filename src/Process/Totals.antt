-- ===== src/Process/Totals.antt =====
-- What calls add up to, by a weight for each call.
use native.Mathlib.Nat.{add-mul, one-mul, zero-mul, add-zero, zero-add, mul-le-mul_right}
use act.Common.{
  ℕ, zero, suc, ◌+◌, ◌*◌, ◌^◌, ◌≤◌, ◌<◌, ◌≡◌, refl, sym, ap, ap₂, ◌∙◌, Bool, true, false, List, [],
  ◌∷◌, ◌++◌, if◌then◌else◌, arith, Bool-cases, inl, inr,
}
use act.Common.Word.{u32}
use act.Process.{
  Event, creates_histogram, creates_queue, creates_thread, joins, destroys_queue, frees_histogram,
  for_from, when, until_failure, may_fail,
}

-- The sum of `g k`, `g (k + 1)` and so on, `n` of them.
abbrev pub sum_from : ℕ → ℕ → (ℕ → ℕ) → ℕ
sum_from k zero g = 0
sum_from k (suc n) g = g k + sum_from (k + 1) n g

pub sum_from-add :
    (k n : ℕ) (g h : ℕ → ℕ) → sum_from k n (λ i. g i + h i) ≡ sum_from k n g + sum_from k n h
sum_from-add k zero g h = omega arith
sum_from-add k (suc n) g h = omega (arith, sum_from-add (k + 1) n g h)

sum_from-split :
    (k n m : ℕ) (g : ℕ → ℕ) → sum_from k (n + m) g ≡ sum_from k n g + sum_from (k + n) m g
sum_from-split k zero m g = omega (
  arith,
  ap₂ (λ a b. sum_from a b g) (let e : k ≡ k + 0 = omega arith in e)
      (let e : 0 + m ≡ m = omega arith in e),
)
sum_from-split k (suc n) m g =
    ap (λ a. sum_from k a g) (let e : suc n + m ≡ suc (n + m) = omega arith in e)
    ∙ omega (
      arith,
      sum_from-split (k + 1) n m g,
      ap (λ a. sum_from a m g) (let e : k + suc n ≡ k + 1 + n = omega arith in e),
    )

sum_from-shift : (k d n : ℕ) (g : ℕ → ℕ) → sum_from k n (λ i. g (d + i)) ≡ sum_from (d + k) n g
sum_from-shift k d zero g = refl
sum_from-shift k d (suc n) g =
    ap (λ b. g (d + k) + b)
      (sum_from-shift (k + 1) d n g
        ∙ ap (λ a. sum_from a n g) (let e : d + (k + 1) ≡ d + k + 1 = omega arith in e))

-- Rows of `t` make one sequence.
rows_from :
    (k q t : ℕ) (g : ℕ → ℕ)
    → sum_from k q (λ i. sum_from 0 t (λ j. g (i * t + j))) ≡ sum_from (k * t) (q * t) g
rows_from k zero t g = ap (λ n. sum_from (k * t) n g) (sym (zero-mul t))
rows_from k (suc q) t g =
    let next : (k + 1) * t ≡ k * t + t = add-mul k 1 t ∙ ap (λ a. k * t + a) (one-mul t) in
    let more : suc q * t ≡ t + q * t =
      ap (λ a. a * t) (let e : suc q ≡ 1 + q = omega arith in e)
      ∙ add-mul 1 q t
      ∙ ap (λ a. a + q * t) (one-mul t) in
    ap₂ (λ a b. a + b)
      (sum_from-shift 0 (k * t) t g
        ∙ ap (λ a. sum_from a t g) (let e : k * t + 0 ≡ k * t = omega arith in e))
      (rows_from (k + 1) q t g ∙ ap (λ a. sum_from a (q * t) g) next)
    ∙ sym (sum_from-split (k * t) t (q * t) g)
    ∙ ap (λ a. sum_from (k * t) a g) (sym more)

pub rows :
    (q t : ℕ) (g : ℕ → ℕ)
    → sum_from 0 q (λ i. sum_from 0 t (λ j. g (i * t + j))) ≡ sum_from 0 (q * t) g
rows q t g = rows_from 0 q t g ∙ ap (λ a. sum_from a (q * t) g) (zero-mul t)

-- Sums whose terms are the same.
pub sum_from-same :
    (k n : ℕ) (g h : ℕ → ℕ)
    → ((i : ℕ) → k ≤ i → i < k + n → g i ≡ h i)
    → sum_from k n g ≡ sum_from k n h
sum_from-same k zero g h e = refl
sum_from-same k (suc n) g h e =
    ap₂ (λ a b. a + b) (e k (omega arith) (omega arith))
      (sum_from-same (k + 1) n g h (λ i l u. e i (omega arith) (omega arith)))

-- The slots of `n_trans_tids` threads, in rows of `t`, by 32-bit arithmetic.
pub slots :
    (q t : ℕ) (g : ℕ → ℕ)
    → q * t < 2 ^ 32
    → sum_from 0 q (λ i. sum_from 0 t (λ j. g (u32 (u32 (i * t) + j)))) ≡ sum_from 0 (u32 (q * t)) g
slots q t g small =
    sum_from-same 0 q (λ i. sum_from 0 t (λ j. g (u32 (u32 (i * t) + j))))
      (λ i. sum_from 0 t (λ j. g (i * t + j)))
      (λ i l u.
        sum_from-same 0 t (λ j. g (u32 (u32 (i * t) + j))) (λ j. g (i * t + j))
          (λ j m v. ap g (slot i j (omega arith) (omega arith))))
    ∙ rows q t g
    ∙ ap (λ n. sum_from 0 n g) (let e : q * t ≡ u32 (q * t) = omega arith in e)
  where
    slot : (i j : ℕ) → i < q → j < t → u32 (u32 (i * t) + j) ≡ i * t + j
    slot i j hi hj = omega (
      arith,
      small,
      mul-le-mul_right {m = i + 1} {n = q} t (omega arith),
      add-mul i 1 t,
      one-mul t,
    )

pub sum_from-zero : (k n : ℕ) → sum_from k n (λ i. 0) ≡ 0
sum_from-zero k zero = refl
sum_from-zero k (suc n) = omega (arith, sum_from-zero (k + 1) n)

pub sum_from-if :
    (k n : ℕ) (b : Bool) (g : ℕ → ℕ)
    → sum_from k n (λ i. if b then g i else 0) ≡ (if b then sum_from k n g else 0)
sum_from-if k n true g = refl
sum_from-if k n false g = sum_from-zero k n

pub if_same : (b : Bool) (n : ℕ) → (if b then n else n) ≡ n
if_same true n = refl
if_same false n = refl

module _ {Thread Queue Hist : Type 0} (w : Event Thread Queue Hist → ℕ) where
  -- The weights of all calls together.
  abbrev pub total : List (Event Thread Queue Hist) → ℕ
  total [] = 0
  total (e ∷ calls) = w e + total calls

  pub total-append : (a b : List (Event Thread Queue Hist)) → total (a ++ b) ≡ total a + total b
  total-append [] b = omega arith
  total-append (e ∷ a) b = omega (arith, total-append a b)

  pub total-for_from :
      (k n : ℕ) (body : ℕ → List (Event Thread Queue Hist))
      → total (for_from k n body) ≡ sum_from k n (λ i. total (body i))
  total-for_from k zero body = refl
  total-for_from k (suc n) body =
      total-append (body k) (for_from (k + 1) n body)
      ∙ ap (λ a. total (body k) + a) (total-for_from (k + 1) n body)

  pub total-when :
      (b : Bool) (calls : List (Event Thread Queue Hist))
      → total (when b calls) ≡ (if b then total calls else 0)
  total-when true calls = refl
  total-when false calls = refl

-- Every call is made where none fails.
pub until_failure-all :
    {Thread Queue Hist : Type 0} (ok : Event Thread Queue Hist → Bool)
    (calls : List (Event Thread Queue Hist))
    → ((e : Event Thread Queue Hist) → ok e ≡ true)
    → until_failure ok calls ≡ (calls, true)
unfolding until_failure
until_failure-all ok [] h = refl
until_failure-all ok (e ∷ calls) h =
    rw (h e, until_failure-all ok calls h)
      (elim (Bool-cases (may_fail e)) [ inl f ↦ rw f refl | inr f ↦ rw f refl ])

module _ {Thread Queue Hist : Type 0} where
  -- The weights of the threads created, and of those joined; and so for queues and histograms.
  abbrev pub threads_created : (Thread → ℕ) → Event Thread Queue Hist → ℕ
  threads_created f (creates_thread t) = f t
  threads_created f e = 0

  abbrev pub threads_joined : (Thread → ℕ) → Event Thread Queue Hist → ℕ
  threads_joined f (joins t) = f t
  threads_joined f e = 0

  abbrev pub queues_created : (Queue → ℕ) → Event Thread Queue Hist → ℕ
  queues_created f (creates_queue q) = f q
  queues_created f e = 0

  abbrev pub queues_destroyed : (Queue → ℕ) → Event Thread Queue Hist → ℕ
  queues_destroyed f (destroys_queue q) = f q
  queues_destroyed f e = 0

  abbrev pub hists_created : (Hist → ℕ) → Event Thread Queue Hist → ℕ
  hists_created f (creates_histogram h) = f h
  hists_created f e = 0

  abbrev pub hists_freed : (Hist → ℕ) → Event Thread Queue Hist → ℕ
  hists_freed f (frees_histogram h) = f h
  hists_freed f e = 0

-- The totals of calls in normal form.
pub ruleset total_laws = (
  total-append, total-for_from, total-when, add-zero, zero-add, sum_from-zero, sum_from-add,
  sum_from-if, if_same,
)
