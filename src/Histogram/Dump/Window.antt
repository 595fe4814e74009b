-- ===== src/Histogram/Dump/Window.antt =====
-- What `histogram_dump` prints: every bucket that is not empty, and their sum.
use act.Common.{
  ℕ, zero, suc, ◌+◌, ◌-◌, ◌%◌, ◌^◌, ◌≤◌, ◌<◌, ◌≡◌, ◌≢◌, ◌⊎◌, inl, inr, refl, sym, ap, ap₂, ◌∙◌,
  subst, List, [], ◌∷◌, ◌++◌, ◌==◌, ltb, dec_lt, if◌then◌else◌, arith, Bool-cases, ==→eq,
  ==_false→ne, eq→==,
}
use mathlib.Core.List.{append-nil}
use act.Common.Lists.{length, get_or}
use act.Common.Text.{Text}
use act.Common.Word.{u64}
use act.Histogram.Dump.{column, Extent, extent_loop}
use act.Histogram.Dump.Printed.{window}

-- The columns of the buckets that are not empty, from the bucket `b` on.
abbrev pub columns : ℕ → List ℕ → List Text
columns b [] = []
columns b (n ∷ counts) =
    let later = columns (b + 1) counts in if n == 0 then later else column b n ∷ later

abbrev pub sum : List ℕ → ℕ
sum [] = 0
sum (n ∷ counts) = n + sum counts

module _ (whole : List ℕ) where
  abbrev pub get : ℕ → ℕ
  get b = get_or whole b 0

  window-append : (m n i : ℕ) → window (m + n) whole i ≡ window m whole i ++ window n whole (i + m)
  window-append zero n i = ap₂ (λ m k. window m whole k) (omega arith) (omega arith)
  window-append (suc m) n i =
      ap (λ k. window k whole i) (omega_left m n) ∙ elim (Bool-cases (get i == 0)) [
        | inl z ↦ rw z (window-append m n (i + 1) ∙ shift)
        | inr p ↦ rw p (ap (λ t. column i (get i) ∷ t) (window-append m n (i + 1) ∙ shift))
      ]
    where
      omega_left : (a b : ℕ) → suc a + b ≡ suc (a + b)
      omega_left a b = omega arith

      shift :
          window m whole (i + 1) ++ window n whole (i + 1 + m)
          ≡ window m whole (i + 1) ++ window n whole (i + suc m)
      shift = ap (λ k. window m whole (i + 1) ++ window n whole k) (omega arith)

  window-empty : (n i : ℕ) → ((b : ℕ) → i ≤ b → b < i + n → get b ≡ 0) → window n whole i ≡ []
  window-empty zero i h = refl
  window-empty (suc n) i h =
      rw (eq→== (get i) 0 (h i (omega arith) (omega arith)))
        (window-empty n (i + 1) (λ b l u. h b (omega (arith, l)) (omega (arith, u))))

  window-columns :
      (rest : List ℕ) (b : ℕ)
      → ((k : ℕ) → get (b + k) ≡ get_or rest k 0)
      → window (length rest) whole b ≡ columns b rest
  window-columns [] b h = refl
  window-columns (n ∷ rest) b h =
      let here : get b ≡ n = ap get (omega_zero b) ∙ h 0 in
      let later = window-columns rest (b + 1) (λ k. ap get (omega_suc b k) ∙ h (suc k)) in
      rw (here, later) refl
    where
      omega_zero : (m : ℕ) → m ≡ m + 0
      omega_zero m = omega arith

      omega_suc : (m k : ℕ) → m + 1 + k ≡ m + suc k
      omega_suc m k = omega arith

  -- The buckets below `b` that are not empty are within the extent.
  abbrev pub Covers : ℕ → Extent → Type 0
  Covers b e = ((x : ℕ) → x < b → get x ≢ 0 → (e.i ≤ x) × (x ≤ e.j)) × ((e.j < b) ⊎ (e.j ≡ 0))

  one_bucket :
      (n b : ℕ) (e : Extent)
      → get b ≡ n
      → Covers b e
      → Covers (b + 1) (
          if n == 0 then e else record {
            i = if ltb b e.i then b else e.i;
            j = b;
            total_count = u64 (e.total_count + n);
          })
  one_bucket n b e here (within, last) = elim (Bool-cases (n == 0)) [
    | inl z ↦ rw z (λ x l nz. within x (below x l nz (here ∙ ==→eq n 0 z)) nz, later last)
    | inr p ↦ rw p (λ x l nz. (lower x l nz, omega (arith, l)), inl (omega arith))
  ]
    where
      below : (x : ℕ) → x < b + 1 → get x ≢ 0 → get b ≡ 0 → x < b
      below x l nz z = ground (arith, l, nz, z)

      later : (e.j < b) ⊎ (e.j ≡ 0) → (e.j < b + 1) ⊎ (e.j ≡ 0)
      later (inl l) = inl (omega (arith, l))
      later (inr z) = inr z

      lower : (x : ℕ) → x < b + 1 → get x ≢ 0 → (if ltb b e.i then b else e.i) ≤ x
      lower x l nz = elim (dec_lt x b) [
        | yes k ↦ ground (arith, within x k nz)
        | no k ↦ ground (arith, k, l)
      ]

  pub extent_loop-Covers :
      (rest : List ℕ) (b : ℕ) (e : Extent)
      → ((k : ℕ) → get (b + k) ≡ get_or rest k 0)
      → Covers b e
      → Covers (b + length rest) (extent_loop b rest e)
  unfolding extent_loop
  extent_loop-Covers [] b e h c = subst (λ k. Covers k e) (omega arith) c
  extent_loop-Covers (n ∷ rest) b e h c =
      subst (λ k. Covers k (extent_loop b (n ∷ rest) e)) (omega_suc b (length rest))
        (extent_loop-Covers rest (b + 1) _ (λ k. ap get (omega_suc b k) ∙ h (suc k))
          (one_bucket n b e (ap get (omega_zero b) ∙ h 0) c))
    where
      omega_zero : (m : ℕ) → m ≡ m + 0
      omega_zero m = omega arith

      omega_suc : (m k : ℕ) → m + 1 + k ≡ m + suc k
      omega_suc m k = omega arith

  -- The columns of the extent are those of all buckets.
  pub window-extent :
      (e : Extent)
      → Covers (length whole) e
      → 0 < length whole
      → window (e.j + 1 - e.i) whole e.i ≡ columns 0 whole
  window-extent e (within, last) some_bucket = elim (dec_lt e.j e.i) [
    | yes empty ↦
        ap (λ k. window k whole e.i) (omega_none empty)
        ∙ sym (window-empty (length whole) 0 (λ b l u. none_there empty b (omega (arith, u))))
        ∙ window-columns whole 0 (λ k. ap get (omega arith))
    | no some_there ↦ trimmed (omega (arith, some_there)) (last_bucket last)
  ]
    where
      omega_none : e.j < e.i → e.j + 1 - e.i ≡ 0
      omega_none l = omega arith

      none_there : e.j < e.i → (b : ℕ) → b < length whole → get b ≡ 0
      none_there empty b l = elim (Bool-cases (get b == 0)) [
        | inl z ↦ ==→eq (get b) 0 z
        | inr nz ↦ absurd (omega (arith, empty, within b l (==_false→ne (get b) 0 nz)))
      ]

      last_bucket : (e.j < length whole) ⊎ (e.j ≡ 0) → e.j < length whole
      last_bucket (inl l) = l
      last_bucket (inr z) = omega (arith, z, some_bucket)

      outside : (b : ℕ) → b < length whole → (b < e.i) ⊎ (e.j < b) → get b ≡ 0
      outside b l away = elim (Bool-cases (get b == 0)) [
        | inl z ↦ ==→eq (get b) 0 z
        | inr nz ↦ absurd (ground (arith, away, within b l (==_false→ne (get b) 0 nz)))
      ]

      trimmed : e.i ≤ e.j → e.j < length whole → window (e.j + 1 - e.i) whole e.i ≡ columns 0 whole
      trimmed ordered l =
          let n = e.j + 1 - e.i in
          let after = length whole - (e.j + 1) in
          let none_before =
            window-empty e.i 0
              (λ b l' u. outside b (omega (arith, u, ordered, l)) (inl (omega (arith, u)))) in
          let none_after = window-empty after (e.i + n) (λ b l' u.
            outside b (omega (arith, l', u, ordered, l)) (inr (omega (arith, l', ordered)))) in
          sym (append-nil (window n whole e.i))
          ∙ ap (λ t. window n whole e.i ++ t) (sym none_after)
          ∙ sym (window-append n after e.i)
          ∙ ap (λ t. t ++ window (n + after) whole e.i) (sym none_before)
          ∙ ap (λ k. window e.i whole 0 ++ window (n + after) whole k) (omega arith)
          ∙ sym (window-append e.i (n + after) 0)
          ∙ ap (λ k. window k whole 0) (omega (arith, ordered, l))
          ∙ window-columns whole 0 (λ k. ap get (omega arith))

  pub extent_loop-sum :
      (rest : List ℕ) (b : ℕ) (e : Extent)
      → (extent_loop b rest e).total_count % 2 ^ 64 ≡ (e.total_count + sum rest) % 2 ^ 64
  unfolding extent_loop
  extent_loop-sum [] b e = omega arith
  extent_loop-sum (n ∷ rest) b e = extent_loop-sum rest (b + 1) _ ∙ ground arith

  pub extent_loop-small :
      (rest : List ℕ) (b : ℕ) (e : Extent)
      → e.total_count < 2 ^ 64
      → (extent_loop b rest e).total_count < 2 ^ 64
  unfolding extent_loop
  extent_loop-small [] b e h = h
  extent_loop-small (n ∷ rest) b e h = extent_loop-small rest (b + 1) _ (ground arith)
