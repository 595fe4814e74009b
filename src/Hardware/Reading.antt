-- ===== src/Hardware/Reading.antt =====
-- `read_file` of hardware.c, in whatever pieces the system gives the file.
use act.Common.{
  ℕ, zero, suc, ◌+◌, ◌-◌, ◌≤◌, ◌<◌, ◌≡◌, ◌⊎◌, inl, inr, refl, sym, ap, ◌∙◌, Option, some, [], ◌∷◌,
  ◌++◌, ltb, arith, Bool-cases, ltb→lt, ltb_false→le, eq→==, ne→==_false,
}
use mathlib.Core.List.{append_assoc, append-nil}
use act.Common.Lists.{length, length-append}
use act.Common.Text.{Text}
use act.Hardware.{FileRes, ok, error, opened, Files, reading, read_loop, read_file}

-- `read` gives the bytes of the file in order, as many as it likes and no more than it is asked for,
-- and none only at the end.
abbrev pub Serves : (ℕ → ℕ → Option Text) → Text → Type 0
Serves read file =
    (before after : Text) (size : ℕ)
    → file ≡ before ++ after
    → 0 < size
    → (chunk : Text) × (rest : Text) × (read (length before) size ≡ some chunk)
      × (after ≡ chunk ++ rest)
      × (length chunk ≤ size)
      × ((chunk ≡ []) → after ≡ [])

-- The result for a file, with room for `limit` bytes.
abbrev pub ReadAll : ℕ → Text → Option (FileRes × Text) → Type 0
ReadAll limit file r =
    ((length file < limit) × (r ≡ some (ok, file)))
    ⊎ ((limit ≤ length file) × ((buf : Text) × (r ≡ some (error, buf))))

module _ (read : ℕ → ℕ → Option Text) (limit : ℕ) (file : Text) (serves : Serves read file) where
  read_loop-ReadAll :
      (fuel : ℕ) (before after : Text)
      → file ≡ before ++ after
      → length before ≤ limit
      → limit < length before + fuel
      → ReadAll limit file (read_loop fuel read limit before)
  unfolding read_loop
  read_loop-ReadAll zero before after e fits h = absurd (omega arith)
  read_loop-ReadAll (suc fuel) before after e fits h =
      elim (Bool-cases (ltb (length before) limit)) [
        | inr full ↦
            let big = ltb_false→le (length before) limit full in
            rw (full, eq→== (length before) limit (omega (arith, big, fits)))
              (inr (omega (arith, big, ap length e, length-append before after), (before, refl)))
        | inl room ↦
            let less = ltb→lt (length before) limit room in
            let (chunk, rest, r, split, short, last) =
              serves before after (limit - length before) e (omega (arith, less)) in
            rw (room, r)
              (by_chunk (λ b a e' f h'. read_loop-ReadAll fuel b a e' f h') less chunk rest split
                short last)
      ]
    where
      by_chunk :
          ((b a : Text)
            → file ≡ b ++ a
            → length b ≤ limit
            → limit < length b + fuel
            → ReadAll limit file (read_loop fuel read limit b))
          → length before < limit
          → (chunk rest : Text) → after ≡ chunk ++ rest
          → length chunk ≤ limit - length before
          → ((chunk ≡ []) → after ≡ [])
          → ReadAll limit file
              (reading (λ buf'. read_loop fuel read limit buf') limit before (some chunk))
      by_chunk ih less [] rest split short last =
          let same : file ≡ before = e ∙ ap (λ t. before ++ t) (last refl) ∙ append-nil before in
          rw (ne→==_false (length before) limit (λ eq. omega (arith, eq, less)))
            (inl (omega (arith, ap length same, less), ap (λ t. some (ok, t)) (sym same)))
      by_chunk ih less (c ∷ s) rest split short last =
          ih (before ++ (c ∷ s)) rest
            (e ∙ ap (λ t. before ++ t) split ∙ sym (append_assoc before (c ∷ s) rest))
            (omega (arith, length-append before (c ∷ s), short, less))
            (omega (arith, length-append before (c ∷ s), h))

-- A file that is opened and served is read whole where it is shorter than the buffer; otherwise the
-- result is an error. The loop ends in both cases.
pub read_file-ReadAll :
    (files : Files) (path : Text) (limit : ℕ) (file : Text)
    → files.open_file path ≡ opened
    → Serves (files.read path) file
    → ReadAll limit file (read_file files path limit)
unfolding read_file
read_file-ReadAll files path limit file o serves = rw o (
    read_loop-ReadAll (files.read path) limit file serves (limit + 1) [] file refl (omega arith)
      (omega arith))
