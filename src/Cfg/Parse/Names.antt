-- ===== src/Cfg/Parse/Names.antt =====
-- `parse_device_names`: that its loop ends, and what it makes of names between delimiters.
use act.Common.{
  ℕ, zero, suc, ◌+◌, ◌≤◌, ◌<◌, ◌≡◌, ◌≢◌, ◌⊎◌, refl, ap, ◌∙◌, inl, inr, Bool, true, false, not, ◌&&◌,
  ◌||◌, Option, none, some, List, [], ◌∷◌, ◌++◌, ◌==◌, leb, arith, Bool-cases,
}
use mathlib.Core.List.{append_assoc}
use act.Common.Lists.{length, length-append}
use act.Common.Text.{Text, token_end, strtok, one_of}
use act.Common.Text.Tokens.{all, all-append, all-weaken, outside, strtok-outside}
use act.Cfg.Parse.{
  max_device_name_size, name_delims, add_name, names_loop, from_loop, parse_device_names,
}

-- A byte of a name in a file: neither a delimiter nor the start of a comment nor a NUL.
abbrev pub name_char : ℕ → Bool
name_char c = not (one_of name_delims c) && not (c == b'#') && not (c == 0)

abbrev pub IsName : Text → Type 0
IsName s = (1 ≤ length s) × (length s < max_device_name_size) × (all name_char s ≡ true)

abbrev pub AllNames : List Text → Type 0
AllNames [] = Unit {0}
AllNames (n ∷ ns) = IsName n × AllNames ns

-- What may stand between two names of a line.
pub data Separator : Type 0 where
  comma : Separator
  semicolon : Separator
  blank : Separator
  tab : Separator

abbrev pub separator : Separator → ℕ
separator Separator.comma = b','
separator Separator.semicolon = b';'
separator Separator.blank = b' '
separator Separator.tab = b'\t'

separator-delim : (sep : Separator) → one_of name_delims (separator sep) ≡ true
separator-delim Separator.comma = refl
separator-delim Separator.semicolon = refl
separator-delim Separator.blank = refl
separator-delim Separator.tab = refl

-- Names with a delimiter between them, and the end of the line.
abbrev print_names : ℕ → Text → List Text → Text
print_names d n [] = n ++ (b'\n' ∷ [])
print_names d n (m ∷ ns) = n ++ (d ∷ print_names d m ns)

token_end-shorter : (delims s : Text) → length (token_end delims s).1 ≤ length s
token_end-shorter delims [] = omega arith
token_end-shorter delims (c ∷ s) = elim (Bool-cases (one_of delims c)) [
  | inl e ↦ rw e (omega arith)
  | inr e ↦ rw e (omega (arith, token_end-shorter delims s))
]

-- A token takes a byte at least.
strtok-shorter :
    (delims s val rest : Text) → strtok delims s ≡ (some val, rest) → length rest < length s
strtok-shorter delims [] val rest h = absurd (ground (arith, ap (λ p. p.0) h))
strtok-shorter delims (c ∷ s) val rest h = elim (Bool-cases (one_of delims c)) [
  | inl e ↦ omega (arith, strtok-shorter delims s val rest (rw e at h))
  | inr e ↦
      let h' : (some (c ∷ (token_end delims s).0), (token_end delims s).1) ≡ (some val, rest) =
        rw e at h in
      omega (arith, token_end-shorter delims s, ap (λ p. length p.1) h')
]

-- One round: the loop ends where the rounds after it do.
add_name-ends :
    (more : List Text → Text → Option (List Text)) (max : ℕ) (names : List Text) (val rest : Text)
    → more (names ++ (val ∷ [])) rest ≢ none
    → add_name more max names (some val, rest) ≢ none
add_name-ends more max names val rest h = elim (Bool-cases (length names == max)) [
  | inl full ↦ rw full (ground arith)
  | inr room ↦ elim (Bool-cases (length val == 0 || leb max_device_name_size (length val))) [
    | inl bad ↦ rw (room, bad) (ground arith)
    | inr good ↦ rw (room, good) h
  ]
]

strtok-cases : (p : Option Text × Text) → (p ≡ (none, p.1)) ⊎ ((val : Text) × (p ≡ (some val, p.1)))
strtok-cases (none, rest) = inl refl
strtok-cases (some val, rest) = inr (val, refl)

-- More fuel than bytes is enough, whatever the text.
pub names_loop-ends :
    (fuel max : ℕ) (names : List Text) (rest : Text)
    → length rest < fuel
    → names_loop fuel max names rest ≢ none
unfolding names_loop
names_loop-ends zero max names rest h = absurd (omega arith)
names_loop-ends (suc fuel) max names rest h = elim (strtok-cases (strtok name_delims rest)) [
  | inl e ↦ rw e (ground arith)
  | inr (val, e) ↦ rw e (
      add_name-ends (λ names' rest'. names_loop fuel max names' rest') max names val
        (strtok name_delims rest).1
        (names_loop-ends fuel max (names ++ (val ∷ [])) (strtok name_delims rest).1
          (omega (arith, strtok-shorter name_delims rest val (strtok name_delims rest).1 e))))
]

outside_lem : (c : ℕ) → name_char c ≡ true → outside name_delims c ≡ true
outside_lem c h = ground arith

-- A name at the start of the text is added where there is room for it.
names_loop-name :
    (fuel max d : ℕ) (names : List Text) (n rest : Text)
    → one_of name_delims d ≡ true
    → IsName n
    → length names < max
    → names_loop (suc fuel) max names (n ++ (d ∷ rest))
      ≡ names_loop fuel max (names ++ (n ∷ [])) rest
unfolding names_loop
names_loop-name fuel max d names [] rest hd (h1, h2, h3) room = absurd (omega arith)
names_loop-name fuel max d names (c ∷ s) rest hd (h1, h2, h3) room =
    ap (add_name (λ names' rest'. names_loop fuel max names' rest') max names) (
      strtok-outside name_delims d hd c s rest
        (all-weaken name_char (outside name_delims) (c ∷ s) outside_lem h3))
    ∙ rw (not_full, good) refl
  where
    not_full : (length names == max) ≡ false
    not_full = ground arith

    good : (length (c ∷ s) == 0 || leb max_device_name_size (length (c ∷ s))) ≡ false
    good = ground arith

length-print_names : (d : ℕ) (n : Text) (ns : List Text) → 1 ≤ length (print_names d n ns)
length-print_names d n [] = omega (arith, length-append n (b'\n' ∷ []))
length-print_names d n (m ∷ ns) = omega (arith, length-append n (d ∷ print_names d m ns))

names_loop-print_names :
    (fuel max d : ℕ) (names : List Text) (n : Text) (ns : List Text)
    → one_of name_delims d ≡ true
    → IsName n
    → AllNames ns
    → length names + suc (length ns) ≤ max
    → length (print_names d n ns) < fuel
    → names_loop fuel max names (print_names d n ns) ≡ some (names ++ (n ∷ ns))
unfolding names_loop
names_loop-print_names zero max d names n ns hd h hs room enough = absurd (omega arith)
names_loop-print_names (suc zero) max d names n ns hd h hs room enough =
    absurd (omega (arith, length-print_names d n ns))
names_loop-print_names (suc (suc fuel)) max d names n [] hd h hs room enough =
    names_loop-name (suc fuel) max b'\n' names n [] refl h (omega arith)
names_loop-print_names (suc (suc fuel)) max d names n (m ∷ ns) hd h hs room enough =
    names_loop-name (suc fuel) max d names n (print_names d m ns) hd h (omega arith)
    ∙ names_loop-print_names (suc fuel) max d (names ++ (n ∷ [])) m ns hd hs.0 hs.1
        (omega (arith, length-append names (n ∷ [])))
        (omega (arith, length-append n (d ∷ print_names d m ns)))
    ∙ ap some (append_assoc names (n ∷ []) (m ∷ ns))

abbrev pub names_text : Separator → Text → List Text → Text
names_text sep n [] = n
names_text sep n (m ∷ ns) = n ++ (separator sep ∷ names_text sep m ns)

print_names-names_text :
    (sep : Separator) (n : Text) (ns : List Text)
    → names_text sep n ns ++ (b'\n' ∷ []) ≡ print_names (separator sep) n ns
print_names-names_text sep n [] = refl
print_names-names_text sep n (m ∷ ns) =
    append_assoc n (separator sep ∷ names_text sep m ns) (b'\n' ∷ [])
    ∙ ap (λ t. n ++ (separator sep ∷ t)) (print_names-names_text sep m ns)

pub names_text-all :
    (p : ℕ → Bool) (sep : Separator)
    → ((c : ℕ) → name_char c ≡ true → p c ≡ true)
    → p (separator sep) ≡ true
    → (n : Text) (ns : List Text) → IsName n
    → AllNames ns
    → all p (names_text sep n ns) ≡ true
names_text-all p sep f between n [] h hs = all-weaken name_char p n f h.2
names_text-all p sep f between n (m ∷ ns) h hs =
    all-append p n (separator sep ∷ names_text sep m ns) (all-weaken name_char p n f h.2)
      (rw between (names_text-all p sep f between m ns hs.0 hs.1))

-- Names with delimiters between them are added to those before them where there is room for all of them.
pub parse_device_names-names_text :
    (max : ℕ) (names : List Text) (sep : Separator) (n : Text) (ns : List Text)
    → IsName n
    → AllNames ns
    → length names + suc (length ns) ≤ max
    → parse_device_names max names (b' ' ∷ (names_text sep n ns ++ (b'\n' ∷ [])))
      ≡ names ++ (n ∷ ns)
unfolding parse_device_names names_loop
parse_device_names-names_text max names sep n ns h hs room =
    ap (λ t. parse_device_names max names (b' ' ∷ t)) (print_names-names_text sep n ns)
    ∙ ap (λ k. from_loop (names_loop k max names (b' ' ∷ printed))) more
    ∙ ap from_loop (
        names_loop-print_names (suc (suc (length printed))) max (separator sep) names n ns
          (separator-delim sep) h hs room (omega arith))
  where
    printed : Text
    printed = print_names (separator sep) n ns

    more : suc (length printed) + 1 ≡ suc (suc (length printed))
    more = omega arith
