-- ===== src/Cfg/Parse/Valid.antt =====
-- What the values of any line of a configuration file are, whatever its bytes.
use act.Common.{
  ℕ, zero, suc, ◌+◌, ◌*◌, ◌/◌, ◌^◌, ◌≤◌, ◌<◌, ◌≡◌, ◌⊎◌, refl, inl, inr, Bool, true, false, not,
  ◌&&◌, ◌||◌, Option, none, some, List, [], ◌∷◌, ◌++◌, ◌==◌, leb, if◌then◌else◌, arith, Bool-cases,
}
use act.Common.Lists.{length, length-append}
use act.Common.Text.{Text, text, token_end, strtok, one_of, text_eq}
use act.Common.Text.Tokens.{all, all-weaken, both, outside}
use act.Cfg.Parse.{
  max_device_name_size, name_delims, white_space, add_name, names_loop, from_loop,
  parse_device_names, parse_uint32, uint32_of, parse_scheduler_mode, scheduler_of, before_comment,
  tag_of, set_tagged, parse_line, parse_lines,
}
use act.Cfg.Parse.Values.{mode_text}
use act.Cfg.Parse.Names.{name_char, IsName, AllNames}

-- A multiple of `unit`, by a number of 32 bits.
abbrev pub Exact : ℕ → ℕ → Type 0
Exact unit n = (n / unit < 2 ^ 32) × (n / unit * unit ≡ n)

-- A byte before a comment.
abbrev pub value_char : ℕ → Bool
value_char c = not (c == b'#') && not (c == 0)

-- The tokens of a text keep what its bytes have in common, and have no delimiter.
module _ (p : ℕ → Bool) (delims : Text) where
  abbrev token_char : ℕ → Bool
  token_char c = outside delims c && p c

  abbrev pub IsToken : Option Text × Text → Type 0
  IsToken (none, rest) = Unit {0}
  IsToken (some val, rest) = (1 ≤ length val) × (all token_char val ≡ true) × (all p rest ≡ true)

  token_end-all :
      (s : Text)
      → all p s ≡ true
      → (all token_char (token_end delims s).0 ≡ true) × (all p (token_end delims s).1 ≡ true)
  token_end-all [] h = (refl, refl)
  token_end-all (c ∷ s) h =
      let (hc, hs) = both (p c) (all p s) h in
      let (tokens, rest) = token_end-all s hs in
      elim (Bool-cases (one_of delims c)) [
        | inl e ↦ rw e (refl, hs)
        | inr e ↦ let t : token_char c ≡ true = rw (e, hc) refl in rw (e) (rw (t) (tokens, rest))
      ]

  pub strtok-IsToken : (s : Text) → all p s ≡ true → IsToken (strtok delims s)
  strtok-IsToken [] h = tt
  strtok-IsToken (c ∷ s) h =
      let (hc, hs) = both (p c) (all p s) h in
      let (tokens, rest) = token_end-all s hs in
      elim (Bool-cases (one_of delims c)) [
        | inl e ↦ rw e (strtok-IsToken s hs)
        | inr e ↦
            let t : token_char c ≡ true = rw (e, hc) refl in
            rw (e) (omega arith, rw (t) tokens, rest)
      ]

pub before_comment-value : (line : Text) → all value_char (before_comment line) ≡ true
before_comment-value [] = refl
before_comment-value (c ∷ s) = elim (Bool-cases (c == b'#' || c == 0)) [
  | inl e ↦ rw e refl
  | inr e ↦ rw e (let h : value_char c ≡ true = ground arith in rw h (before_comment-value s))
]

-- What holds of the results of a chain of tests, one after the other.
pub record Guarded {Config : Type 0} (P : Config → Type 0) (b : Bool) (x : Config) : Type 0 where
  pub holds : P x

pub at_item :
    {Config : Type 0} (P : Config → Type 0) (tag item : Text) {x : Config}
    → P x
    → Guarded P (text_eq tag item) x
at_item P tag item p = record { holds = p }

infixr 3 ◌or_else◌
pub ◌or_else◌ :
    {Config : Type 0} {P : Config → Type 0} {b : Bool} {x y : Config}
    → Guarded P b x
    → P y
    → P (if b then x else y)
◌or_else◌ {b} p q = elim (Bool-cases b) [ inl e ↦ rw e p.holds | inr e ↦ rw e q ]

module _ {Config : Type 0} (set_item : Text → Text → Config → Config) where
  pub parse_line_lem :
      (cfg : Config) (line : Text)
      → parse_line set_item cfg line ≡ set_tagged set_item (tag_of line) cfg
  unfolding parse_line
  parse_line_lem cfg line = refl

  -- What every line keeps, the lines of a file keep.
  pub parse_lines-induction :
      (P : Config → Type 0)
      → ((line : Text) (cfg : Config) → P cfg → P (parse_line set_item cfg line))
      → (lines : List Text) (cfg : Config) → P cfg
      → P (parse_lines set_item cfg lines)
  unfolding parse_lines
  parse_lines-induction P keeps [] cfg p = p
  parse_lines-induction P keeps (line ∷ lines) cfg p =
      parse_lines-induction P keeps lines (parse_line set_item cfg line) (keeps line cfg p)

-- The names that may stand in a configuration.
abbrev pub AreValid : ℕ → List Text → Type 0
AreValid max names = AllNames names × (length names ≤ max)

AllNames-append :
    (names : List Text) (val : Text) → AllNames names → IsName val → AllNames (names ++ (val ∷ []))
AllNames-append [] val h v = (v, tt)
AllNames-append (n ∷ names) val (hn, hs) v = (hn, AllNames-append names val hs v)

add_name-AreValid :
    (more : List Text → Text → Option (List Text)) (max : ℕ) (names : List Text)
    (token : Option Text × Text)
    → AreValid max names
    → IsToken value_char name_delims token
    → ((names' : List Text) (rest' : Text)
        → AreValid max names'
        → all value_char rest' ≡ true
        → AreValid max (from_loop (more names' rest')))
    → AreValid max (from_loop (add_name more max names token))
add_name-AreValid more max names (none, rest) v t go = v
add_name-AreValid more max names (some val, rest) (v, room) (some_bytes, bytes, later) go =
    elim (Bool-cases (length names == max)) [
      | inl full ↦ rw full (tt, omega arith)
      | inr free ↦ elim (Bool-cases (length val == 0 || leb max_device_name_size (length val))) [
        | inl bad ↦ rw (free, bad) (tt, omega arith)
        | inr good ↦
            rw (free, good)
              (go (names ++ (val ∷ [])) rest
                (
                  AllNames-append names val v (
                    some_bytes,
                    ground arith,
                    all-weaken (token_char value_char name_delims) name_char val weaker bytes,
                  ),
                  ground (arith, length-append names (val ∷ [])),
                )
                later)
      ]
    ]
  where
    weaker : (c : ℕ) → token_char value_char name_delims c ≡ true → name_char c ≡ true
    weaker c h = ground arith

names_loop-AreValid :
    (fuel max : ℕ) (names : List Text) (rest : Text)
    → AreValid max names
    → all value_char rest ≡ true
    → AreValid max (from_loop (names_loop fuel max names rest))
unfolding names_loop
names_loop-AreValid zero max names rest v h = (tt, omega arith)
names_loop-AreValid (suc fuel) max names rest v h =
    add_name-AreValid (λ names' rest'. names_loop fuel max names' rest') max names
      (strtok name_delims rest) v (strtok-IsToken value_char name_delims rest h)
      (names_loop-AreValid fuel max)

-- Whatever a line holds, valid names stay valid and have room.
pub parse_device_names-AreValid :
    (max : ℕ) (names : List Text) (rest : Text)
    → AreValid max names
    → all value_char rest ≡ true
    → AreValid max (parse_device_names max names rest)
unfolding parse_device_names
parse_device_names-AreValid max names rest v h =
    names_loop-AreValid (length rest + 1) max names rest v h

pub parse_uint32-small : (rest : Text) → parse_uint32 rest < 2 ^ 32
unfolding parse_uint32
parse_uint32-small rest = small (strtok white_space rest).0
  where
    small : (val : Option Text) → uint32_of val < 2 ^ 32
    small none = omega arith
    small (some val) = ground arith

pub parse_scheduler_mode-known :
    (rest : Text)
    → (parse_scheduler_mode rest ≡ text "noop") ⊎ (parse_scheduler_mode rest ≡ text "cfq")
unfolding parse_scheduler_mode
parse_scheduler_mode-known rest = known (strtok white_space rest).0
  where
    known : (val : Option Text) → (scheduler_of val ≡ text "noop") ⊎ (scheduler_of val ≡ text "cfq")
    known none = inl refl
    known (some val) = elim (Bool-cases (text_eq val (text "noop"))) [
      | inl e ↦ rw e (inl refl)
      | inr e ↦ elim (Bool-cases (text_eq val (text "cfq"))) [
        | inl f ↦ rw (e, f) (inr refl)
        | inr f ↦ rw (e, f) (inl refl)
      ]
    ]

pub first_name-cases :
    (names : List Text)
    → 0 < length names
    → (first : Text) × (others : List Text) × (names ≡ first ∷ others)
first_name-cases [] h = absurd (omega arith)
first_name-cases (n ∷ ns) h = (n, ns, refl)

pub mode-cases :
    {mode : Text}
    → (mode ≡ text "noop") ⊎ (mode ≡ text "cfq")
    → (cfq : Bool) × (mode ≡ mode_text cfq)
mode-cases (inl e) = (false, e)
mode-cases (inr e) = (true, e)
