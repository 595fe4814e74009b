-- ===== src/Cfg/Parse/Lines.antt =====
-- The lines of a configuration file: how `fgets` splits the file, and where the tag of a line ends.
use act.Common.{
  ℕ, ◌+◌, ◌-◌, ◌≤◌, ◌≡◌, refl, ap, ◌∙◌, Bool, true, false, not, ◌&&◌, ◌||◌, some, List, [], ◌∷◌,
  ◌++◌, ◌==◌, arith,
}
use mathlib.Core.List.{append_assoc}
use act.Common.Lists.{length}
use act.Common.Text.{Text, one_of, strtok}
use act.Common.Text.Tokens.{all, all-append, all-weaken, both, outside, strtok-outside}
use act.Cfg.Parse.{white_space, before_comment, tag_of, ends_line, fgets_lines, read_lines}

-- A byte that neither ends the line nor starts a comment.
abbrev pub plain : ℕ → Bool
plain c = not (c == b'\n') && not (c == b'#') && not (c == 0)

abbrev pub end_line : Text → Text
end_line s = s ++ (b'\n' ∷ [])

abbrev pub concat_lines : List Text → Text
concat_lines [] = []
concat_lines (s ∷ lines) = s ++ (b'\n' ∷ concat_lines lines)

abbrev pub end_lines : List Text → List Text
end_lines [] = []
end_lines (s ∷ lines) = end_line s ∷ end_lines lines

-- A line that fits a buffer of `size` bytes with its newline and the NUL.
abbrev pub Fits : ℕ → Text → Type 0
Fits size s = (all plain s ≡ true) × (length s + 2 ≤ size)

abbrev pub AllFit : ℕ → List Text → Type 0
AllFit size [] = Unit {0}
AllFit size (s ∷ lines) = Fits size s × AllFit size lines

goes_on : (c room : ℕ) → plain c ≡ true → 2 ≤ room → ends_line room c ≡ false
goes_on c room h r = ground arith

fgets_lines-line :
    (size room : ℕ) (line s file : Text)
    → all plain s ≡ true
    → length s + 1 ≤ room
    → fgets_lines size room line (s ++ (b'\n' ∷ file))
      ≡ (line ++ end_line s) ∷ fgets_lines size (size - 1) [] file
unfolding fgets_lines
fgets_lines-line size room [] [] file h r = refl
fgets_lines-line size room (b ∷ line) [] file h r = refl
fgets_lines-line size room [] (c ∷ s) file h r =
    let (hc, hs) = both (plain c) (all plain s) h in
    rw (goes_on c room hc (omega arith))
      (fgets_lines-line size (room - 1) (c ∷ []) s file hs (omega arith))
fgets_lines-line size room (b ∷ line) (c ∷ s) file h r =
    let (hc, hs) = both (plain c) (all plain s) h in
    rw (goes_on c room hc (omega arith)) (
      fgets_lines-line size (room - 1) ((b ∷ line) ++ (c ∷ [])) s file hs (omega arith)
      ∙ ap (λ t. (b ∷ t) ∷ fgets_lines size (size - 1) [] file)
          (append_assoc line (c ∷ []) (end_line s)))

-- Lines that fit the buffer are read one by one.
pub read_lines-concat_lines :
    (size : ℕ) (lines : List Text)
    → AllFit size lines
    → read_lines size (concat_lines lines) ≡ end_lines lines
unfolding fgets_lines
read_lines-concat_lines size [] h = refl
read_lines-concat_lines size (s ∷ lines) ((hs, r), h) =
    fgets_lines-line size (size - 1) [] s (concat_lines lines) hs (omega arith)
    ∙ ap (λ rest. end_line s ∷ rest) (read_lines-concat_lines size lines h)

before_comment-plain : (s : Text) → all plain s ≡ true → before_comment (end_line s) ≡ end_line s
before_comment-plain [] h = refl
before_comment-plain (c ∷ s) h =
    let (hc, hs) = both (plain c) (all plain s) h in
    rw (no_comment hc) (ap (λ t. c ∷ t) (before_comment-plain s hs))
  where
    no_comment : plain c ≡ true → (c == b'#' || c == 0) ≡ false
    no_comment h' = ground arith

abbrev pub tag_char : ℕ → Bool
tag_char c = plain c && not (one_of (b':' ∷ white_space) c)

abbrev pub IsTag : Text → Type 0
IsTag [] = ⊥
IsTag (c ∷ s) = all tag_char (c ∷ s) ≡ true

-- The line that gives the item `tag` a value.
abbrev pub item_line : Text → Text → Text
item_line tag value = tag ++ (b':' ∷ b' ' ∷ value)

pub item_line-plain :
    (tag value : Text) → IsTag tag → all plain value ≡ true → all plain (item_line tag value) ≡ true
item_line-plain [] value t h = elim t [ ]
item_line-plain (c ∷ s) value t h =
    all-append plain (c ∷ s) (b':' ∷ b' ' ∷ value) (all-weaken tag_char plain (c ∷ s) weaker t) h
  where
    weaker : (b : ℕ) → tag_char b ≡ true → plain b ≡ true
    weaker b h' = ground arith

-- The tag of such a line is the item's, and its value comes next.
pub tag_of-item_line :
    (tag value : Text)
    → IsTag tag
    → all plain value ≡ true
    → tag_of (end_line (item_line tag value)) ≡ (some tag, b' ' ∷ end_line value)
tag_of-item_line [] value t h = elim t [ ]
tag_of-item_line (c ∷ s) value t h =
    ap (strtok delims) (
      before_comment-plain (item_line (c ∷ s) value) (item_line-plain (c ∷ s) value t h)
      ∙ append_assoc (c ∷ s) (b':' ∷ b' ' ∷ value) (b'\n' ∷ []))
    ∙ strtok-outside delims b':' refl c s (b' ' ∷ end_line value)
        (all-weaken tag_char (outside delims) (c ∷ s) weaker t)
  where
    delims : Text
    delims = b':' ∷ white_space

    weaker : (b : ℕ) → tag_char b ≡ true → outside delims b ≡ true
    weaker b h' = ground arith
