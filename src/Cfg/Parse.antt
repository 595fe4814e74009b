-- ===== src/Cfg/Parse.antt =====
-- src/common/cfg.c: the values of a configuration file, and the lines that both configurations are read
-- from.
pub mod Values
pub mod Names
pub mod Lines
pub mod Items
pub mod Valid
use act.Common.{
  ℕ, zero, suc, ◌+◌, ◌-◌, ◌^◌, Bool, true, false, ◌||◌, Option, none, some, List, [], ◌∷◌, ◌++◌,
  ◌==◌, ltb, leb, if◌then◌else◌,
}
use act.Common.Lists.{length}
use act.Common.Text.{Text, text, text_eq, strtok, strtoul}

-- WHITE_SPACE.
abbrev pub white_space : Text
white_space = b' ' ∷ b'\t' ∷ b'\n' ∷ b'\r' ∷ []

abbrev pub max_device_name_size : ℕ
max_device_name_size = 64

-- `",;" WHITE_SPACE`.
abbrev pub name_delims : Text
name_delims = b',' ∷ b';' ∷ white_space

-- What follows a call of `strtok` in `parse_device_names`: the names so far, of which an error leaves
-- none. `more` goes on with the names and the position of `strtok`.
abbrev pub add_name :
    (List Text → Text → Option (List Text))
    → ℕ
    → List Text
    → Option Text × Text
    → Option (List Text)
add_name more max names (none, rest) = some names
add_name more max names (some val, rest) =
    if length names == max
    then some []
    else (if length val == 0 || leb max_device_name_size (length val)
        then some []
        else more (names ++ (val ∷ [])) rest)

-- The loop of `parse_device_names` on fuel.
pub names_loop : ℕ → ℕ → List Text → Text → Option (List Text)
names_loop zero max names rest = none
names_loop (suc fuel) max names rest =
    add_name (λ names' rest'. names_loop fuel max names' rest') max names (strtok name_delims rest)

abbrev pub from_loop : Option (List Text) → List Text
from_loop none = []
from_loop (some names) = names

-- Each round but the last takes a byte of `rest`.
pub parse_device_names : ℕ → List Text → Text → List Text
parse_device_names max names rest = from_loop (names_loop (length rest + 1) max names rest)

abbrev pub scheduler_of : Option Text → Text
scheduler_of none = text "noop"
scheduler_of (some val) =
    if text_eq val (text "noop")
    then text "noop"
    else (if text_eq val (text "cfq") then text "cfq" else text "noop")

-- The functions from here on are given the position that `strtok` has reached.
pub parse_scheduler_mode : Text → Text
parse_scheduler_mode rest = scheduler_of (strtok white_space rest).0

abbrev pub uint32_of : Option Text → ℕ
uint32_of none = 0
uint32_of (some val) =
    let (u64_val, _) = strtoul val in if ltb (2 ^ 32 - 1) u64_val then 0 else u64_val

unfoldable pub parse_uint32 : Text → ℕ
parse_uint32 rest = uint32_of (strtok white_space rest).0

abbrev pub starts_with_y : Option Text → Bool
starts_with_y none = false
starts_with_y (some []) = false
starts_with_y (some (c ∷ s)) = c == b'y'

unfoldable pub parse_yes_no : Text → Bool
parse_yes_no rest = starts_with_y (strtok white_space rest).0

-- A NUL in the line ends the string too.
abbrev pub before_comment : Text → Text
before_comment [] = []
before_comment (c ∷ s) =
    let later = before_comment s in if c == b'#' || c == 0 then [] else c ∷ later

-- The tag of a line, and where its value starts.
abbrev pub tag_of : Text → Option Text × Text
tag_of line = strtok (b':' ∷ white_space) (before_comment line)

-- A line so far and the room left for it, with one more byte: whether the line ends with it.
abbrev ends_line : ℕ → ℕ → Bool
ends_line room c = c == b'\n' || leb room 1

-- What `fgets` reads with a buffer of `size` bytes, call by call: the first line has `line` already
-- and room for `room` bytes more.
pub fgets_lines : ℕ → ℕ → Text → Text → List Text
fgets_lines size room [] [] = []
fgets_lines size room (b ∷ line) [] = (b ∷ line) ∷ []
fgets_lines size room line (c ∷ file) =
    let last = ends_line room c in
    let line' = line ++ (c ∷ []) in
    let later =
      fgets_lines size (if last then size - 1 else room - 1) (if last then [] else line') file in
    if last then line' ∷ later else later

abbrev pub read_lines : ℕ → Text → List Text
read_lines size file = fgets_lines size (size - 1) [] file

-- The loop over the lines, where `set_item tag rest` is what a line with the item `tag` does; `rest` is
-- the position of its value. A line without a tag does nothing.
module _ {Config : Type 0} (set_item : Text → Text → Config → Config) where
  abbrev pub set_tagged : Option Text × Text → Config → Config
  set_tagged (none, rest) cfg = cfg
  set_tagged (some tag, rest) cfg = set_item tag rest cfg

  pub parse_line : Config → Text → Config
  parse_line cfg line = set_tagged (tag_of line) cfg

  pub parse_lines : Config → List Text → Config
  parse_lines cfg [] = cfg
  parse_lines cfg (line ∷ lines) = parse_lines (parse_line cfg line) lines
