-- ===== src/Cfg/Parse/Items.antt =====
-- The files that give items their values, for both configurations, and the loop on them.
pub mod RoundTrip
pub mod Echo
use act.Common.{
  ℕ, suc, ◌+◌, ◌-◌, ◌^◌, ◌≤◌, ◌<◌, ◌≡◌, refl, sym, ap, ◌∙◌, Bool, true, false, not, ◌&&◌, Option,
  some, List, [], ◌∷◌, ◌++◌, ◌==◌, leb, ltb, if◌then◌else◌, arith, lt→ltb,
}
use act.Common.Lists.{length, length-append}
use act.Common.Text.{Text, text, is_digit}
use act.Common.Text.Decimal.{decimal}
use act.Common.Text.Tokens.{all, all-weaken, decimal-append, decimal-digits, length-decimal, both}
use act.Cfg.Parse.{
  parse_uint32, parse_yes_no, parse_scheduler_mode, parse_device_names, read_lines, parse_lines,
  parse_line, set_tagged, tag_of,
}
use act.Cfg.Parse.Values.{
  yes_no, mode_text, parse_uint32-decimal, parse_yes_no-yes_no, parse_scheduler_mode-mode_text,
}
use act.Cfg.Parse.Names.{
  Separator, name_char, IsName, AllNames, names_text, names_text-all, parse_device_names-names_text,
}
use act.Cfg.Parse.Lines.{
  plain, end_line, end_lines, concat_lines, AllFit, Fits, tag_char, IsTag, item_line,
  item_line-plain, tag_of-item_line, read_lines-concat_lines,
}

-- A tag that lines have room for.
abbrev pub IsItem : Text → Type 0
IsItem tag = IsTag tag × (length tag ≤ 40)

-- A line of a file: names with what stands between them, a number, a Boolean, or whether the scheduler is cfq.
pub data Setting (Number Answer : Type 0) : Type 0 where
  devices : Separator → Text → List Text → Setting Number Answer
  number : Number → ℕ → Setting Number Answer
  answer : Answer → Bool → Setting Number Answer
  scheduler : Bool → Setting Number Answer

-- The items of a configuration: their tags and what they set, and that `set_item` does so.
pub record Items (Config Number Answer : Type 0) : Type 0 where
  pub set_item : Text → Text → Config → Config
  pub max : ℕ
  pub size : ℕ
  pub number_tag : Number → Text
  pub answer_tag : Answer → Text
  pub names : Config → List Text
  pub set_names : List Text → Config → Config
  pub set_number : Number → ℕ → Config → Config
  pub set_answer : Answer → Bool → Config → Config
  pub set_mode : Text → Config → Config
  pub number_tag-IsItem : (i : Number) → IsItem (number_tag i)
  pub answer_tag-IsItem : (i : Answer) → IsItem (answer_tag i)
  pub big : 100 ≤ size
  pub set_item-names :
      (rest : Text) (cfg : Config)
      → set_item (text "device-names") rest cfg
        ≡ set_names (parse_device_names max (names cfg) rest) cfg
  pub set_item-number :
      (i : Number) (rest : Text) (cfg : Config)
      → set_item (number_tag i) rest cfg ≡ set_number i (parse_uint32 rest) cfg
  pub set_item-answer :
      (i : Answer) (rest : Text) (cfg : Config)
      → set_item (answer_tag i) rest cfg ≡ set_answer i (parse_yes_no rest) cfg
  pub set_item-mode :
      (rest : Text) (cfg : Config)
      → set_item (text "scheduler-mode") rest cfg ≡ set_mode (parse_scheduler_mode rest) cfg

module _ {Config Number Answer : Type 0} (items : Items Config Number Answer) where
  open items use {
    set_item, max, size, number_tag, answer_tag, names, set_names, set_number, set_answer, set_mode,
    number_tag-IsItem, answer_tag-IsItem, big, set_item-names, set_item-number, set_item-answer,
    set_item-mode,
  }

  -- What a setting means.
  abbrev pub apply : Setting Number Answer → Config → Config
  apply (devices sep n ns) cfg = set_names (names cfg ++ (n ∷ ns)) cfg
  apply (number i v) cfg = set_number i v cfg
  apply (answer i b) cfg = set_answer i b cfg
  apply (scheduler cfq) cfg = set_mode (mode_text cfq) cfg

  abbrev pub apply_all : List (Setting Number Answer) → Config → Config
  apply_all [] cfg = cfg
  apply_all (s ∷ settings) cfg = apply_all settings (apply s cfg)

  -- Numbers of 32 bits, and names that there is room for, in the line and in the configuration.
  abbrev pub IsSetting : Setting Number Answer → Config → Type 0
  IsSetting (devices sep n ns) cfg =
      IsName n
      × AllNames ns
      × (length (names cfg) + suc (length ns) ≤ max)
      × (length (names_text sep n ns) + 16 ≤ size)
  IsSetting (number i v) cfg = v < 2 ^ 32
  IsSetting (answer i b) cfg = Unit {0}
  IsSetting (scheduler cfq) cfg = Unit {0}

  abbrev pub AreSettings : List (Setting Number Answer) → Config → Type 0
  AreSettings [] cfg = Unit {0}
  AreSettings (s ∷ settings) cfg = IsSetting s cfg × AreSettings settings (apply s cfg)

  abbrev pub setting_tag : Setting Number Answer → Text
  setting_tag (devices sep n ns) = text "device-names"
  setting_tag (number i v) = number_tag i
  setting_tag (answer i b) = answer_tag i
  setting_tag (scheduler cfq) = text "scheduler-mode"

  abbrev pub setting_value : Setting Number Answer → Text
  setting_value (devices sep n ns) = names_text sep n ns
  setting_value (number i v) = decimal v []
  setting_value (answer i b) = yes_no b
  setting_value (scheduler cfq) = mode_text cfq

  abbrev pub print_setting : Setting Number Answer → Text
  print_setting s = item_line (setting_tag s) (setting_value s)

  abbrev pub print_settings : List (Setting Number Answer) → List Text
  print_settings [] = []
  print_settings (s ∷ settings) = print_setting s ∷ print_settings settings

  -- The file, one line for each setting.
  abbrev pub print_file : List (Setting Number Answer) → Text
  print_file settings = concat_lines (print_settings settings)
