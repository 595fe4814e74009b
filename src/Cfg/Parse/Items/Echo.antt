-- ===== src/Cfg/Parse/Items/Echo.antt =====
-- Reading back the lines of an echoed configuration: those that give items their values, and those that
-- the reader passes over.
use act.Common.{ℕ, ◌+◌, ◌^◌, ◌≤◌, ◌<◌, ◌≡◌, refl, ap, ◌∙◌, true, Option, List, [], ◌∷◌, arith}
use act.Common.Lists.{length, length-append}
use act.Common.Text.{Text, is_digit}
use act.Common.Text.Decimal.{decimal}
use act.Common.Text.Tokens.{all, all-weaken, decimal-digits, length-decimal_fuel}
use act.Cfg.Parse.{read_lines, parse_lines, parse_line, set_tagged, tag_of}
use act.Cfg.Parse.Lines.{
  plain, end_line, end_lines, concat_lines, AllFit, Fits, item_line, item_line-plain,
  tag_of-item_line, read_lines-concat_lines,
}
use act.Cfg.Parse.Items.{
  IsItem, Setting, Items, apply, IsSetting, setting_tag, setting_value, print_setting,
}
use act.Cfg.Parse.Items.RoundTrip.{
  parse_line-print_setting, setting_fits, setting_value-plain, setting_tag-IsItem,
}

pub data EchoLine (Number Answer : Type 0) : Type 0 where
  setting : Setting Number Answer → EchoLine Number Answer
  passed : Text → EchoLine Number Answer

-- Facts about the lines one after the other.
infixr 3 ◌&◌
abbrev pub ◌&◌ : {A B : Type 0} → A → B → A × B
a & b = (a, b)

-- A numeral of 64 bits has at most twenty digits.
pub length-decimal_64 : (n : ℕ) → n < 2 ^ 64 → length (decimal n []) ≤ 20
unfolding decimal
length-decimal_64 n h = length-decimal_fuel (n + 1) 19 n [] (omega arith)

pub decimal-plain : (n : ℕ) → all plain (decimal n []) ≡ true
decimal-plain n = all-weaken is_digit plain (decimal n []) weaker (decimal-digits n)
  where
    weaker : (c : ℕ) → is_digit c ≡ true → plain c ≡ true
    weaker c h = ground arith

module _ {Config Number Answer : Type 0} (items : Items Config Number Answer) where
  open items use {set_item, size, big}

  -- A line that fits the buffer and changes no configuration.
  abbrev pub Passes : Text → Type 0
  Passes t = Fits size t × ((cfg : Config) → parse_line set_item cfg (end_line t) ≡ cfg)

  abbrev pub line_text : EchoLine Number Answer → Text
  line_text (setting s) = print_setting items s
  line_text (passed t) = t

  abbrev pub line_texts : List (EchoLine Number Answer) → List Text
  line_texts [] = []
  line_texts (l ∷ lines) = line_text l ∷ line_texts lines

  abbrev pub apply_line : EchoLine Number Answer → Config → Config
  apply_line (setting s) cfg = apply items s cfg
  apply_line (passed t) cfg = cfg

  abbrev pub apply_lines : List (EchoLine Number Answer) → Config → Config
  apply_lines [] cfg = cfg
  apply_lines (l ∷ lines) cfg = apply_lines lines (apply_line l cfg)

  abbrev pub IsLine : EchoLine Number Answer → Config → Type 0
  IsLine (setting s) cfg = IsSetting items s cfg
  IsLine (passed t) cfg = Passes t

  abbrev pub AreLines : List (EchoLine Number Answer) → Config → Type 0
  AreLines [] cfg = Unit {0}
  AreLines (l ∷ lines) cfg = IsLine l cfg × AreLines lines (apply_line l cfg)

  -- A line with an item that `set_item` does not know is passed over.
  pub unknown-Passes :
      (tag value : Text)
      → IsItem tag
      → all plain value ≡ true
      → length value + 50 ≤ size
      → ((rest : Text) (cfg : Config) → set_item tag rest cfg ≡ cfg)
      → Passes (item_line tag value)
  unfolding parse_line
  unknown-Passes tag value (t, short) v fits unknown = (
    (item_line-plain tag value t v, omega (arith, length-append tag (b':' ∷ b' ' ∷ value))),
    λ cfg.
        ap (λ p. set_tagged set_item p cfg) (tag_of-item_line tag value t v)
        ∙ unknown (b' ' ∷ end_line value) cfg,
  )

  pub number-Passes :
      (tag : Text) (n : ℕ)
      → IsItem tag
      → n < 2 ^ 64
      → ((rest : Text) (cfg : Config) → set_item tag rest cfg ≡ cfg)
      → Passes (item_line tag (decimal n []))
  number-Passes tag n t h unknown =
      unknown-Passes tag (decimal n []) t (decimal-plain n)
        (omega (arith, big, length-decimal_64 n h)) unknown

  -- A line with another tag, or with none.
  pub tagged-Passes :
      (t : Text) (tag : Option Text) (rest : Text)
      → Fits size t
      → tag_of (end_line t) ≡ (tag, rest)
      → ((cfg : Config) → set_tagged set_item (tag, rest) cfg ≡ cfg)
      → Passes t
  unfolding parse_line
  tagged-Passes t tag rest fits e same =
      (fits, λ cfg. ap (λ p. set_tagged set_item p cfg) e ∙ same cfg)

  line-Fits : (l : EchoLine Number Answer) (cfg : Config) → IsLine l cfg → Fits size (line_text l)
  line-Fits (setting s) cfg h = (
    item_line-plain (setting_tag items s) (setting_value items s) (setting_tag-IsItem items s).0
        (setting_value-plain items s cfg h),
    setting_fits items s cfg h,
  )
  line-Fits (passed t) cfg (fits, same) = fits

  parse_line-line_text :
      (l : EchoLine Number Answer) (cfg : Config)
      → IsLine l cfg
      → parse_line set_item cfg (end_line (line_text l)) ≡ apply_line l cfg
  parse_line-line_text (setting s) cfg h = parse_line-print_setting items s cfg h
  parse_line-line_text (passed t) cfg (fits, same) = same cfg

  lines-AllFit :
      (lines : List (EchoLine Number Answer)) (cfg : Config)
      → AreLines lines cfg
      → AllFit size (line_texts lines)
  lines-AllFit [] cfg h = tt
  lines-AllFit (l ∷ lines) cfg (h, hs) =
      (line-Fits l cfg h, lines-AllFit lines (apply_line l cfg) hs)

  parse_lines-line_texts :
      (lines : List (EchoLine Number Answer)) (cfg : Config)
      → AreLines lines cfg
      → parse_lines set_item cfg (end_lines (line_texts lines)) ≡ apply_lines lines cfg
  unfolding parse_lines
  parse_lines-line_texts [] cfg h = refl
  parse_lines-line_texts (l ∷ lines) cfg (h, hs) =
      ap (λ c. parse_lines set_item c (end_lines (line_texts lines))) (parse_line-line_text l cfg h)
      ∙ parse_lines-line_texts lines (apply_line l cfg) hs

  -- Reading the lines gives the items of the settings among them their values.
  pub parse_lines-concat_lines :
      (lines : List (EchoLine Number Answer)) (cfg : Config)
      → AreLines lines cfg
      → parse_lines set_item cfg (read_lines size (concat_lines (line_texts lines)))
        ≡ apply_lines lines cfg
  parse_lines-concat_lines lines cfg h =
      ap (parse_lines set_item cfg)
        (read_lines-concat_lines size (line_texts lines) (lines-AllFit lines cfg h))
      ∙ parse_lines-line_texts lines cfg h
