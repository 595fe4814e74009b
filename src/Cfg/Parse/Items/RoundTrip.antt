-- ===== src/Cfg/Parse/Items/RoundTrip.antt =====
-- Reading the files that give items their values.
use act.Common.{
  ℕ, ◌+◌, ◌^◌, ◌≤◌, ◌≡◌, refl, sym, ap, ◌∙◌, true, false, List, [], ◌∷◌, if◌then◌else◌, arith,
  lt→ltb,
}
use act.Common.Lists.{length, length-append}
use act.Common.Text.{Text, is_digit}
use act.Common.Text.Decimal.{decimal}
use act.Common.Text.Tokens.{all, all-weaken, decimal-append, decimal-digits, length-decimal}
use act.Cfg.Parse.{parse_uint32, read_lines, parse_lines, parse_line, set_tagged}
use act.Cfg.Parse.Values.{
  yes_no, mode_text, parse_uint32-decimal, parse_yes_no-yes_no, parse_scheduler_mode-mode_text,
}
use act.Cfg.Parse.Names.{
  Separator, separator, name_char, names_text, names_text-all, parse_device_names-names_text,
}
use act.Cfg.Parse.Lines.{
  plain, end_line, end_lines, AllFit, item_line, item_line-plain, tag_of-item_line,
  read_lines-concat_lines,
}
use act.Cfg.Parse.Items.{
  IsItem, Setting, devices, number, answer, scheduler, Items, apply, apply_all, IsSetting,
  AreSettings, setting_tag, setting_value, print_setting, print_settings, print_file,
}

module _ {Config Number Answer : Type 0} (items : Items Config Number Answer) where
  open items use {
    set_item, max, size, number_tag, answer_tag, names, set_names, set_number, set_answer, set_mode,
    number_tag-IsItem, answer_tag-IsItem, big, set_item-names, set_item-number, set_item-answer,
    set_item-mode,
  }

  pub digit_is_plain : (c : ℕ) → is_digit c ≡ true → plain c ≡ true
  digit_is_plain c h = ground arith

  pub name_char_is_plain : (c : ℕ) → name_char c ≡ true → plain c ≡ true
  name_char_is_plain c h = ground arith

  separator-plain : (sep : Separator) → plain (separator sep) ≡ true
  separator-plain Separator.comma = refl
  separator-plain Separator.semicolon = refl
  separator-plain Separator.blank = refl
  separator-plain Separator.tab = refl

  pub setting_tag-IsItem : (s : Setting Number Answer) → IsItem (setting_tag items s)
  setting_tag-IsItem (devices sep n ns) = (refl, omega arith)
  setting_tag-IsItem (number i v) = number_tag-IsItem i
  setting_tag-IsItem (answer i b) = answer_tag-IsItem i
  setting_tag-IsItem (scheduler cfq) = (refl, omega arith)

  pub setting_value-plain :
      (s : Setting Number Answer) (cfg : Config)
      → IsSetting items s cfg
      → all plain (setting_value items s) ≡ true
  setting_value-plain (devices sep n ns) cfg (h, hs, room, fits) =
      names_text-all plain sep name_char_is_plain (separator-plain sep) n ns h hs
  setting_value-plain (number i v) cfg h =
      all-weaken is_digit plain (decimal v []) digit_is_plain (decimal-digits v)
  setting_value-plain (answer i true) cfg h = refl
  setting_value-plain (answer i false) cfg h = refl
  setting_value-plain (scheduler true) cfg h = refl
  setting_value-plain (scheduler false) cfg h = refl

  value_fits :
      (tag value : Text)
      → length tag ≤ 40
      → length value ≤ 50
      → length (item_line tag value) + 2 ≤ size
  value_fits tag value t v = omega (arith, big, length-append tag (b':' ∷ b' ' ∷ value))

  pub setting_fits :
      (s : Setting Number Answer) (cfg : Config)
      → IsSetting items s cfg
      → length (print_setting items s) + 2 ≤ size
  setting_fits (devices sep n ns) cfg (h, hs, room, fits) = omega arith
  setting_fits (number i v) cfg h =
      value_fits (number_tag i) (decimal v []) (number_tag-IsItem i).1
        (omega (arith, length-decimal v h))
  setting_fits (answer i true) cfg h =
      value_fits (answer_tag i) (yes_no true) (answer_tag-IsItem i).1 (omega arith)
  setting_fits (answer i false) cfg h =
      value_fits (answer_tag i) (yes_no false) (answer_tag-IsItem i).1 (omega arith)
  setting_fits (scheduler true) cfg h = omega (arith, big)
  setting_fits (scheduler false) cfg h = omega (arith, big)

  -- What the item of a setting sets, from the position after the tag.
  set_item_lem :
      (s : Setting Number Answer) (cfg : Config)
      → IsSetting items s cfg
      → set_item (setting_tag items s) (b' ' ∷ end_line (setting_value items s)) cfg
        ≡ apply items s cfg
  set_item_lem (devices sep n ns) cfg (h, hs, room, fits) =
      set_item-names (b' ' ∷ end_line (names_text sep n ns)) cfg
      ∙ ap (λ ms. set_names ms cfg)
          (parse_device_names-names_text max (names cfg) sep n ns h hs room)
  set_item_lem (number i v) cfg h =
      set_item-number i (b' ' ∷ end_line (decimal v [])) cfg
      ∙ ap (λ k. set_number i k cfg)
          (ap (λ t. parse_uint32 (b' ' ∷ t)) (sym (decimal-append v (b'\n' ∷ [])))
            ∙ parse_uint32-decimal v [])
      ∙ ap (λ b. set_number i (if b then v else 0) cfg) (lt→ltb v (2 ^ 32) h)
  set_item_lem (answer i b) cfg h =
      set_item-answer i (b' ' ∷ end_line (yes_no b)) cfg
      ∙ ap (λ c. set_answer i c cfg) (parse_yes_no-yes_no b)
  set_item_lem (scheduler cfq) cfg h =
      set_item-mode (b' ' ∷ end_line (mode_text cfq)) cfg
      ∙ ap (λ m. set_mode m cfg) (parse_scheduler_mode-mode_text cfq)

  pub parse_line-print_setting :
      (s : Setting Number Answer) (cfg : Config)
      → IsSetting items s cfg
      → parse_line set_item cfg (end_line (print_setting items s)) ≡ apply items s cfg
  unfolding parse_line
  parse_line-print_setting s cfg h =
      ap (λ t. set_tagged set_item t cfg)
        (tag_of-item_line (setting_tag items s) (setting_value items s) (setting_tag-IsItem s).0
          (setting_value-plain s cfg h))
      ∙ set_item_lem s cfg h

  parse_lines-end_lines :
      (settings : List (Setting Number Answer)) (cfg : Config)
      → AreSettings items settings cfg
      → parse_lines set_item cfg (end_lines (print_settings items settings))
        ≡ apply_all items settings cfg
  unfolding parse_lines
  parse_lines-end_lines [] cfg h = refl
  parse_lines-end_lines (s ∷ settings) cfg (h, hs) =
      ap (λ c. parse_lines set_item c (end_lines (print_settings items settings)))
        (parse_line-print_setting s cfg h)
      ∙ parse_lines-end_lines settings (apply items s cfg) hs

  all_fit :
      (settings : List (Setting Number Answer)) (cfg : Config)
      → AreSettings items settings cfg
      → AllFit size (print_settings items settings)
  all_fit [] cfg h = tt
  all_fit (s ∷ settings) cfg (h, hs) = (
    (
      item_line-plain (setting_tag items s) (setting_value items s) (setting_tag-IsItem s).0
          (setting_value-plain s cfg h),
      setting_fits s cfg h,
    ),
    all_fit settings (apply items s cfg) hs,
  )

  -- Reading a file of settings gives the items their values, in whatever order and however often they
  -- come.
  pub parse_lines-print_file :
      (settings : List (Setting Number Answer)) (cfg : Config)
      → AreSettings items settings cfg
      → parse_lines set_item cfg (read_lines size (print_file items settings))
        ≡ apply_all items settings cfg
  parse_lines-print_file settings cfg h =
      ap (parse_lines set_item cfg)
        (read_lines-concat_lines size (print_settings items settings) (all_fit settings cfg h))
      ∙ parse_lines-end_lines settings cfg h
