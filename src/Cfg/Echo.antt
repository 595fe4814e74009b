-- ===== src/Cfg/Echo.antt =====
-- The lines that `echo_configuration` of both configurations prints.
use act.Common.{ℕ, Bool, List, [], ◌∷◌, ◌++◌, if◌then◌else◌}
use act.Common.Text.{Text, text}
use act.Common.Text.Decimal.{decimal}
use act.Cfg.Parse.Lines.{item_line}

-- "%s: %u" or "%s: %lu".
abbrev pub number_line : Text → ℕ → Text
number_line tag n = item_line tag (decimal n [])

-- "%s: %s" of "yes" or "no".
abbrev pub answer_line : Text → Bool → Text
answer_line tag b = item_line tag (if b then text "yes" else text "no")

-- The loop over the names, " %s" for each.
abbrev pub print_names : List Text → Text
print_names [] = []
print_names (d ∷ ds) = b' ' ∷ (d ++ print_names ds)

abbrev pub names_line : List Text → Text
names_line names = text "device-names:" ++ print_names names
