-- ===== src/Hardware/Scheduler.antt =====
-- `set_scheduler` of hardware.c: the name of its file fits the array that it is built in.
use act.Common.{
  ℕ, ◌+◌, ◌≤◌, ◌<◌, ◌≡◌, ◌⊎◌, inl, inr, refl, ap, Bool, true, not, none, some, [], ◌∷◌, ◌++◌, ◌==◌,
  arith, Bool-cases, ==→eq,
}
use act.Common.Lists.{length, length-append}
use act.Common.Text.{Text, text}
use act.Common.Text.Tokens.{all}
use act.Cfg.Parse.{max_device_name_size}
use act.Hardware.{after_slash, device_tag, scheduler_file_name}

abbrev pub not_slash : ℕ → Bool
not_slash c = not (c == b'/')

-- A name without a slash is its own tag; of another, the part after the last slash is.
abbrev pub TagOf : Text → Text → Type 0
TagOf name tag =
    (all not_slash tag ≡ true) × ((tag ≡ name) ⊎ ((dir : Text) × (name ≡ dir ++ (b'/' ∷ tag))))

after_slash_lem :
    (name : Text)
    → ((after_slash name ≡ none) × (all not_slash name ≡ true))
      ⊎ ((tag : Text) × (dir : Text) × (after_slash name ≡ some tag)
          × (all not_slash tag ≡ true)
          × (name ≡ dir ++ (b'/' ∷ tag)))
after_slash_lem [] = inl (refl, refl)
after_slash_lem (c ∷ s) = elim (after_slash_lem s) [
  | inr (tag, dir, e, free, split) ↦ rw e (inr (tag, c ∷ dir, refl, free, ap (λ t. c ∷ t) split))
  | inl (e, free) ↦ elim (Bool-cases (c == b'/')) [
    | inl slash ↦ rw (e, slash) (inr (s, [], refl, free, ap (λ d. d ∷ s) (==→eq c b'/' slash)))
    | inr other ↦ rw (e, other) (inl (refl, free))
  ]
]

device_tag-TagOf : (name : Text) → TagOf name (device_tag name)
device_tag-TagOf name = elim (after_slash_lem name) [
  | inl (e, free) ↦ rw e (free, inl refl)
  | inr (tag, dir, e, free, split) ↦ rw e (free, inr (dir, split))
]

-- The file is named after the device's tag, and its name, with the NUL, fits 128 bytes for every name
-- that a configuration can have.
pub scheduler_file_name-TagOf :
    (name : Text)
    → length name < max_device_name_size
    → (tag : Text) × (scheduler_file_name name
        ≡ text "/sys/block/" ++ (tag ++ text "/queue/scheduler"))
      × TagOf name tag
      × (length (scheduler_file_name name) + 1 ≤ 128)
unfolding scheduler_file_name
scheduler_file_name-TagOf name short = (
  device_tag name,
  refl,
  device_tag-TagOf name,
  omega (
    arith,
    length-append (device_tag name) (text "/queue/scheduler"),
    shorter (device_tag-TagOf name),
    short,
  ),
)
  where
    shorter : {tag : Text} → TagOf name tag → length tag ≤ length name
    shorter (free, inl e) = omega (arith, ap length e)
    shorter {tag} (free, inr (dir, e)) = omega (arith, ap length e, length-append dir (b'/' ∷ tag))
