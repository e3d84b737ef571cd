-- ===== src/Cli/Commands.antt =====
-- src/cli.rs, `CliCommand`: which texts are commands.
use keenetic_rci.Prelude.{
  ℕ, ◌≡◌, ◌↔◌, inl, inr, ◌⊎◌, true, false, [], ◌∷◌, Result, ok, err, ok-injective, any, map_err,
  All, arith, refl, sym, ap, ◌∙◌, Bool-cases,
}
use keenetic_rci.Prelude.Str.{Str, is_control}
use keenetic_rci.Prelude.Pieces.{is_whitespace, trim_start, trim_end, kept_end, trim}
use keenetic_rci.Cli.{
  InvalidCliCommand, empty, control_character, CliCommand, is_empty, customized, parse_command,
  serialize_command, deserialize_command,
}

-- A text of white space only, which `trim` leaves empty.
abbrev pub IsBlank : Str → Type 0
IsBlank s = All (λ c. is_whitespace c ≡ true) s

abbrev pub NoControl : Str → Type 0
NoControl s = All (λ c. is_control c ≡ false) s

trim_end_blank : (s : Str) → IsBlank s → trim_end s ≡ []
unfolding trim_end
trim_end_blank [] h = refl
trim_end_blank (c ∷ s) h = rw (trim_end_blank s h.1, h.0) refl

kept_end-IsBlank :
    (c : ℕ) (s rest : Str)
    → trim_end s ≡ rest
    → kept_end c rest ≡ []
    → (trim_end s ≡ [] → IsBlank s)
    → IsBlank (c ∷ s)
kept_end-IsBlank c s [] e h inner = elim (Bool-cases (is_whitespace c)) [
  | inl white ↦ (white, inner e)
  | inr other ↦ absurd (ground (arith, other, h))
]
kept_end-IsBlank c s (d ∷ rest) e h inner = cc

trim_end-IsBlank : (s : Str) → trim_end s ≡ [] → IsBlank s
unfolding trim_end
trim_end-IsBlank [] h = tt
trim_end-IsBlank (c ∷ s) h = kept_end-IsBlank c s (trim_end s) refl h (trim_end-IsBlank s)

trim_start-IsBlank : (s : Str) → IsBlank (trim_start s) → IsBlank s
unfolding trim_start
trim_start-IsBlank [] h = tt
trim_start-IsBlank (c ∷ s) h = elim (Bool-cases (is_whitespace c)) [
  | inl white ↦ (white, trim_start-IsBlank s (rw white at h))
  | inr other ↦ rw other at h
]

trim_start_blank : (s : Str) → IsBlank s → trim_start s ≡ []
unfolding trim_start
trim_start_blank [] h = refl
trim_start_blank (c ∷ s) (white, h) = rw white (trim_start_blank s h)

-- `trim` leaves nothing just of white space.
pub trim_iff : (s : Str) → (trim s ≡ []) ↔ IsBlank s
unfolding trim
trim_iff s = (
  λ h. trim_start-IsBlank s (trim_end-IsBlank (trim_start s) h),
  λ blank. rw (trim_start_blank s blank) (trim_end_blank [] tt),
)

-- What a text is as a command.
pub data IsRead (value : Str) (r : Result CliCommand InvalidCliCommand) : Type 0 where
  blank : IsBlank value → r ≡ err empty → IsRead value r
  controlled : ¬ IsBlank value → ¬ NoControl value → r ≡ err control_character → IsRead value r
  taken : ¬ IsBlank value → NoControl value → r ≡ ok (record { text = value }) → IsRead value r

is_empty-cases :
    (s : Str) → ((is_empty s ≡ true) × (s ≡ [])) ⊎ ((is_empty s ≡ false) × (¬ (s ≡ [])))
is_empty-cases [] = inl (refl, refl)
is_empty-cases (c ∷ s) = inr (refl, λ e. absurd (cc))

any_control_none : (s : Str) → any is_control s ≡ false → NoControl s
any_control_none [] h = tt
any_control_none (c ∷ s) h = (ground (arith, h), any_control_none s (ground (arith, h)))

NoControl-any : (s : Str) → NoControl s → any is_control s ≡ false
NoControl-any [] h = refl
NoControl-any (c ∷ s) (clear, h) = rw (clear, NoControl-any s h) refl

-- A blank text is refused as empty, any other text with a control character for that, and every
-- other text is a command that keeps it unchanged.
pub parse_command-IsRead : (value : Str) → IsRead value (parse_command value)
unfolding parse_command
parse_command-IsRead value =
    let (to, back) = trim_iff value in
    elim (is_empty-cases (trim value)) [
      | inl (e, none_left) ↦ rw e (blank (to none_left) refl)
      | inr (e, some_left) ↦ elim (Bool-cases (any is_control value)) [
        | inl found ↦
            let bad : ¬ NoControl value =
              λ n. absurd (let k = NoControl-any value n in ground arith) in
            rw (e, found) (controlled (λ b. some_left (back b)) bad refl)
        | inr clear ↦
            rw (e, clear) (taken (λ b. some_left (back b)) (any_control_none value clear) refl)
      ]
    ]

IsRead-text :
    (value : Str) (r : Result CliCommand InvalidCliCommand) (command : CliCommand)
    → IsRead value r
    → r ≡ ok command
    → command.text ≡ value
IsRead-text value r command (blank b e) h = cc
IsRead-text value r command (controlled b n e) h = cc
IsRead-text value r command (taken b n e) h =
    let same : ◌≡◌ {A = CliCommand} (record { text = value }) command = ok-injective (sym e ∙ h) in
    sym (ap (λ k. k.text) same)

-- A command that was made from a text is written and read back as the same command.
pub deserialize_command-serialize_command :
    (value : Str) (command : CliCommand)
    → parse_command value ≡ ok command
    → (command.text ≡ value) × (deserialize_command (serialize_command command) ≡ ok command)
unfolding deserialize_command
deserialize_command-serialize_command value command h =
    let same = IsRead-text value (parse_command value) command (parse_command-IsRead value) h in
    (same, ap (λ v. map_err customized (parse_command v)) same ∙ ap (map_err customized) h)
