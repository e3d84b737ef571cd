-- ===== src/System/Supported.antt =====
-- src/model/system_mode.rs, `deserialize_supported_modes`: which lists of modes are taken.
use keenetic_rci.Prelude.{
  ◌≡◌, ◌↔◌, [], ◌∷◌, List, ok, >>=-eq-ok, ok-injective, map, All, refl, ap, ap₂, sym, ◌∙◌,
}
use keenetic_rci.Prelude.Str.{Str}
use keenetic_rci.Prelude.Pieces.{trim, split}
use keenetic_rci.Json.{string}
use keenetic_rci.Classifiers.Modes.{
  SystemOperatingMode, system_operating_mode, system_operating_mode_str, modes_texts,
}
use keenetic_rci.System.{supported_mode, supported_modes, deserialize_supported_modes}

abbrev named : Str → SystemOperatingMode
named piece = system_operating_mode (trim piece)

abbrev pub IsNamed : Str → Type 0
IsNamed piece = ¬ (trim piece ≡ [])

mode-eq-ok :
    (text : Str) (mode : SystemOperatingMode)
    → supported_mode text ≡ ok mode
    → ¬ (text ≡ []) × (mode ≡ system_operating_mode text)
unfolding supported_mode
mode-eq-ok [] mode h = cc
mode-eq-ok (c ∷ text) mode h = (λ e. cc, sym (ok-injective h))

mode_taken : (text : Str) → ¬ (text ≡ []) → supported_mode text ≡ ok (system_operating_mode text)
unfolding supported_mode
mode_taken [] h = absurd (h refl)
mode_taken (c ∷ text) h = refl

modes-eq-ok :
    (pieces : List Str) (modes : List SystemOperatingMode)
    → supported_modes pieces ≡ ok modes
    → All IsNamed pieces × (modes ≡ map named pieces)
unfolding supported_modes
modes-eq-ok [] modes h = (tt, sym (ok-injective h))
modes-eq-ok (piece ∷ pieces) modes h =
    let (mode, first, more) = >>=-eq-ok _ _ h in
    let (rest, others, last) = >>=-eq-ok _ _ more in
    let (there, same) = mode-eq-ok (trim piece) mode first in
    let (all_there, all_same) = modes-eq-ok pieces rest others in
    ((there, all_there), sym (ok-injective last) ∙ ap₂ ◌∷◌ same all_same)

modes_taken :
    (pieces : List Str) → All IsNamed pieces → supported_modes pieces ≡ ok (map named pieces)
unfolding supported_modes
modes_taken [] h = refl
modes_taken (piece ∷ pieces) (there, all_there) =
    rw (mode_taken (trim piece) there, modes_taken pieces all_there) refl

texts_kept :
    (pieces : List Str) → map system_operating_mode_str (map named pieces) ≡ map trim pieces
texts_kept [] = refl
texts_kept (piece ∷ pieces) = ap₂ ◌∷◌ (modes_texts (trim piece)) (texts_kept pieces)

-- A text is taken as a list of supported modes just if no piece between its commas is blank; the
-- modes are then those that the trimmed pieces name, in order, and they show these pieces again.
pub deserialize_supported_modes_iff :
    (value : Str) (modes : List SystemOperatingMode)
    → (deserialize_supported_modes (string value) ≡ ok modes) ↔ (
        All IsNamed (split b',' value)
        × (modes ≡ map (λ piece. system_operating_mode (trim piece)) (split b',' value))
        × (map system_operating_mode_str modes ≡ map trim (split b',' value)))
unfolding deserialize_supported_modes
deserialize_supported_modes_iff value modes = (
  λ h.
      let (there, same) = modes-eq-ok (split b',' value) modes h in
      (there, same, ap (map system_operating_mode_str) same ∙ texts_kept (split b',' value)),
  λ (there, same, shown). modes_taken (split b',' value) there ∙ ap ok (sym same),
)
