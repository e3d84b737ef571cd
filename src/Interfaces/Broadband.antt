-- ===== src/Interfaces/Broadband.antt =====
-- src/model.rs, `Interfaces::lte` and `Interface::is_mobile_broadband`.
use keenetic_rci.Prelude.{
  ◌≡◌, ◌↔◌, ◌⊎◌, inl, inr, Bool, true, List, [], ◌∷◌, ◌||◌, map, refl, sym, ap, any, arith, str_eq,
  str_eq_sound, Bool-cases, ◌∙◌,
}
use keenetic_rci.Prelude.Str.{Str, codes}
use keenetic_rci.OpenEnum.{from_wire}
use keenetic_rci.Interfaces.{
  Interface, Interfaces, interface_trait, is_mobile_trait, is_mobile_broadband, lte,
}

-- The three texts that mark a mobile interface.
abbrev pub IsMobileText : Str → Type 0
IsMobileText text = (text ≡ codes "Mobile") ⊎ (text ≡ codes "UsbLte") ⊎ (text ≡ codes "UsbQmi")

abbrev pub Mentions : List Str → Type 0
Mentions [] = ⊥
Mentions (text ∷ texts) = IsMobileText text ⊎ Mentions texts

-- An interface whose traits are those that the router reported by these texts.
abbrev pub HasTraits : Interface → List Str → Type 0
HasTraits interface texts = interface.traits ≡ map interface_trait texts

abbrev mobile_text : Str → Bool
mobile_text text =
    str_eq (codes "Mobile") text || str_eq (codes "UsbLte") text || str_eq (codes "UsbQmi") text

is_mobile_trait-interface_trait :
    (text : Str) → is_mobile_trait (interface_trait text) ≡ mobile_text text
unfolding interface_trait from_wire
is_mobile_trait-interface_trait text = elim (Bool-cases (str_eq (codes "Mobile") text)) [
  | inl a ↦ rw a refl
  | inr a ↦ elim (Bool-cases (str_eq (codes "UsbLte") text)) [
    | inl b ↦ rw (a, b) refl
    | inr b ↦ elim (Bool-cases (str_eq (codes "UsbQmi") text)) [
      | inl c ↦ rw (a, b, c) refl
      | inr c ↦ elim (Bool-cases (str_eq (codes "Ip") text)) [
        | inl d ↦ rw (a, b, c, d) refl
        | inr d ↦ elim (Bool-cases (str_eq (codes "Ip6") text)) [
          | inl e ↦ rw (a, b, c, d, e) refl
          | inr e ↦ rw (a, b, c, d, e) refl
        ]
      ]
    ]
  ]
]

mobile_text-IsMobileText : (text : Str) → mobile_text text ≡ true → IsMobileText text
mobile_text-IsMobileText text h = elim (Bool-cases (str_eq (codes "Mobile") text)) [
  | inl a ↦ inl (sym (str_eq_sound (codes "Mobile") text a))
  | inr a ↦ elim (Bool-cases (str_eq (codes "UsbLte") text)) [
    | inl b ↦ inr (inl (sym (str_eq_sound (codes "UsbLte") text b)))
    | inr b ↦ inr (inr (sym (str_eq_sound (codes "UsbQmi") text (ground (arith, a, b, h)))))
  ]
]

IsMobileText-mobile_text : (text : Str) → IsMobileText text → mobile_text text ≡ true
unfolding str_eq
IsMobileText-mobile_text text (inl e) = rw e refl
IsMobileText-mobile_text text (inr (inl e)) = rw e refl
IsMobileText-mobile_text text (inr (inr e)) = rw e refl

any_mobile_iff :
    (texts : List Str) → (any is_mobile_trait (map interface_trait texts) ≡ true) ↔ Mentions texts
any_mobile_iff [] = (λ h. absurd (cc), λ h. absurd h)
any_mobile_iff (text ∷ texts) =
    let (to, back) = any_mobile_iff texts in
    let same = is_mobile_trait-interface_trait text in
    (
      λ h. elim (Bool-cases (mobile_text text)) [
        | inl here ↦ inl (mobile_text-IsMobileText text here)
        | inr away ↦ inr (to (ground (arith, same, away, h)))
      ],
      λ h. elim h [
        | inl here ↦ ground (arith, same, IsMobileText-mobile_text text here)
        | inr later ↦ ground (arith, back later)
      ],
    )

-- An interface whose traits the router reported is mobile just if one of their texts is "Mobile",
-- "UsbLte" or "UsbQmi".
pub is_mobile_broadband_iff :
    (interface : Interface) (texts : List Str)
    → HasTraits interface texts
    → (is_mobile_broadband interface ≡ true) ↔ Mentions texts
unfolding is_mobile_broadband
is_mobile_broadband_iff interface texts traits =
    let (to, back) = any_mobile_iff texts in
    let same = ap (any is_mobile_trait) traits in (λ h. to (sym same ∙ h), λ m. same ∙ back m)

-- The router's map with the mobile interfaces chosen from it, in its order; the list of lists of
-- texts are the traits that the router reported, entry by entry.
pub data Chooses : List (List Str) → Interfaces → Interfaces → Type 0 where
  finished : Chooses [] [] []
  chosen :
      {name : Str} {i : Interface} {texts : List Str} {reports : List (List Str)}
      {rest selected : Interfaces}
      → Mentions texts
      → Chooses reports rest selected
      → Chooses (texts ∷ reports) ((name, i) ∷ rest) ((name, i) ∷ selected)
  passed :
      {name : Str} {i : Interface} {texts : List Str} {reports : List (List Str)}
      {rest selected : Interfaces}
      → ¬ Mentions texts
      → Chooses reports rest selected
      → Chooses (texts ∷ reports) ((name, i) ∷ rest) selected

abbrev pub ReportedAs : List (List Str) → Interfaces → Type 0
ReportedAs [] [] = Unit
ReportedAs [] (entry ∷ rest) = ⊥
ReportedAs (texts ∷ reports) [] = ⊥
ReportedAs (texts ∷ reports) ((name, i) ∷ rest) = HasTraits i texts × ReportedAs reports rest

-- `lte` keeps, in order, just the interfaces for which the router reported the trait "Mobile",
-- "UsbLte" or "UsbQmi".
pub lte-Chooses :
    (reports : List (List Str)) (interfaces : Interfaces)
    → ReportedAs reports interfaces
    → Chooses reports interfaces (lte interfaces)
unfolding lte
lte-Chooses [] [] h = finished
lte-Chooses [] (entry ∷ rest) h = absurd h
lte-Chooses (texts ∷ reports) [] h = absurd h
lte-Chooses (texts ∷ reports) ((name, i) ∷ rest) (traits, h) =
    let (to, back) = is_mobile_broadband_iff i texts traits in
    let inner = lte-Chooses reports rest h in
    elim (Bool-cases (is_mobile_broadband i)) [
      | inl here ↦ rw here (chosen (to here) inner)
      | inr away ↦ rw away (passed (λ m. let e = back m in absurd (ground arith)) inner)
    ]
