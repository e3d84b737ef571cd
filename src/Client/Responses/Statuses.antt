-- ===== src/Client/Responses/Statuses.antt =====
-- src/client.rs, `collect_rci_errors`: which entries are collected.
use keenetic_rci.Prelude.{
  ◌≡◌, ◌↔◌, ◌⊎◌, inl, inr, Option, none, some, List, [], ◌∷◌, ◌++◌, str_eq, str_eq_sound, refl, ap,
  Bool-cases,
}
use keenetic_rci.Prelude.Str.{Str, codes}
use keenetic_rci.Prelude.Optional.{some-injective}
use keenetic_rci.Json.{
  Value, null, boolean, number, string, array, object, Items, no_items, item, Fields, no_fields,
  field,
}
use keenetic_rci.Error.{RciStatusEntry}
use keenetic_rci.Client.Responses.{
  status_entry, kept, status_entries, extended, collect_rci_errors, collect_fields, collect_items,
}
use keenetic_rci.Client.Responses.Entries.{
  IsErrorStatus, status_entry-IsErrorStatus, IsErrorStatus-status_entry,
}

abbrev pub Mem : {A : Type 0} → A → List A → Type 0
Mem a [] = ⊥
Mem a (x ∷ xs) = (x ≡ a) ⊎ Mem a xs

Mem-append : {A : Type 0} (a : A) (xs ys : List A) → Mem a (xs ++ ys) ↔ (Mem a xs ⊎ Mem a ys)
Mem-append a [] ys = (λ h. inr h, λ h. elim h [ inl n ↦ absurd n | inr y ↦ y ])
Mem-append a (x ∷ xs) ys =
    let (to, back) = Mem-append a xs ys in
    (
      λ h. elim h [
        | inl e ↦ inl (inl e)
        | inr later ↦ elim (to later) [ inl l ↦ inl (inr l) | inr r ↦ inr r ]
      ],
      λ h. elim h [
        | inl l ↦ elim l [ inl e ↦ inl e | inr later ↦ inr (back (inl later)) ]
        | inr r ↦ inr (back (inr r))
      ],
    )

module _ (entry : RciStatusEntry) where
  -- One of the values is an error status with the entry.
  pub data ErrorStatus : Items → Type 0 where
    this_status : {v : Value} {vs : Items} → IsErrorStatus entry v → ErrorStatus (item v vs)
    later_status : {v : Value} {vs : Items} → ErrorStatus vs → ErrorStatus (item v vs)

  -- Somewhere in a value an object has a field "status", an array with an error status that has the
  -- entry.
  mutual
    pub data ErrorIn : Value → Type 0 where
      in_object : {fs : Fields} → ErrorInFields fs → ErrorIn (object fs)
      in_array : {vs : Items} → ErrorInItems vs → ErrorIn (array vs)

    pub data ErrorInFields : Fields → Type 0 where
      in_status :
          {vs : Items} {rest : Fields}
          → ErrorStatus vs
          → ErrorInFields (field (codes "status") (array vs) rest)
      in_child :
          {key : Str} {v : Value} {rest : Fields} → ErrorIn v → ErrorInFields (field key v rest)
      in_rest :
          {key : Str} {v : Value} {rest : Fields}
          → ErrorInFields rest
          → ErrorInFields (field key v rest)

    pub data ErrorInItems : Items → Type 0 where
      in_first : {v : Value} {vs : Items} → ErrorIn v → ErrorInItems (item v vs)
      in_others : {v : Value} {vs : Items} → ErrorInItems vs → ErrorInItems (item v vs)

  Mem-kept :
      (o : Option RciStatusEntry) (es : List RciStatusEntry)
      → Mem entry (kept o es) ↔ ((o ≡ some entry) ⊎ Mem entry es)
  Mem-kept none es = (λ h. inr h, λ h. elim h [ inl e ↦ absurd (cc) | inr l ↦ l ])
  Mem-kept (some x) es = (
    λ h. elim h [ inl e ↦ inl (ap some e) | inr l ↦ inr l ],
    λ h. elim h [ inl e ↦ inl (some-injective e) | inr l ↦ inr l ],
  )

  no_status : ErrorStatus no_items → Mem entry []
  no_status s = elim s [ ]

  status_parts :
      {v : Value} {vs : Items} {M : Type 0}
      → (ErrorStatus vs → M)
      → ErrorStatus (item v vs)
      → (status_entry v ≡ some entry) ⊎ M
  status_parts f (this_status {v} e) = inl (IsErrorStatus-status_entry v entry e)
  status_parts f (later_status s) = inr (f s)

  Mem-status_entries : (vs : Items) → Mem entry (status_entries vs) ↔ ErrorStatus vs
  Mem-status_entries no_items = (λ h. absurd h, λ s. no_status s)
  Mem-status_entries (item v vs) =
      let (to, back) = Mem-status_entries vs in
      let (kept_to, kept_back) = Mem-kept (status_entry v) (status_entries vs) in
      (
        λ h. elim (kept_to h) [
          | inl e ↦ this_status (status_entry-IsErrorStatus v entry e)
          | inr l ↦ later_status (to l)
        ],
        λ s. kept_back (status_parts back s),
      )

  -- What the two conditions add.
  Mem-extended :
      (key : Str) (child : Value) (es : List RciStatusEntry)
      → Mem entry (extended key child es)
      → Mem entry es ⊎ ((vs : Items) × (key ≡ codes "status") × (child ≡ array vs) × ErrorStatus vs)
  Mem-extended key (array vs) es h = elim (Bool-cases (str_eq key (codes "status"))) [
    | inl same ↦ elim ((Mem-append entry es (status_entries vs)).0 (rw same at h)) [
      | inl l ↦ inl l
      | inr r ↦ inr (vs, str_eq_sound key (codes "status") same, refl, (Mem-status_entries vs).0 r)
    ]
    | inr other ↦ inl (rw other at h)
  ]
  Mem-extended key null es h = inl h
  Mem-extended key (boolean b) es h = inl h
  Mem-extended key (number n) es h = inl h
  Mem-extended key (string s) es h = inl h
  Mem-extended key (object fs) es h = inl h

  Mem-extended_before :
      (key : Str) (child : Value) (es : List RciStatusEntry)
      → Mem entry es
      → Mem entry (extended key child es)
  Mem-extended_before key (array vs) es h = elim (Bool-cases (str_eq key (codes "status"))) [
    | inl same ↦ rw same ((Mem-append entry es (status_entries vs)).1 (inl h))
    | inr other ↦ rw other h
  ]
  Mem-extended_before key null es h = h
  Mem-extended_before key (boolean b) es h = h
  Mem-extended_before key (number n) es h = h
  Mem-extended_before key (string s) es h = h
  Mem-extended_before key (object fs) es h = h

  Mem-extended_status :
      (vs : Items) (es : List RciStatusEntry)
      → ErrorStatus vs
      → Mem entry (extended (codes "status") (array vs) es)
  unfolding str_eq
  Mem-extended_status vs es s =
      (Mem-append entry es (status_entries vs)).1 (inr ((Mem-status_entries vs).1 s))

  own_status :
      (key : Str) (child : Value) (rest : Fields) (vs : Items)
      → key ≡ codes "status"
      → child ≡ array vs
      → ErrorStatus vs
      → ErrorInFields (field key child rest)
  own_status key child rest vs k c s = rw (k, c) (in_status s)

  mutual
    unfolding collect_rci_errors collect_fields collect_items

    collected-ErrorIn :
        (v : Value) (es : List RciStatusEntry)
        → Mem entry (collect_rci_errors v es)
        → Mem entry es ⊎ ErrorIn v
    collected-ErrorIn (object fs) es h = elim (fields-ErrorIn fs es h) [
      | inl l ↦ inl l
      | inr r ↦ inr (in_object r)
    ]
    collected-ErrorIn (array vs) es h = elim (items-ErrorIn vs es h) [
      | inl l ↦ inl l
      | inr r ↦ inr (in_array r)
    ]
    collected-ErrorIn null es h = inl h
    collected-ErrorIn (boolean b) es h = inl h
    collected-ErrorIn (number n) es h = inl h
    collected-ErrorIn (string s) es h = inl h

    fields-ErrorIn :
        (fs : Fields) (es : List RciStatusEntry)
        → Mem entry (collect_fields fs es)
        → Mem entry es ⊎ ErrorInFields fs
    fields-ErrorIn no_fields es h = inl h
    fields-ErrorIn (field key child rest) es h =
        elim (fields-ErrorIn rest (collect_rci_errors child (extended key child es)) h) [
          | inr r ↦ inr (in_rest r)
          | inl l ↦ elim (collected-ErrorIn child (extended key child es) l) [
            | inr r ↦ inr (in_child r)
            | inl l' ↦ elim (Mem-extended key child es l') [
              | inl first ↦ inl first
              | inr (vs, k, c, s) ↦ inr (own_status key child rest vs k c s)
            ]
          ]
        ]

    items-ErrorIn :
        (vs : Items) (es : List RciStatusEntry)
        → Mem entry (collect_items vs es)
        → Mem entry es ⊎ ErrorInItems vs
    items-ErrorIn no_items es h = inl h
    items-ErrorIn (item v vs) es h = elim (items-ErrorIn vs (collect_rci_errors v es) h) [
      | inr r ↦ inr (in_others r)
      | inl l ↦ elim (collected-ErrorIn v es l) [ inl first ↦ inl first | inr r ↦ inr (in_first r) ]
    ]

  mutual
    unfolding collect_rci_errors collect_fields collect_items

    kept_before :
        (v : Value) (es : List RciStatusEntry) → Mem entry es → Mem entry (collect_rci_errors v es)
    kept_before (object fs) es h = fields_before fs es h
    kept_before (array vs) es h = items_before vs es h
    kept_before null es h = h
    kept_before (boolean b) es h = h
    kept_before (number n) es h = h
    kept_before (string s) es h = h

    fields_before :
        (fs : Fields) (es : List RciStatusEntry) → Mem entry es → Mem entry (collect_fields fs es)
    fields_before no_fields es h = h
    fields_before (field key child rest) es h =
        fields_before rest _ (kept_before child _ (Mem-extended_before key child es h))

    items_before :
        (vs : Items) (es : List RciStatusEntry) → Mem entry es → Mem entry (collect_items vs es)
    items_before no_items es h = h
    items_before (item v vs) es h = items_before vs _ (kept_before v es h)

  mutual
    unfolding collect_rci_errors collect_fields collect_items

    ErrorIn-collected :
        (v : Value) (es : List RciStatusEntry) → ErrorIn v → Mem entry (collect_rci_errors v es)
    ErrorIn-collected v es (in_object d) = fields_collected _ es d
    ErrorIn-collected v es (in_array d) = items_collected _ es d

    fields_collected :
        (fs : Fields) (es : List RciStatusEntry)
        → ErrorInFields fs
        → Mem entry (collect_fields fs es)
    fields_collected fs es (in_status {vs} {rest} s) =
        fields_before rest _ (kept_before (array vs) _ (Mem-extended_status vs es s))
    fields_collected fs es (in_child {key} {v} {rest} d) =
        fields_before rest _ (ErrorIn-collected v (extended key v es) d)
    fields_collected fs es (in_rest {key} {v} {rest} d) =
        fields_collected rest (collect_rci_errors v (extended key v es)) d

    items_collected :
        (vs : Items) (es : List RciStatusEntry) → ErrorInItems vs → Mem entry (collect_items vs es)
    items_collected vs es (in_first {v} {vs = rest} d) =
        items_before rest _ (ErrorIn-collected v es d)
    items_collected vs es (in_others {v} {vs = rest} d) =
        items_collected rest (collect_rci_errors v es) d

  -- An entry is collected from an answer just if somewhere in it, at any depth, an object has a field
  -- "status", an array with an error status that has the entry.
  pub collect_rci_errors_iff :
      (value : Value) → Mem entry (collect_rci_errors value []) ↔ ErrorIn value
  collect_rci_errors_iff value = (
    λ h. elim (collected-ErrorIn value [] h) [ inl n ↦ absurd n | inr r ↦ r ],
    λ d. ErrorIn-collected value [] d,
  )
