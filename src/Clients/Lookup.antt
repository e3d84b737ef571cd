-- ===== src/Clients/Lookup.antt =====
-- src/model/clients.rs: what `get` finds after the loops of `ClientIndex::new`.
use keenetic_rci.Prelude.{
  ◌≡◌, inl, inr, true, Option, none, some, List, [], ◌∷◌, if◌then◌else◌, str_eq, str_eq_sound,
  str_eq_refl, refl, sym, ap, ◌∙◌, Bool-cases,
}
use keenetic_rci.Network.Mac.{MacAddress}
use keenetic_rci.Clients.{
  ConnectedClient, mac_ltb, ClientIndex, new_client, update, add_all, client_get,
}
use keenetic_rci.Clients.Ordering.{
  lower_Above, IsOrdered, KeepsMac, update-IsOrdered, client_get-Above, differs_sym,
}

-- The client that was found, or the one that `entry` inserts.
abbrev pub found_or : MacAddress → Option ConnectedClient → ConnectedClient
found_or mac none = new_client mac
found_or mac (some client) = client

-- After a change at an address, `get` finds there what was changed, and at any other address what it
-- found before.
pub client_get-update :
    (mac : MacAddress) (change : ConnectedClient → ConnectedClient) (clients : ClientIndex)
    (other : MacAddress)
    → IsOrdered clients
    → client_get (update mac change clients) other ≡ (
        if str_eq mac other
        then some (change (found_or mac (client_get clients mac)))
        else client_get clients other)
unfolding client_get update
client_get-update mac change [] other h = refl
client_get-update mac change ((key, client) ∷ clients) other (about, above, h) =
    elim (Bool-cases (str_eq mac key)) [
      | inl same ↦
          let e = str_eq_sound mac key same in
          let here : str_eq key mac ≡ true = ap (λ k. str_eq k mac) (sym e) ∙ str_eq_refl mac in
          let both = ap (λ k. str_eq k other) e in
          elim (Bool-cases (str_eq mac other)) [
            | inl at ↦ rw (same, here, at, sym both ∙ at) refl
            | inr away ↦ rw (same, here, away, sym both ∙ away) refl
          ]
      | inr differs ↦
          let apart = differs_sym mac key differs in
          elim (Bool-cases (mac_ltb mac key)) [
            | inl before ↦
                let lower =
                  client_get-Above mac clients (lower_Above mac key clients before above) in
                rw (differs, before, apart, lower) refl
            | inr after ↦
                let inner = client_get-update mac change clients other h in
                elim (Bool-cases (str_eq key other)) [
                  | inl at ↦
                      let not_there =
                        ap (λ k. str_eq mac k) (sym (str_eq_sound key other at)) ∙ differs in
                      rw (differs, after, apart, at, not_there) refl
                  | inr away ↦ rw (differs, after, apart, away, inner) refl
                ]
          ]
    ]

module _ {ℓ} {A : Type ℓ} (key : A → MacAddress) where
  -- The records about an address, in their order.
  abbrev pub about : MacAddress → List A → List A
  about mac [] = []
  about mac (a ∷ items) =
      let rest = about mac items in if str_eq (key a) mac then a ∷ rest else rest

  abbrev pub put_all :
      (A → ConnectedClient → ConnectedClient) → List A → ConnectedClient → ConnectedClient
  put_all put [] client = client
  put_all put (a ∷ items) client = put_all put items (put a client)

  -- What the records about an address make of what was found there.
  abbrev pub after_all :
      MacAddress
      → (A → ConnectedClient → ConnectedClient)
      → List A
      → Option ConnectedClient
      → Option ConnectedClient
  after_all mac put [] found = found
  after_all mac put (a ∷ items) found = some (put_all put (a ∷ items) (found_or mac found))

  after_all-some :
      (mac : MacAddress) (put : A → ConnectedClient → ConnectedClient) (items : List A)
      (client : ConnectedClient)
      → after_all mac put items (some client) ≡ some (put_all put items client)
  after_all-some mac put [] client = refl
  after_all-some mac put (a ∷ items) client = refl

  -- After a loop over records, `get` finds at each address what the records about it make of what was
  -- there before.
  pub client_get-add_all :
      (put : A → ConnectedClient → ConnectedClient) (items : List A) (clients : ClientIndex)
      (mac : MacAddress)
      → ((a : A) → KeepsMac (put a))
      → IsOrdered clients
      → client_get (add_all key put items clients) mac
        ≡ after_all mac put (about mac items) (client_get clients mac)
  unfolding add_all
  client_get-add_all put [] clients mac keeps h = refl
  client_get-add_all put (a ∷ items) clients mac keeps h =
      let next = update (key a) (put a) clients in
      let ordered = update-IsOrdered (key a) (put a) clients (keeps a) h in
      let inner = client_get-add_all put items next mac keeps ordered in
      let step = client_get-update (key a) (put a) clients mac h in
      elim (Bool-cases (str_eq (key a) mac)) [
        | inl here ↦
            let e = str_eq_sound (key a) mac here in
            let now : client_get next mac ≡ some (put a (found_or mac (client_get clients mac))) =
              step ∙ rw here (ap (λ k. some (put a (found_or k (client_get clients k)))) e) in
            inner ∙ rw (here, now) (after_all-some mac put (about mac items) _)
        | inr away ↦
            let now : client_get next mac ≡ client_get clients mac = step ∙ rw away refl in
            inner ∙ rw (away, now) refl
      ]
