-- ===== src/Clients/Ordering.antt =====
-- src/model/clients.rs, `entry`: the index stays in the strict order of its keys.
use keenetic_rci.Prelude.{
  ◌≡◌, inl, inr, true, false, none, List, [], ◌∷◌, str_eq, str_eq_sound, str_eq_refl, All, All-map,
  arith, refl, ap, ◌∙◌, Bool-cases,
}
use keenetic_rci.Network.Mac.{MacAddress}
use keenetic_rci.Clients.{
  ConnectedClient, mac_ltb, ClientIndex, new_client, update, add_all, client_get,
}

mac_ltb_irrefl : (m : MacAddress) → mac_ltb m m ≡ false
mac_ltb_irrefl [] = refl
mac_ltb_irrefl (a ∷ m) = ground (arith, mac_ltb_irrefl m)

pub mac_ltb_trans :
    (k l m : MacAddress) → mac_ltb k l ≡ true → mac_ltb l m ≡ true → mac_ltb k m ≡ true
mac_ltb_trans [] [] m h h' = absurd (ground arith)
mac_ltb_trans [] (b ∷ l) [] h h' = absurd (ground arith)
mac_ltb_trans [] (b ∷ l) (c ∷ m) h h' = refl
mac_ltb_trans (a ∷ k) [] m h h' = absurd (ground arith)
mac_ltb_trans (a ∷ k) (b ∷ l) [] h h' = absurd (ground arith)
mac_ltb_trans (a ∷ k) (b ∷ l) (c ∷ m) h h' = ground (arith, mac_ltb_trans k l m)

mac_ltb_total : (k m : MacAddress) → str_eq k m ≡ false → mac_ltb k m ≡ false → mac_ltb m k ≡ true
unfolding str_eq
mac_ltb_total [] [] h h' = absurd (ground arith)
mac_ltb_total [] (b ∷ m) h h' = absurd (ground arith)
mac_ltb_total (a ∷ k) [] h h' = refl
mac_ltb_total (a ∷ k) (b ∷ m) h h' = ground (arith, mac_ltb_total k m)

mac_ltb_differs : (k m : MacAddress) → mac_ltb k m ≡ true → str_eq k m ≡ false
mac_ltb_differs k m h = elim (Bool-cases (str_eq k m)) [
  | inl same ↦
      let e = ap (λ x. mac_ltb k x) (str_eq_sound k m same) in
      absurd (ground (arith, mac_ltb_irrefl k, e, h))
  | inr differs ↦ differs
]

pub differs_sym : (k m : MacAddress) → str_eq k m ≡ false → str_eq m k ≡ false
differs_sym k m h = elim (Bool-cases (str_eq m k)) [
  | inl same ↦
      let e = ap (λ x. str_eq k x) (str_eq_sound m k same) in
      absurd (ground (arith, e, h, str_eq_refl k))
  | inr differs ↦ differs
]

-- Every key of the entries is above a key.
abbrev pub Above : MacAddress → ClientIndex → Type 0
Above mac clients = All (λ entry. mac_ltb mac entry.0 ≡ true) clients

-- The entries are in the strict order of their keys, and each is about its key.
abbrev pub IsOrdered : ClientIndex → Type 0
IsOrdered [] = Unit
IsOrdered ((key, client) ∷ clients) = (client.mac ≡ key) × Above key clients × IsOrdered clients

-- A change of a client that leaves it about its address.
abbrev pub KeepsMac : (ConnectedClient → ConnectedClient) → Type 0
KeepsMac change = (client : ConnectedClient) → (change client).mac ≡ client.mac

pub lower_Above :
    (mac key : MacAddress) (clients : ClientIndex)
    → mac_ltb mac key ≡ true
    → Above key clients
    → Above mac clients
lower_Above mac key clients before above =
    All-map _ (λ (entry : MacAddress × ConnectedClient). mac_ltb mac entry.0 ≡ true) clients
      (λ entry k. mac_ltb_trans mac key entry.0 before k) above

update-Above :
    (mac : MacAddress) (change : ConnectedClient → ConnectedClient) (low : MacAddress)
    (clients : ClientIndex)
    → mac_ltb low mac ≡ true
    → Above low clients
    → Above low (update mac change clients)
unfolding update
update-Above mac change low [] h above = (h, tt)
update-Above mac change low ((key, client) ∷ clients) h (first, above) =
    elim (Bool-cases (str_eq mac key)) [
      | inl same ↦ rw same (first, above)
      | inr other ↦ elim (Bool-cases (mac_ltb mac key)) [
        | inl before ↦ rw (other, before) (h, (first, above))
        | inr after ↦ rw (other, after) (first, update-Above mac change low clients h above)
      ]
    ]

-- `entry` keeps the index in the strict order of its keys.
pub update-IsOrdered :
    (mac : MacAddress) (change : ConnectedClient → ConnectedClient) (clients : ClientIndex)
    → KeepsMac change
    → IsOrdered clients
    → IsOrdered (update mac change clients)
unfolding update
update-IsOrdered mac change [] keeps h = (keeps (new_client mac), tt, tt)
update-IsOrdered mac change ((key, client) ∷ clients) keeps (about, above, h) =
    elim (Bool-cases (str_eq mac key)) [
      | inl same ↦ rw same (keeps client ∙ about, above, h)
      | inr other ↦ elim (Bool-cases (mac_ltb mac key)) [
        | inl before ↦
            let higher = lower_Above mac key clients before above in
            rw (other, before) (keeps (new_client mac), (before, higher), (about, above, h))
        | inr after ↦
            let low = mac_ltb_total mac key other after in
            rw (other, after)
              (
                about,
                update-Above mac change key clients low above,
                update-IsOrdered mac change clients keeps h,
              )
      ]
    ]

pub add_all-IsOrdered {ℓ} :
    {A : Type ℓ} (key : A → MacAddress) (put : A → ConnectedClient → ConnectedClient)
    (items : List A) (clients : ClientIndex)
    → ((a : A) → KeepsMac (put a))
    → IsOrdered clients
    → IsOrdered (add_all key put items clients)
unfolding add_all
add_all-IsOrdered key put [] clients keeps h = h
add_all-IsOrdered key put (a ∷ items) clients keeps h =
    add_all-IsOrdered key put items (update (key a) (put a) clients) keeps
      (update-IsOrdered (key a) (put a) clients (keeps a) h)

-- A key below every key of the entries is not among them.
pub client_get-Above :
    (mac : MacAddress) (clients : ClientIndex) → Above mac clients → client_get clients mac ≡ none
unfolding client_get
client_get-Above mac [] h = refl
client_get-Above mac ((key, client) ∷ clients) (first, h) =
    let away : str_eq key mac ≡ false = differs_sym mac key (mac_ltb_differs mac key first) in
    rw away (client_get-Above mac clients h)
