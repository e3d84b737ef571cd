-- ===== src/Clients/Joining.antt =====
-- src/model/clients.rs, `ClientIndex::new` and `get`: the index joins the four answers.
use keenetic_rci.Prelude.{
  ◌≡◌, Bool, true, false, ◌||◌, Option, none, some, List, [], ◌∷◌, ◌++◌, if◌then◌else◌, refl, sym,
  ap, ◌∙◌, append_assoc, append-nil, arith,
}
use keenetic_rci.Network.Mac.{MacAddress}
use keenetic_rci.Clients.{
  ConnectedClient, ClientIndex, new_client, add_all, client_index, client_get, Association,
  HotspotHost, ArpEntry, DhcpBinding, set_association, set_hotspot, push_arp, push_dhcp,
}
use keenetic_rci.Clients.Ordering.{IsOrdered, add_all-IsOrdered}
use keenetic_rci.Clients.Lookup.{found_or, about, put_all, after_all, client_get-add_all}

module _ {ℓ} {A : Type ℓ} where
  abbrev pub last_or : List A → Option A → Option A
  last_or [] earlier = earlier
  last_or (a ∷ items) earlier = last_or items (some a)

  -- The last record of a list.
  abbrev pub last : List A → Option A
  last items = last_or items none

  abbrev pub not_empty : List A → Bool
  not_empty [] = false
  not_empty (a ∷ items) = true

abbrev is_some : Option ConnectedClient → Bool
is_some none = false
is_some (some client) = true

-- What the four answers say of an address: the last association and the last hotspot record about
-- it, and every ARP entry and every lease about it, in order.
abbrev pub joined :
    MacAddress
    → List Association
    → List HotspotHost
    → List ArpEntry
    → List DhcpBinding
    → Option ConnectedClient
joined mac associations hotspot arp dhcp =
    if not_empty associations || not_empty hotspot || not_empty arp || not_empty dhcp
    then some (record {
      mac = mac;
      association = last associations;
      hotspot = last hotspot;
      arp = arp;
      dhcp = dhcp;
    })
    else none

module _ {ℓ} {A : Type ℓ} (key : A → MacAddress) (put : A → ConnectedClient → ConnectedClient) where
  found_or-after_all :
      (mac : MacAddress) (items : List A) (found : Option ConnectedClient)
      → found_or mac (after_all key mac put items found)
        ≡ put_all key put items (found_or mac found)
  found_or-after_all mac [] found = refl
  found_or-after_all mac (a ∷ items) found = refl

  is_some-after_all :
      (mac : MacAddress) (items : List A) (found : Option ConnectedClient)
      → is_some (after_all key mac put items found) ≡ not_empty items || is_some found
  is_some-after_all mac [] found = refl
  is_some-after_all mac (a ∷ items) found = refl

put_all-set_association :
    (key : Association → MacAddress) (items : List Association) (client : ConnectedClient)
    → put_all key set_association items client
      ≡ record client { association = last_or items client.association }
put_all-set_association key [] client = refl
put_all-set_association key (a ∷ items) client =
    put_all-set_association key items (set_association a client)

put_all-set_hotspot :
    (key : HotspotHost → MacAddress) (items : List HotspotHost) (client : ConnectedClient)
    → put_all key set_hotspot items client
      ≡ record client { hotspot = last_or items client.hotspot }
put_all-set_hotspot key [] client = refl
put_all-set_hotspot key (a ∷ items) client = put_all-set_hotspot key items (set_hotspot a client)

put_all-push_arp :
    (key : ArpEntry → MacAddress) (items : List ArpEntry) (client : ConnectedClient)
    → put_all key push_arp items client ≡ record client { arp = client.arp ++ items }
put_all-push_arp key [] client = ap (λ l. record client { arp = l }) (sym (append-nil client.arp))
put_all-push_arp key (a ∷ items) client =
    put_all-push_arp key items (push_arp a client)
    ∙ ap (λ l. record client { arp = l }) (append_assoc client.arp (a ∷ []) items)

put_all-push_dhcp :
    (key : DhcpBinding → MacAddress) (items : List DhcpBinding) (client : ConnectedClient)
    → put_all key push_dhcp items client ≡ record client { dhcp = client.dhcp ++ items }
put_all-push_dhcp key [] client =
    ap (λ l. record client { dhcp = l }) (sym (append-nil client.dhcp))
put_all-push_dhcp key (a ∷ items) client =
    put_all-push_dhcp key items (push_dhcp a client)
    ∙ ap (λ l. record client { dhcp = l }) (append_assoc client.dhcp (a ∷ []) items)

some_found :
    (mac : MacAddress) (o : Option ConnectedClient)
    → o ≡ (if is_some o then some (found_or mac o) else none)
some_found mac none = refl
some_found mac (some client) = refl

or_order : (a b c d : Bool) → (d || (c || (b || (a || false)))) ≡ (a || b || c || d)
or_order true b c d = ground arith
or_order false b c d = ground arith

module _ (associations : List Association) (hotspot : List HotspotHost) (arp : List ArpEntry)
    (dhcp : List DhcpBinding) where
  abbrev association_key : Association → MacAddress
  association_key a = a.mac

  abbrev hotspot_key : HotspotHost → MacAddress
  hotspot_key h = h.mac

  abbrev arp_key : ArpEntry → MacAddress
  arp_key e = e.mac

  abbrev dhcp_key : DhcpBinding → MacAddress
  dhcp_key l = l.mac

  abbrev first : ClientIndex
  first = add_all association_key set_association associations []

  abbrev second : ClientIndex
  second = add_all hotspot_key set_hotspot hotspot first

  abbrev third : ClientIndex
  third = add_all arp_key push_arp arp second

  first-IsOrdered : IsOrdered first
  first-IsOrdered =
      add_all-IsOrdered association_key set_association associations [] (λ a c. refl) tt

  second-IsOrdered : IsOrdered second
  second-IsOrdered =
      add_all-IsOrdered hotspot_key set_hotspot hotspot first (λ a c. refl) first-IsOrdered

  third-IsOrdered : IsOrdered third
  third-IsOrdered = add_all-IsOrdered arp_key push_arp arp second (λ a c. refl) second-IsOrdered

  module _ (mac : MacAddress) where
    abbrev steps : Option ConnectedClient
    steps = after_all dhcp_key mac push_dhcp (about dhcp_key mac dhcp) (
        after_all arp_key mac push_arp (about arp_key mac arp) (
          after_all hotspot_key mac set_hotspot (about hotspot_key mac hotspot) (
            after_all association_key mac set_association (about association_key mac associations)
              none)))

    client_get-steps : client_get (client_index associations hotspot arp dhcp) mac ≡ steps
    unfolding client_index client_get
    client_get-steps =
        rw
          (
            client_get-add_all dhcp_key push_dhcp dhcp third mac (λ a c. refl) third-IsOrdered,
            client_get-add_all arp_key push_arp arp second mac (λ a c. refl) second-IsOrdered,
            client_get-add_all hotspot_key set_hotspot hotspot first mac (λ a c. refl)
                first-IsOrdered,
            client_get-add_all association_key set_association associations [] mac (λ a c. refl) tt,
          )
          refl

    abbrev own_associations : List Association
    own_associations = about association_key mac associations

    abbrev own_hosts : List HotspotHost
    own_hosts = about hotspot_key mac hotspot

    abbrev own_entries : List ArpEntry
    own_entries = about arp_key mac arp

    abbrev own_leases : List DhcpBinding
    own_leases = about dhcp_key mac dhcp

    abbrev step_a : Option ConnectedClient
    step_a = after_all association_key mac set_association own_associations none

    abbrev step_h : Option ConnectedClient
    step_h = after_all hotspot_key mac set_hotspot own_hosts step_a

    abbrev step_r : Option ConnectedClient
    step_r = after_all arp_key mac push_arp own_entries step_h

    known :
        is_some steps
        ≡ not_empty own_associations
          || not_empty own_hosts
          || not_empty own_entries
          || not_empty own_leases
    known =
        is_some-after_all dhcp_key push_dhcp mac own_leases step_r
        ∙ ap (λ b. not_empty own_leases || b)
            (is_some-after_all arp_key push_arp mac own_entries step_h
              ∙ ap (λ b. not_empty own_entries || b)
                  (is_some-after_all hotspot_key set_hotspot mac own_hosts step_a
                    ∙ ap (λ b. not_empty own_hosts || b)
                        (is_some-after_all association_key set_association mac own_associations
                          none)))
        ∙ or_order (not_empty own_associations) (not_empty own_hosts) (not_empty own_entries)
            (not_empty own_leases)

    content : found_or mac steps ≡ record {
      mac = mac;
      association = last own_associations;
      hotspot = last own_hosts;
      arp = own_entries;
      dhcp = own_leases;
    }
    content =
        found_or-after_all dhcp_key push_dhcp mac own_leases step_r
        ∙ put_all-push_dhcp dhcp_key own_leases (found_or mac step_r)
        ∙ ap (λ (c : ConnectedClient). record c { dhcp = c.dhcp ++ own_leases })
            (found_or-after_all arp_key push_arp mac own_entries step_h
              ∙ put_all-push_arp arp_key own_entries (found_or mac step_h)
              ∙ ap (λ (c : ConnectedClient). record c { arp = c.arp ++ own_entries })
                  (found_or-after_all hotspot_key set_hotspot mac own_hosts step_a
                    ∙ put_all-set_hotspot hotspot_key own_hosts (found_or mac step_a)
                    ∙ ap
                        (λ (c : ConnectedClient). record c {
                          hotspot = last_or own_hosts c.hotspot;
                        })
                        (found_or-after_all association_key set_association mac own_associations
                            none
                          ∙ put_all-set_association association_key own_associations
                              (new_client mac))))

    -- At each address `get` finds what the four answers say of it: nothing if none of them has a record
    -- about it, and else the last association and the last hotspot record about it, with every ARP
    -- entry and every lease about it in the order of the answers.
    pub client_get-client_index :
        client_get (client_index associations hotspot arp dhcp) mac
        ≡ joined mac
            (about association_key mac associations)
            (about hotspot_key mac hotspot)
            (about arp_key mac arp)
            (about dhcp_key mac dhcp)
    client_get-client_index = client_get-steps ∙ some_found mac steps ∙ rw (known, content) refl
