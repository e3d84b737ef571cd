-- ===== src/NetworkTest/Ping.antt =====
-- src/request/network_test.rs, `Ping` and `PingIpv6`: `PingParameters` for a tool and its family.
use keenetic_rci.Prelude.{
  ℕ, ◌≤◌, ◌≡◌, Option, none, some, List, [], ◌∷◌, ◌++◌, Result, ok, ◌>>=◌, >>=-eq-ok, ensures, All,
  arith, refl, ◌∙◌, sym, ap, subst, map_err, map_err-eq-ok,
}
use keenetic_rci.Prelude.Str.{Str, codes}
use keenetic_rci.Network.{NetworkHost, IpAddr, parse_host}
use keenetic_rci.NetworkTest.{
  IpFamily, NetworkTestSource, InvalidNetworkTestOption, u8_max, u16_max, min_packet_size,
  ensure_range, ensure_target_family, ensure_source_family, nonzero, text, number, Entries,
  option_entry, TargetIs, SourceIs, Within, ensure_target_family-TargetIs,
  ensure_source_family-SourceIs, ensure_range-Within, nonzero-Within,
}

-- `PingParameters`; `count` and `ttl` are not zero.
pub record PingParameters : Type 0 where
  pub host : NetworkHost
  pub count : ℕ
  pub packet_size : Option ℕ
  pub sequence_id : Option ℕ
  pub source : Option NetworkTestSource
  pub tos : Option ℕ
  pub ttl : Option ℕ

-- The setters of `Ping` and `PingIpv6`, as the calls of a builder chain.
pub data Setter : Type 0 where
  count packet_size sequence_id tos ttl : ℕ → Setter
  source : NetworkTestSource → Setter

abbrev pub Made : Type 0
Made = Result PingParameters InvalidNetworkTestOption

module _ (tool : Str) (family : IpFamily) where
  -- `from_host`
  unfoldable pub from_host : NetworkHost → Made
  from_host h = do
    _ ← ensure_target_family h tool family
    ok (record {
      host = h;
      count = 5;
      packet_size = none;
      sequence_id = none;
      source = none;
      tos = none;
      ttl = none;
    })

  -- `new`
  unfoldable pub make : (Str → Option IpAddr) → Str → Made
  make parse_ip value = do
    h ← map_err InvalidNetworkTestOption.host (parse_host parse_ip value)
    from_host h

  -- One setter: `set_count`, `set_packet_size`, `sequence_id`, `source`, `tos`, `ttl`.
  unfoldable pub set : Setter → PingParameters → Made
  set (count n) p = do n' ← nonzero (codes "count") u16_max n; ok (record p { count = n' })
  set (packet_size n) p = do
    _ ← ensure_range (codes "packetsize") n min_packet_size u16_max
    ok (record p { packet_size = some n })
  set (sequence_id n) p = ok (record p { sequence_id = some n })
  set (source s) p = do _ ← ensure_source_family s tool family; ok (record p { source = some s })
  set (tos n) p = do _ ← ensure_range (codes "tos") n 0 63; ok (record p { tos = some n })
  set (ttl n) p = do n' ← nonzero (codes "ttl") u8_max n; ok (record p { ttl = some n' })

  -- A chain of setters, each followed by `?`.
  unfoldable pub chain : List Setter → PingParameters → Made
  chain [] p = ok p
  chain (s ∷ setters) p = set s p >>= chain setters

-- What the router accepts of a request of one address family.
abbrev pub IsValid : IpFamily → PingParameters → Type 0
IsValid family p =
    TargetIs family p.host
    × Within 1 u16_max (some p.count)
    × Within min_packet_size u16_max p.packet_size
    × Within 0 u16_max p.sequence_id
    × SourceIs family p.source
    × Within 0 63 p.tos
    × Within 1 u8_max p.ttl

-- A valid request for the same host.
abbrev Keeps : IpFamily → PingParameters → PingParameters → Type 0
Keeps family p q = IsValid family q × (q.host ≡ p.host)

-- The argument of a setter fits its Rust type.
abbrev pub Fits : Setter → Type 0
Fits (count n) = n ≤ u16_max
Fits (packet_size n) = n ≤ u16_max
Fits (sequence_id n) = n ≤ u16_max
Fits (source s) = Unit
Fits (tos n) = n ≤ u8_max
Fits (ttl n) = n ≤ u8_max

-- `Serialize for PingParameters`; showing a host or a source as text is an argument.
unfoldable pub ping_entries :
    (NetworkHost → Str) → (NetworkTestSource → Str) → PingParameters → Entries
ping_entries show_host show_source p =
    (codes "host", text (show_host p.host))
    ∷ (codes "count", number p.count)
    ∷ (option_entry (codes "packetsize") p.packet_size
        ++ (option_entry (codes "sequence-id") p.sequence_id
            ++ ((elim p.source [ none ↦ [] | some s ↦ (codes "source", text (show_source s)) ∷ [] ])
                ++ (option_entry (codes "tos") p.tos ++ option_entry (codes "ttl") p.ttl))))

module _ (tool : Str) (family : IpFamily) where
  from_host-IsValid :
      (h : NetworkHost) (p : PingParameters)
      → from_host tool family h ≡ ok p
      → IsValid family p × (p.host ≡ h)
  unfolding from_host
  from_host-IsValid h p made =
      ensures (λ (q : PingParameters). IsValid family q × (q.host ≡ h))
        (ensure_target_family h tool family) _
        (λ u checked.
          let aimed = ensure_target_family-TargetIs h tool family checked in
          ((aimed, omega arith, tt, tt, tt, tt, tt), refl))
        made

  -- A setter that succeeds keeps the request valid and its host the same.
  pub set-IsValid :
      (setter : Setter) (p q : PingParameters)
      → Fits setter
      → IsValid family p
      → set tool family setter p ≡ ok q
      → IsValid family q × (q.host ≡ p.host)
  unfolding set
  set-IsValid (count n) p q small (t, c, z, i, b, y, l) h =
      ensures (Keeps family p) (nonzero (codes "count") u16_max n) _
        (λ n' e. ((t, nonzero-Within _ u16_max n n' small e, z, i, b, y, l), refl)) h
  set-IsValid (packet_size n) p q small (t, c, z, i, b, y, l) h =
      ensures (Keeps family p) (ensure_range (codes "packetsize") n min_packet_size u16_max) _
        (λ u e. ((t, c, ensure_range-Within _ n _ _ e, i, b, y, l), refl)) h
  set-IsValid (sequence_id n) p q small (t, c, z, i, b, y, l) h =
      let same : record p { sequence_id = some n } ≡ q = cc in
      subst (Keeps family p) same ((t, c, z, (omega arith, small), b, y, l), refl)
  set-IsValid (source s) p q small (t, c, z, i, b, y, l) h =
      ensures (Keeps family p) (ensure_source_family s tool family) _
        (λ u e. ((t, c, z, i, ensure_source_family-SourceIs s tool family e, y, l), refl)) h
  set-IsValid (tos n) p q small (t, c, z, i, b, y, l) h =
      ensures (Keeps family p) (ensure_range (codes "tos") n 0 63) _
        (λ u e. ((t, c, z, i, b, ensure_range-Within _ n _ _ e, l), refl)) h
  set-IsValid (ttl n) p q small (t, c, z, i, b, y, l) h =
      ensures (Keeps family p) (nonzero (codes "ttl") u8_max n) _
        (λ n' e. ((t, c, z, i, b, y, nonzero-Within _ u8_max n n' small e), refl)) h

  chain-IsValid :
      (setters : List Setter) (p q : PingParameters)
      → All Fits setters
      → IsValid family p
      → chain tool family setters p ≡ ok q
      → IsValid family q × (q.host ≡ p.host)
  unfolding chain
  chain-IsValid [] p q fit v h = let same : p ≡ q = cc in subst (Keeps family p) same (v, refl)
  chain-IsValid (s ∷ setters) p q (f, fit) v h =
      let (r, first, later) = >>=-eq-ok (set tool family s p) (chain tool family setters) h in
      let (v1, same1) = set-IsValid s p r f v first in
      let (v2, same2) = chain-IsValid setters r q fit v1 later in (v2, same2 ∙ same1)

-- For each name and family of a tool: when the text parses to a host, the constructor accepts it
-- and each call of a chain of setters, with an argument of its Rust type, succeeds, the request
-- that comes out is valid and its host is the one the text was parsed to.
pub ping_chain-IsValid :
    (tool : Str) (family : IpFamily) (parse_ip : Str → Option IpAddr) (value : Str)
    → (setters : List Setter) (p q : PingParameters) → All Fits setters
    → make tool family parse_ip value ≡ ok p
    → chain tool family setters p ≡ ok q
    → IsValid family q × (parse_host parse_ip value ≡ ok q.host)
unfolding make
ping_chain-IsValid tool family parse_ip value setters p q fit made chained =
    let (h, parsed, built) =
      >>=-eq-ok (map_err InvalidNetworkTestOption.host (parse_host parse_ip value))
        (from_host tool family) made in
    let (v, same) = from_host-IsValid tool family h p built in
    let (v', same') = chain-IsValid tool family setters p q fit v chained in
    (v', map_err-eq-ok _ _ parsed ∙ ap ok (sym (same' ∙ same)))
