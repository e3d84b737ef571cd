-- ===== src/NetworkTest/Traceroute.antt =====
-- src/request/network_test.rs, `Traceroute`: its setters, its invariant and its JSON map.
use keenetic_rci.Prelude.{
  ℕ, ◌≤◌, ◌≡◌, Option, none, some, List, [], ◌∷◌, ◌++◌, Result, ok, err, ◌>>=◌, >>=-eq-ok, ensures,
  All, arith, refl, ◌∙◌, subst, map_err, if◌then◌else◌, ◌==◌,
}
use keenetic_rci.Prelude.Str.{Str, codes}
use keenetic_rci.Network.{NetworkHost, IpAddr, parse_host, host_address}
use keenetic_rci.NetworkTest.{
  family_of, NetworkTestSource, InvalidNetworkTestOption, tcp_traceroute_packet_size, u8_max,
  u16_max, min_packet_size, tcp_traceroute_size, ensure_range, ensure_source_family, nonzero, text,
  Entries, Checked, option_entry, source_entry, SourceIs, Within, ensure_source_family-SourceIs,
  ensure_range-Within, nonzero-Within,
}

pub data TracerouteProtocol : Type 0 where
  tcp udp icmp : TracerouteProtocol

pub record Traceroute : Type 0 where
  pub host : NetworkHost
  pub count : Option ℕ
  pub interval : Option ℕ
  pub wait_time : Option ℕ
  pub packet_size : Option ℕ
  pub max_ttl : Option ℕ
  pub port : Option ℕ
  pub source : Option NetworkTestSource
  pub protocol : TracerouteProtocol
  pub tos : Option ℕ

-- The setters of `Traceroute`, as the calls of a builder chain.
pub data Setter : Type 0 where
  count interval wait_time packet_size max_ttl port tos : ℕ → Setter
  source : NetworkTestSource → Setter
  protocol : TracerouteProtocol → Setter

abbrev pub Made : Type 0
Made = Result Traceroute InvalidNetworkTestOption

-- `TRACEROUTE_ENDPOINT`
abbrev pub endpoint : Str
endpoint = codes "tools/traceroute"

-- `validate_traceroute_packet_size`
unfoldable pub validate_packet_size : TracerouteProtocol → ℕ → Checked
validate_packet_size tcp n =
    if n == tcp_traceroute_size then ok tt else err (tcp_traceroute_packet_size n)
validate_packet_size udp n = ensure_range (codes "packetsize") n min_packet_size u16_max
validate_packet_size icmp n = ensure_range (codes "packetsize") n min_packet_size u16_max

-- `from_host`
unfoldable pub from_host : NetworkHost → Traceroute
from_host h = record {
  host = h;
  count = none;
  interval = none;
  wait_time = none;
  packet_size = none;
  max_ttl = none;
  port = none;
  source = none;
  protocol = udp;
  tos = none;
}

-- `new`
unfoldable pub make : (Str → Option IpAddr) → Str → Made
make parse_ip value = do
  h ← map_err InvalidNetworkTestOption.host (parse_host parse_ip value)
  ok (from_host h)

-- The test that `source` makes when the target is a literal address.
abbrev pub check_source : Option IpAddr → NetworkTestSource → Checked
check_source none s = ok tt
check_source (some a) s = ensure_source_family s endpoint (family_of a)

-- The test that `protocol` makes when a packet size is set.
abbrev pub check_protocol : Option ℕ → TracerouteProtocol → Checked
check_protocol none p = ok tt
check_protocol (some n) p = validate_packet_size p n

-- One setter.
unfoldable pub set : Setter → Traceroute → Made
set (count n) t = do _ ← ensure_range (codes "count") n 1 10; ok (record t { count = some n })
set (interval n) t = do
  _ ← ensure_range (codes "interval") n 0 15
  ok (record t { interval = some n })
set (wait_time n) t = do
  _ ← ensure_range (codes "wait-time") n 1 15
  ok (record t { wait_time = some n })
set (packet_size n) t = do
  _ ← validate_packet_size t.protocol n
  ok (record t { packet_size = some n })
set (max_ttl n) t = do n' ← nonzero (codes "max-ttl") u8_max n; ok (record t { max_ttl = some n' })
set (port n) t = do n' ← nonzero (codes "port") u16_max n; ok (record t { port = some n' })
set (source s) t = do _ ← check_source (host_address t.host) s; ok (record t { source = some s })
set (protocol p) t = do _ ← check_protocol t.packet_size p; ok (record t { protocol = p })
set (tos n) t = ok (record t { tos = some n })

-- A chain of setters, each followed by `?`.
unfoldable pub chain : List Setter → Traceroute → Made
chain [] t = ok t
chain (s ∷ setters) t = set s t >>= chain setters

abbrev pub protocol_name : TracerouteProtocol → Str
protocol_name tcp = codes "tcp"
protocol_name udp = codes "udp"
protocol_name icmp = codes "icmp"

-- `Serialize for Traceroute`
unfoldable pub traceroute_entries : (NetworkHost → Str) → (IpAddr → Str) → Traceroute → Entries
traceroute_entries show_host show_ip t =
    (codes "host", text (show_host t.host))
    ∷ (option_entry (codes "count") t.count
        ++ (option_entry (codes "interval") t.interval
            ++ (option_entry (codes "wait-time") t.wait_time
                ++ (option_entry (codes "packetsize") t.packet_size
                    ++ (option_entry (codes "max-ttl") t.max_ttl
                        ++ (option_entry (codes "port") t.port
                            ++ (source_entry show_ip t.source
                                ++ ((codes "type", text (protocol_name t.protocol))
                                    ∷ option_entry (codes "tos") t.tos))))))))

-- The sizes that a protocol admits.
abbrev pub SizeFor : TracerouteProtocol → Option ℕ → Type 0
SizeFor tcp (some n) = n ≡ tcp_traceroute_size
SizeFor _ size = Within min_packet_size u16_max size

-- The source is of the family of a literal target.
abbrev pub SourceFor : Option IpAddr → Option NetworkTestSource → Type 0
SourceFor none s = Unit
SourceFor (some a) s = SourceIs (family_of a) s

-- What the router accepts of a request.
abbrev pub IsValid : Traceroute → Type 0
IsValid t =
    Within 1 10 t.count
    × Within 0 15 t.interval
    × Within 1 15 t.wait_time
    × SizeFor t.protocol t.packet_size
    × Within 1 u8_max t.max_ttl
    × Within 1 u16_max t.port
    × SourceFor (host_address t.host) t.source
    × Within 0 u8_max t.tos

-- The argument of a setter fits its Rust type.
abbrev pub Fits : Setter → Type 0
Fits (packet_size n) = n ≤ u16_max
Fits (port n) = n ≤ u16_max
Fits (source s) = Unit
Fits (protocol p) = Unit
Fits (count n) = n ≤ u8_max
Fits (interval n) = n ≤ u8_max
Fits (wait_time n) = n ≤ u8_max
Fits (max_ttl n) = n ≤ u8_max
Fits (tos n) = n ≤ u8_max

-- A valid request for the same host.
abbrev Keeps : Traceroute → Traceroute → Type 0
Keeps t r = IsValid r × (r.host ≡ t.host)

validate_packet_size-SizeFor :
    (p : TracerouteProtocol) (n : ℕ) → validate_packet_size p n ≡ ok tt → SizeFor p (some n)
unfolding validate_packet_size
validate_packet_size-SizeFor tcp n h = ground arith
validate_packet_size-SizeFor udp n h = ensure_range-Within _ n _ _ h
validate_packet_size-SizeFor icmp n h = ensure_range-Within _ n _ _ h

check_source-SourceFor :
    (a : Option IpAddr) (s : NetworkTestSource) → check_source a s ≡ ok tt → SourceFor a (some s)
check_source-SourceFor none s h = tt
check_source-SourceFor (some a) s h = ensure_source_family-SourceIs s _ _ h

check_protocol-SizeFor :
    (n : Option ℕ) (p : TracerouteProtocol) → check_protocol n p ≡ ok tt → SizeFor p n
check_protocol-SizeFor none tcp h = tt
check_protocol-SizeFor none udp h = tt
check_protocol-SizeFor none icmp h = tt
check_protocol-SizeFor (some n) p h = validate_packet_size-SizeFor p n h

-- A setter that succeeds keeps the request valid and its host the same.
set-IsValid :
    (setter : Setter) (p q : Traceroute) → Fits setter → IsValid p → set setter p ≡ ok q → Keeps p q
unfolding set
set-IsValid (count n) p q small (c, i, w, z, m, o, s, y) h =
    ensures (Keeps p) (ensure_range (codes "count") n 1 10) _
      (λ u e. ((ensure_range-Within _ n _ _ e, i, w, z, m, o, s, y), refl)) h
set-IsValid (interval n) p q small (c, i, w, z, m, o, s, y) h =
    ensures (Keeps p) (ensure_range (codes "interval") n 0 15) _
      (λ u e. ((c, ensure_range-Within _ n _ _ e, w, z, m, o, s, y), refl)) h
set-IsValid (wait_time n) p q small (c, i, w, z, m, o, s, y) h =
    ensures (Keeps p) (ensure_range (codes "wait-time") n 1 15) _
      (λ u e. ((c, i, ensure_range-Within _ n _ _ e, z, m, o, s, y), refl)) h
set-IsValid (packet_size n) p q small (c, i, w, z, m, o, s, y) h =
    ensures (Keeps p) (validate_packet_size p.protocol n) _
      (λ u e. ((c, i, w, validate_packet_size-SizeFor p.protocol n e, m, o, s, y), refl)) h
set-IsValid (max_ttl n) p q small (c, i, w, z, m, o, s, y) h =
    ensures (Keeps p) (nonzero (codes "max-ttl") u8_max n) _
      (λ n' e. ((c, i, w, z, nonzero-Within _ u8_max n n' small e, o, s, y), refl)) h
set-IsValid (port n) p q small (c, i, w, z, m, o, s, y) h =
    ensures (Keeps p) (nonzero (codes "port") u16_max n) _
      (λ n' e. ((c, i, w, z, m, nonzero-Within _ u16_max n n' small e, s, y), refl)) h
set-IsValid (source s) p q small (c, i, w, z, m, o, s', y) h =
    ensures (Keeps p) (check_source (host_address p.host) s) _
      (λ u e. ((c, i, w, z, m, o, check_source-SourceFor (host_address p.host) s e, y), refl)) h
set-IsValid (protocol r) p q small (c, i, w, z, m, o, s, y) h =
    ensures (Keeps p) (check_protocol p.packet_size r) _
      (λ u e. ((c, i, w, check_protocol-SizeFor p.packet_size r e, m, o, s, y), refl)) h
set-IsValid (tos n) p q small (c, i, w, z, m, o, s, y) h =
    let same : record p { tos = some n } ≡ q = cc in
    subst (Keeps p) same ((c, i, w, z, m, o, s, (omega arith, small)), refl)

chain-IsValid :
    (setters : List Setter) (p q : Traceroute)
    → All Fits setters
    → IsValid p
    → chain setters p ≡ ok q
    → Keeps p q
unfolding chain
chain-IsValid [] p q fit v h = let same : p ≡ q = cc in subst (Keeps p) same (v, refl)
chain-IsValid (s ∷ setters) p q (f, fit) v h =
    let (r, first, later) = >>=-eq-ok (set s p) (chain setters) h in
    let (v1, same1) = set-IsValid s p r f v first in
    let (v2, same2) = chain-IsValid setters r q fit v1 later in (v2, same2 ∙ same1)

source_free : (a : Option IpAddr) → SourceFor a none
source_free none = tt
source_free (some a) = tt

-- For each host and each chain of setters with arguments of their Rust types, in any order: when
-- each call succeeds, the request that comes out is for this host and within the router's bounds.
-- Its packet size is 52 when the protocol is TCP and a size is set, and its literal source is of
-- the family of its literal target.
pub traceroute_chain-IsValid :
    (h : NetworkHost) (setters : List Setter) (q : Traceroute)
    → All Fits setters
    → chain setters (from_host h) ≡ ok q
    → IsValid q × (q.host ≡ h)
unfolding from_host
traceroute_chain-IsValid h setters q fit chained =
    chain-IsValid setters (from_host h) q fit
      (tt, tt, tt, tt, tt, tt, source_free (host_address h), tt) chained
