-- ===== src/NetworkTest/Iperf3.antt =====
-- src/request/network_test.rs, `Iperf3`: its setters, its invariant and its JSON map.
use keenetic_rci.Prelude.{
  ℕ, ◌≤◌, ◌≡◌, Option, none, some, List, [], ◌∷◌, ◌++◌, Result, ok, ◌>>=◌, >>=-eq-ok, ensures, All,
  refl, ◌∙◌, subst, map_err,
}
use keenetic_rci.Prelude.Str.{Str, codes}
use keenetic_rci.Network.{NetworkHost, IpAddr, parse_host, host_address}
use keenetic_rci.NetworkTest.{
  IpFamily, ipv4, ipv6, family_of, NetworkTestSource, InvalidNetworkTestOption, u16_max, u32_max,
  u64_max, ensure_target_family, ensure_source_family, nonzero, text, number, flag, Entries,
  Checked, option_entry, source_entry, TargetIs, SourceIs, Within, ensure_target_family-TargetIs,
  ensure_source_family-SourceIs, nonzero-Within,
}

-- `IperfIpVersion`; its `family` and `IpFamily::iperf_version` are each other's inverse.
pub data IperfIpVersion : Type 0 where
  force_ipv4 force_ipv6 : IperfIpVersion

pub data IperfProtocol : Type 0 where
  tcp udp : IperfProtocol

pub data IperfDirection : Type 0 where
  upload download : IperfDirection

pub data IperfLimit : Type 0 where
  time bytes : ℕ → IperfLimit

pub record Iperf3 : Type 0 where
  pub host : NetworkHost
  pub ip_version : IperfIpVersion
  pub protocol : IperfProtocol
  pub direction : IperfDirection
  pub port : Option ℕ
  pub bitrate : Option ℕ
  pub streams : Option ℕ
  pub limit : IperfLimit
  pub source : Option NetworkTestSource

-- The setters of `Iperf3`, as the calls of a builder chain.
pub data Setter : Type 0 where
  ip_version : IperfIpVersion → Setter
  protocol : IperfProtocol → Setter
  direction : IperfDirection → Setter
  port bitrate streams : ℕ → Setter
  source : NetworkTestSource → Setter

abbrev pub Made : Type 0
Made = Result Iperf3 InvalidNetworkTestOption

-- `IPERF3_ENDPOINT`
abbrev pub endpoint : Str
endpoint = codes "tools/iperf3"

-- `IperfIpVersion::family`
abbrev pub family : IperfIpVersion → IpFamily
family force_ipv4 = ipv4
family force_ipv6 = ipv6

-- `IpFamily::iperf_version`
abbrev pub iperf_version : IpFamily → IperfIpVersion
iperf_version ipv4 = force_ipv4
iperf_version ipv6 = force_ipv6

-- `IperfIpVersion::wire_keyword`
abbrev pub wire_keyword : IperfIpVersion → Str
wire_keyword force_ipv4 = codes "ipv4"
wire_keyword force_ipv6 = codes "ipv6"

-- `IperfLimit::time`
unfoldable pub limit_time : ℕ → Result IperfLimit InvalidNetworkTestOption
limit_time seconds = do n ← nonzero (codes "time") u32_max seconds; ok (time n)

-- `IperfLimit::bytes`
unfoldable pub limit_bytes : ℕ → Result IperfLimit InvalidNetworkTestOption
limit_bytes amount = do n ← nonzero (codes "bytes") u64_max amount; ok (bytes n)

-- The version that `from_host` takes of the target.
abbrev pub version_of : Option IpAddr → IperfIpVersion
version_of none = force_ipv4
version_of (some a) = iperf_version (family_of a)

-- `from_host`
unfoldable pub from_host : NetworkHost → IperfLimit → Iperf3
from_host h l = record {
  host = h;
  ip_version = version_of (host_address h);
  protocol = tcp;
  direction = upload;
  port = none;
  bitrate = none;
  streams = none;
  limit = l;
  source = none;
}

-- `new`
unfoldable pub make : (Str → Option IpAddr) → Str → IperfLimit → Made
make parse_ip value l = do
  h ← map_err InvalidNetworkTestOption.host (parse_host parse_ip value)
  ok (from_host h l)

-- The test of a source already set that `ip_version` makes.
abbrev pub check_source : Option NetworkTestSource → IpFamily → Checked
check_source none f = ok tt
check_source (some s) f = ensure_source_family s endpoint f

-- One setter.
unfoldable pub set : Setter → Iperf3 → Made
set (ip_version v) t = do
  _ ← ensure_target_family t.host endpoint (family v)
  _ ← check_source t.source (family v)
  ok (record t { ip_version = v })
set (protocol p) t = ok (record t { protocol = p })
set (direction d) t = ok (record t { direction = d })
set (port n) t = do n' ← nonzero (codes "port") u16_max n; ok (record t { port = some n' })
set (bitrate n) t = do n' ← nonzero (codes "bitrate") u64_max n; ok (record t { bitrate = some n' })
set (streams n) t = do n' ← nonzero (codes "streams") u16_max n; ok (record t { streams = some n' })
set (source s) t = do
  _ ← ensure_source_family s endpoint (family t.ip_version)
  ok (record t { source = some s })

-- A chain of setters, each followed by `?`.
unfoldable pub chain : List Setter → Iperf3 → Made
chain [] t = ok t
chain (s ∷ setters) t = set s t >>= chain setters

abbrev pub protocol_key : IperfProtocol → Str
protocol_key tcp = codes "tcp"
protocol_key udp = codes "udp"

abbrev pub direction_entry : IperfDirection → Entries
direction_entry upload = []
direction_entry download = (codes "reverse", flag) ∷ []

abbrev pub limit_entry : IperfLimit → Entries
limit_entry (time n) = (codes "time", number n) ∷ []
limit_entry (bytes n) = (codes "bytes", number n) ∷ []

-- `Serialize for Iperf3`
unfoldable pub iperf3_entries : (NetworkHost → Str) → (IpAddr → Str) → Iperf3 → Entries
iperf3_entries show_host show_ip t =
    (codes "host", text (show_host t.host))
    ∷ (wire_keyword t.ip_version, flag)
    ∷ (protocol_key t.protocol, flag)
    ∷ (direction_entry t.direction
        ++ (option_entry (codes "port") t.port
            ++ (option_entry (codes "bitrate") t.bitrate
                ++ (option_entry (codes "streams") t.streams
                    ++ (limit_entry t.limit ++ source_entry show_ip t.source)))))

abbrev pub LimitIsValid : IperfLimit → Type 0
LimitIsValid (time n) = Within 1 u32_max (some n)
LimitIsValid (bytes n) = Within 1 u64_max (some n)

-- What the router accepts of a request.
abbrev pub IsValid : Iperf3 → Type 0
IsValid t =
    TargetIs (family t.ip_version) t.host
    × SourceIs (family t.ip_version) t.source
    × Within 1 u16_max t.port
    × Within 1 u64_max t.bitrate
    × Within 1 u16_max t.streams
    × LimitIsValid t.limit

-- The argument of a setter fits its Rust type.
abbrev pub Fits : Setter → Type 0
Fits (port n) = n ≤ u16_max
Fits (bitrate n) = n ≤ u64_max
Fits (streams n) = n ≤ u16_max
Fits _ = Unit

-- A valid request for the same host, with the same limit.
abbrev Keeps : Iperf3 → Iperf3 → Type 0
Keeps t r = IsValid r × (r.host ≡ t.host) × (r.limit ≡ t.limit)

check_source-SourceIs :
    (s : Option NetworkTestSource) (f : IpFamily) → check_source s f ≡ ok tt → SourceIs f s
check_source-SourceIs none f h = tt
check_source-SourceIs (some s) f h = ensure_source_family-SourceIs s endpoint f h

-- A setter that succeeds keeps the request valid, its host and its limit.
set-IsValid :
    (setter : Setter) (p q : Iperf3) → Fits setter → IsValid p → set setter p ≡ ok q → Keeps p q
unfolding set
set-IsValid (ip_version v) p q small (t, s, o, b, n, l) h =
    let (u, aimed, rest) =
      >>=-eq-ok (ensure_target_family p.host endpoint (family v))
        (λ _. check_source p.source (family v) >>= λ _. ok (record p { ip_version = v })) h in
    ensures (Keeps p) (check_source p.source (family v)) _
      (λ u' e. (
        (
          ensure_target_family-TargetIs p.host endpoint (family v) aimed,
          check_source-SourceIs p.source (family v) e,
          o,
          b,
          n,
          l,
        ),
        refl,
        refl,
      ))
      rest
set-IsValid (protocol r) p q small v h =
    let same : record p { protocol = r } ≡ q = cc in subst (Keeps p) same (v, refl, refl)
set-IsValid (direction d) p q small v h =
    let same : record p { direction = d } ≡ q = cc in subst (Keeps p) same (v, refl, refl)
set-IsValid (port x) p q small (t, s, o, b, n, l) h =
    ensures (Keeps p) (nonzero (codes "port") u16_max x) _
      (λ x' e. ((t, s, nonzero-Within _ u16_max x x' small e, b, n, l), refl, refl)) h
set-IsValid (bitrate x) p q small (t, s, o, b, n, l) h =
    ensures (Keeps p) (nonzero (codes "bitrate") u64_max x) _
      (λ x' e. ((t, s, o, nonzero-Within _ u64_max x x' small e, n, l), refl, refl)) h
set-IsValid (streams x) p q small (t, s, o, b, n, l) h =
    ensures (Keeps p) (nonzero (codes "streams") u16_max x) _
      (λ x' e. ((t, s, o, b, nonzero-Within _ u16_max x x' small e, l), refl, refl)) h
set-IsValid (source r) p q small (t, s, o, b, n, l) h =
    ensures (Keeps p) (ensure_source_family r endpoint (family p.ip_version)) _
      (λ u e. (
        (t, ensure_source_family-SourceIs r endpoint (family p.ip_version) e, o, b, n, l),
        refl,
        refl,
      ))
      h

chain-IsValid :
    (setters : List Setter) (p q : Iperf3)
    → All Fits setters
    → IsValid p
    → chain setters p ≡ ok q
    → Keeps p q
unfolding chain
chain-IsValid [] p q fit v h = let same : p ≡ q = cc in subst (Keeps p) same (v, refl, refl)
chain-IsValid (s ∷ setters) p q (f, fit) v h =
    let (r, first, later) = >>=-eq-ok (set s p) (chain setters) h in
    let (v1, host1, limit1) = set-IsValid s p r f v first in
    let (v2, host2, limit2) = chain-IsValid setters r q fit v1 later in
    (v2, host2 ∙ host1, limit2 ∙ limit1)

from_host-IsValid : (h : NetworkHost) (l : IperfLimit) → LimitIsValid l → IsValid (from_host h l)
unfolding from_host
from_host-IsValid (NetworkHost.address (IpAddr.v4 a)) l v = (refl, tt, tt, tt, tt, v)
from_host-IsValid (NetworkHost.address (IpAddr.v6 a)) l v = (refl, tt, tt, tt, tt, v)
from_host-IsValid (NetworkHost.name n) l v = (tt, tt, tt, tt, tt, v)

-- For each host, each limit within its type's bounds and each chain of setters with arguments of
-- their Rust types, in any order: when each call succeeds, the request that comes out is for this
-- host with this limit, its numbers are within bounds, and the IP version it sends is the family
-- of a literal target and of a literal source.
pub iperf3_chain-IsValid :
    (h : NetworkHost) (l : IperfLimit) (setters : List Setter) (q : Iperf3)
    → LimitIsValid l
    → All Fits setters
    → chain setters (from_host h l) ≡ ok q
    → IsValid q × (q.host ≡ h) × (q.limit ≡ l)
unfolding from_host
iperf3_chain-IsValid h l setters q bounded fit chained =
    chain-IsValid setters (from_host h l) q fit (from_host-IsValid h l bounded) chained

-- A limit that its constructor makes is within bounds.
pub limit_time-LimitIsValid :
    (n : ℕ) (l : IperfLimit) → n ≤ u32_max → limit_time n ≡ ok l → LimitIsValid l
unfolding limit_time
limit_time-LimitIsValid n l small h =
    ensures LimitIsValid (nonzero (codes "time") u32_max n) _
      (λ n' e. nonzero-Within _ u32_max n n' small e) h

pub limit_bytes-LimitIsValid :
    (n : ℕ) (l : IperfLimit) → n ≤ u64_max → limit_bytes n ≡ ok l → LimitIsValid l
unfolding limit_bytes
limit_bytes-LimitIsValid n l small h =
    ensures LimitIsValid (nonzero (codes "bytes") u64_max n) _
      (λ n' e. nonzero-Within _ u64_max n n' small e) h
