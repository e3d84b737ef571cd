-- ===== src/Examples/NetworkTests.antt =====
-- Runs of the network-test requests on concrete chains of setters.
use keenetic_rci.Prelude.{◌≡◌, Option, some, none, List, [], ◌∷◌, ok, err, arith, refl}
use keenetic_rci.Prelude.Str.{Str, codes, is_control}
use keenetic_rci.Network.{IpAddr, v4, v6, NetworkHost, parse_host}
use keenetic_rci.NetworkTest.{
  ipv4, NetworkTestSource, address_family, tcp_traceroute_packet_size, u32_max, u64_max,
}
use keenetic_rci.NetworkTest
use keenetic_rci.NetworkTest.Ping
use keenetic_rci.NetworkTest.Traceroute
use keenetic_rci.NetworkTest.Iperf3

abbrev host : NetworkHost
host = NetworkHost.address (v4 134744072)

-- No text is an address to this parser.
abbrev no_ip : Str → Option IpAddr
no_ip value = none

abbrev ping_setters : List Ping.Setter
ping_setters = Ping.count 3 ∷ Ping.tos 63 ∷ []

abbrev pinged : Ping.PingParameters
pinged = record {
  host = NetworkHost.name (codes "router");
  count = 3;
  packet_size = none;
  sequence_id = none;
  source = none;
  tos = some 63;
  ttl = none;
}

ping_chain-IsValid_example :
    Ping.IsValid ipv4 pinged × (parse_host no_ip (codes "router") ≡ ok pinged.host)
unfolding Ping.make Ping.chain Ping.set Ping.from_host parse_host NetworkTest.ensure_target_family
    NetworkTest.nonzero NetworkTest.ensure_range is_control
ping_chain-IsValid_example =
    Ping.ping_chain-IsValid (codes "tools/ping") ipv4 no_ip (codes "router") ping_setters
      (record pinged { count = 5; tos = none }) pinged (omega arith, (omega arith, tt)) refl refl

-- TCP probes of 52 bytes from an interface; and the same size of 60 bytes refused.
abbrev traceroute_setters : List Traceroute.Setter
traceroute_setters =
    Traceroute.protocol Traceroute.tcp
    ∷ Traceroute.packet_size 52
    ∷ Traceroute.source (NetworkTestSource.interface (codes "WAN"))
    ∷ Traceroute.port 443
    ∷ []

abbrev traced : Traceroute.Traceroute
traced = record {
  host = host;
  count = none;
  interval = none;
  wait_time = none;
  packet_size = some 52;
  max_ttl = none;
  port = some 443;
  source = some (NetworkTestSource.interface (codes "WAN"));
  protocol = Traceroute.tcp;
  tos = none;
}

traceroute_chain : Traceroute.chain traceroute_setters (Traceroute.from_host host) ≡ ok traced
unfolding Traceroute.chain Traceroute.set Traceroute.from_host Traceroute.validate_packet_size
    NetworkTest.ensure_source_family NetworkTest.nonzero
traceroute_chain = refl

traceroute_refused :
    Traceroute.chain
      (Traceroute.packet_size 60 ∷ Traceroute.protocol Traceroute.tcp ∷ [])
      (Traceroute.from_host host)
    ≡ err (tcp_traceroute_packet_size 60)
unfolding Traceroute.chain Traceroute.set Traceroute.from_host Traceroute.validate_packet_size
    NetworkTest.ensure_range
traceroute_refused = refl

traceroute_chain-IsValid_example : Traceroute.IsValid traced × (traced.host ≡ host)
traceroute_chain-IsValid_example =
    Traceroute.traceroute_chain-IsValid host traceroute_setters traced
      (tt, (omega arith, (tt, (omega arith, tt)))) traceroute_chain

-- An iPerf3 test over UDP from an IPv4 source, and an IPv6 source refused.
abbrev iperf3_setters : List Iperf3.Setter
iperf3_setters =
    Iperf3.protocol Iperf3.udp
    ∷ Iperf3.bitrate 1000000
    ∷ Iperf3.source (NetworkTestSource.address (v4 1))
    ∷ []

abbrev measured : Iperf3.Iperf3
measured = record {
  host = host;
  ip_version = Iperf3.force_ipv4;
  protocol = Iperf3.udp;
  direction = Iperf3.upload;
  port = none;
  bitrate = some 1000000;
  streams = none;
  limit = Iperf3.time 10;
  source = some (NetworkTestSource.address (v4 1));
}

iperf3_chain : Iperf3.chain iperf3_setters (Iperf3.from_host host (Iperf3.time 10)) ≡ ok measured
unfolding Iperf3.chain Iperf3.set Iperf3.from_host NetworkTest.ensure_source_family
    NetworkTest.nonzero
iperf3_chain = refl

iperf3_refused :
    Iperf3.chain
      (Iperf3.source (NetworkTestSource.address (v6 1)) ∷ [])
      (Iperf3.from_host host (Iperf3.time 10))
    ≡ err (
        address_family
          (codes "tools/iperf3")
          (codes "source address")
          (codes "IPv4")
          (codes "IPv6"))
unfolding Iperf3.chain Iperf3.set Iperf3.from_host NetworkTest.ensure_source_family
iperf3_refused = refl

iperf3_chain-IsValid_example :
    Iperf3.IsValid measured × (measured.host ≡ host) × (measured.limit ≡ Iperf3.time 10)
iperf3_chain-IsValid_example =
    Iperf3.iperf3_chain-IsValid host (Iperf3.time 10) iperf3_setters measured (omega arith)
      (tt, (omega arith, (tt, tt))) iperf3_chain
