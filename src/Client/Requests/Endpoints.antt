-- ===== src/Client/Requests/Endpoints.antt =====
-- src/request.rs, `get_requests!`: the requests without arguments, with their endpoints.
use keenetic_rci.Prelude.{none}
use keenetic_rci.Prelude.Str.{Str, codes}
use keenetic_rci.Client.Requests.{RciRequest, get_mode}

pub data GetRequest : Type 0 where
  show_version show_system show_internet_status show_interfaces show_associations : GetRequest
  show_ip_hotspot_hosts show_identification show_system_mode show_ip_arp show_ip_dhcp_bindings :
      GetRequest
  show_ip_route show_ipv6_route show_ping_check show_ip_name_servers show_ntp_status : GetRequest
  show_mws_status show_mws_members show_usb show_media : GetRequest

-- `ENDPOINT`
abbrev pub get_endpoint : GetRequest → Str
get_endpoint show_version = codes "show/version"
get_endpoint show_system = codes "show/system"
get_endpoint show_internet_status = codes "show/internet/status"
get_endpoint show_interfaces = codes "show/interface"
get_endpoint show_associations = codes "show/associations"
get_endpoint show_ip_hotspot_hosts = codes "show/ip/hotspot"
get_endpoint show_identification = codes "show/identification"
get_endpoint show_system_mode = codes "show/system/mode"
get_endpoint show_ip_arp = codes "show/ip/arp"
get_endpoint show_ip_dhcp_bindings = codes "show/ip/dhcp/bindings"
get_endpoint show_ip_route = codes "show/ip/route"
get_endpoint show_ipv6_route = codes "show/ipv6/route"
get_endpoint show_ping_check = codes "show/ping-check"
get_endpoint show_ip_name_servers = codes "show/ip/name-server"
get_endpoint show_ntp_status = codes "show/ntp/status"
get_endpoint show_mws_status = codes "show/mws/status"
get_endpoint show_mws_members = codes "show/mws/member"
get_endpoint show_usb = codes "show/usb"
get_endpoint show_media = codes "show/media"

-- `Sealed` of these requests.
abbrev pub get_request : GetRequest → RciRequest
get_request request = record { path = get_endpoint request; mode = get_mode; query = none }
