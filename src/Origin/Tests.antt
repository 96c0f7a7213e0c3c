-- ===== src/Origin/Tests.antt =====
-- web/origin.rs on a loopback bind and on a private one. The stand-ins for the parsers know the
-- values of these requests.
use roxo_mcp.Base.{◌≡◌, refl, true, false, [], Option, none, some, if◌then◌else◌}
use roxo_mcp.Base.Text.{Text, codes}
use roxo_mcp.Origin.{
  IpAddr, v4, v6, is_private_bind, eq_ignore_ascii_case, contains, trim, normalize_host,
  AllowedHosts, extra_hosts_of, allowed_hosts, allows_extra, allows, Authority, Uri, Request,
  reject, reject_userinfo, Parsers, parse_authority, parse_origin, check_request_origin,
}
use roxo_mcp.Origin.Allow
use roxo_mcp.Origin.Check
use roxo_mcp.Origin.Check.{HostHeader, OriginHeader}

abbrev lan : IpAddr
lan = v4 192 168 1 5

abbrev parse_ip : Text → Option IpAddr
parse_ip host =
    if eq_ignore_ascii_case host (codes "127.0.0.1")
    then some (v4 127 0 0 1)
    else if eq_ignore_ascii_case host (codes "192.168.1.5")
    then some lan
    else none

abbrev authority : Authority
authority = record {
  text = codes "127.0.0.1:34872";
  host = codes "127.0.0.1";
  port_u16 = some 34872;
}

abbrev rebound : Authority
rebound = record { text = codes "evil.com"; host = codes "evil.com"; port_u16 = none }

abbrev uri : Uri
uri = record { authority = some authority; host = some authority.host; port_u16 = some 34872 }

abbrev parse : Parsers
parse = record {
  ip = parse_ip;
  authority =
      λ value. if eq_ignore_ascii_case value authority.text then some authority else some rebound;
  uri = λ value. some uri;
}

abbrev request : Request
request = record {
  host = some (some (codes "127.0.0.1:34872"));
  origin = some (some (codes "http://127.0.0.1:34872"));
}

program : Unit {0}
unfolding eq_ignore_ascii_case contains trim normalize_host extra_hosts_of is_private_bind
    allowed_hosts allows_extra allows reject reject_userinfo parse_authority parse_origin
    check_request_origin
program = tt

abbrev loopback_hosts : AllowedHosts
loopback_hosts = record { port = 34872; bind_ip = none; extra_hosts = [] }

-- A page that points its own domain at the server is turned away.
rebound_rejected :
    check_request_origin parse
      (record request { host = some (some (codes "evil.com")) })
      (some loopback_hosts)
    ≡ some reject
unfolding program
rebound_rejected = refl

brackets : normalize_host (codes "[fe80::1%eth0]") ≡ codes "fe80::1"
unfolding program
brackets = refl

private_binds : is_private_bind lan ≡ true
unfolding program
private_binds = refl

public_binds : is_private_bind (v4 172 32 0 1) ≡ false
unfolding program
public_binds = refl

local_v6 : is_private_bind (v6 65152 0 0 0 0 0 0 1) ≡ true
unfolding program
local_v6 = refl

allows-bind_example :
    allows parse_ip
      (record { port = 34872; bind_ip = some lan; extra_hosts = [] })
      (codes "192.168.1.5")
      (some 34872)
    ≡ true
allows-bind_example =
    Allow.allows-bind parse_ip lan 34872 [] (codes "192.168.1.5")
      (record { port = 34872; bind_ip = some lan; extra_hosts = [] }) refl (unfold program in refl)
      (unfold program in refl)

check_example :
    HostHeader parse (v4 127 0 0 1) 34872 request.host
    × OriginHeader parse (v4 127 0 0 1) 34872 request.origin
check_example =
    Check.check_request_origin-Shown parse (v4 127 0 0 1) 34872 loopback_hosts request
      (unfold program in refl) (unfold program in refl)
