-- ===== src/Origin.antt =====
-- web/origin.rs: which Host and Origin headers the server answers. The parsers of addresses, of
-- authorities and of URIs (`std::net`, hyper) are arguments.
mod Address
mod Allow
mod Check
mod Tests
use roxo_mcp.Base.{
  ℕ, ◌/◌, ◌%◌, ◌≡◌, Bool, true, false, not, ◌&&◌, ◌||◌, List, [], ◌∷◌, map, keep, Option, none,
  some, leb, ◌==◌, if◌then◌else◌,
}
use mathlib.Core.Option
use mathlib.Core.Option.{get_or}
use roxo_mcp.Base.Text.{Text, codes}
pub use Address.{
  IpAddr, v4, v6, is_loopback, is_unspecified, is_private, is_link_local, is_mapped, same_address,
  strip_prefix, strip_suffix, first_part,
}
unfoldable pub use Address.{eq_ignore_ascii_case, trim, contains}

-- IPv4-mapped addresses are `::ffff:a.b.c.d`, two octets in each of the last segments.
abbrev pub canonical : IpAddr → IpAddr
canonical (v4 a b c d) = v4 a b c d
canonical (v6 a b c d e f g h) =
    if is_mapped a b c d e f then v4 (g / 256) (g % 256) (h / 256) (h % 256) else v6 a b c d e f g h

-- The masks 0xfe00 and 0xffc0 keep the first 7 and the first 10 of 16 bits.
abbrev pub is_private_canonical : IpAddr → Bool
is_private_canonical (v4 a b c d) = is_private a b c d || is_link_local a b c d
is_private_canonical (v6 a b c d e f g h) = a / 512 == 126 || a / 64 == 1018

pub is_private_bind : IpAddr → Bool
is_private_bind ip = is_private_canonical (canonical ip)

abbrev pub unbracket_in : Option Text → Text → Text
unbracket_in none host = host
unbracket_in (some rest) host = get_or (strip_suffix 93 rest) host

abbrev pub unbracket : Text → Text
unbracket host = unbracket_in (strip_prefix 91 host) host

pub normalize_host : Text → Text
normalize_host host = first_part 37 (unbracket host)

pub record AllowedHosts : Type 0 where
  pub port : ℕ
  pub bind_ip : Option IpAddr
  pub extra_hosts : List Text

abbrev pub is_empty : Text → Bool
is_empty [] = true
is_empty (c ∷ cs) = false

abbrev pub no_hosts : List Text → Bool
no_hosts [] = true
no_hosts (h ∷ hs) = false

pub extra_hosts_of : List Text → List Text
unfolding trim normalize_host
extra_hosts_of extra =
    keep (λ host. not (is_empty host)) (map (λ host. normalize_host (trim host)) extra)

pub allowed_hosts : IpAddr → ℕ → List Text → Option AllowedHosts
unfolding extra_hosts_of is_private_bind
allowed_hosts bind port extra =
    let hosts = extra_hosts_of extra in
    if is_loopback bind
    then some (record { port = port; bind_ip = none; extra_hosts = hosts })
    else if is_private_bind bind
    then some (record { port = port; bind_ip = some (canonical bind); extra_hosts = hosts })
    else if not (no_hosts hosts)
    then some (record {
      port = port;
      bind_ip = if not (is_unspecified bind) then some (canonical bind) else none;
      extra_hosts = hosts;
    })
    else none

abbrev pub is_bind : Option IpAddr → IpAddr → Bool
is_bind none ip = false
is_bind (some bind) ip = same_address bind ip

abbrev pub port_ok : ℕ → Option ℕ → Bool
port_ok server none = true
port_ok server (some port) = port == server

abbrev pub literal_ok : AllowedHosts → Option IpAddr → Bool
literal_ok a none = false
literal_ok a (some ip) = is_loopback ip || is_bind a.bind_ip ip

abbrev pub same_host : Option IpAddr → Option IpAddr → Text → Text → Bool
same_host (some ip) (some allowed_ip) host allowed = same_address ip allowed_ip
same_host (some ip) none host allowed = eq_ignore_ascii_case host allowed
same_host none o host allowed = eq_ignore_ascii_case host allowed

module _ (parse_ip : Text → Option IpAddr) where
  abbrev pub address_of : Text → Option IpAddr
  address_of host = Option.map canonical (parse_ip host)

  abbrev pub any_same : Text → List Text → Bool
  any_same host [] = false
  any_same host (allowed ∷ rest) =
      same_host (address_of host) (address_of allowed) host allowed || any_same host rest

  pub allows_extra : AllowedHosts → Text → Bool
  unfolding eq_ignore_ascii_case
  allows_extra a host = any_same host a.extra_hosts

  pub allows : AllowedHosts → Text → Option ℕ → Bool
  unfolding normalize_host eq_ignore_ascii_case allows_extra
  allows a host port =
      let host' = normalize_host host in
      (eq_ignore_ascii_case host' (codes "localhost")
        || literal_ok a (address_of host')
        || allows_extra a host')
      && port_ok a.port port

-- What hyper parses: an authority with its text, and a URI.
pub record Authority : Type 0 where
  pub text : Text
  pub host : Text
  pub port_u16 : Option ℕ

pub record Uri : Type 0 where
  pub authority : Option Authority
  pub host : Option Text
  pub port_u16 : Option ℕ

-- A header that is there, and whether it is text (`to_str`).
abbrev pub Header : Type 0
Header = Option (Option Text)

pub record Request : Type 0 where
  pub host : Header
  pub origin : Header

pub record Response : Type 0 where
  pub status : ℕ
  pub content_type : Text
  pub body : Text

pub reject : Response
reject = record { status = 404; content_type = codes "text/plain"; body = codes "Not Found" }

pub reject_userinfo : Authority → Option (Unit {0})
unfolding contains
reject_userinfo authority = if contains 64 authority.text then none else some tt

abbrev pub unless_rejected {ℓ} : {A : Type ℓ} → Option (Unit {0}) → Option A → Option A
unless_rejected none result = none
unless_rejected (some u) result = result

abbrev pub host_of : Option Authority → Option (Text × Option ℕ)
host_of none = none
host_of (some a) = unless_rejected (reject_userinfo a) (some (a.host, a.port_u16))

abbrev pub with_port : Option Text → Option ℕ → Option (Text × Option ℕ)
with_port none port = none
with_port (some host) port = some (host, port)

abbrev pub origin_in : Uri → Option Authority → Option (Text × Option ℕ)
origin_in uri none = none
origin_in uri (some a) = unless_rejected (reject_userinfo a) (with_port uri.host uri.port_u16)

abbrev pub origin_of : Option Uri → Option (Text × Option ℕ)
origin_of none = none
origin_of (some uri) = origin_in uri uri.authority

-- What hyper reads in a value: an authority, or a URI.
pub record Parsers : Type 0 where
  pub ip : Text → Option IpAddr
  pub authority : Text → Option Authority
  pub uri : Text → Option Uri

module _ (parse : Parsers) where
  pub parse_authority : Text → Option (Text × Option ℕ)
  unfolding reject_userinfo
  parse_authority value = host_of (parse.authority value)

  pub parse_origin : Text → Option (Text × Option ℕ)
  unfolding reject_userinfo
  parse_origin value = origin_of (parse.uri value)

  abbrev pub allowed_host : AllowedHosts → Option (Text × Option ℕ) → Bool
  allowed_host a none = false
  allowed_host a (some (host, port)) = allows parse.ip a host port

  abbrev pub host_ok : AllowedHosts → Header → Bool
  host_ok a none = false
  host_ok a (some none) = false
  host_ok a (some (some value)) = allowed_host a (parse_authority value)

  abbrev pub origin_ok : AllowedHosts → Header → Bool
  origin_ok a none = true
  origin_ok a (some none) = false
  origin_ok a (some (some value)) = allowed_host a (parse_origin value)

  pub check_request_origin : Request → Option AllowedHosts → Option Response
  unfolding allows parse_authority parse_origin
  check_request_origin request none = none
  check_request_origin request (some a) =
      if not (host_ok a request.host)
      then some reject
      else if not (origin_ok a request.origin)
      then some reject
      else none
