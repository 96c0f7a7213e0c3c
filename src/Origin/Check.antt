-- ===== src/Origin/Check.antt =====
-- `check_request_origin` of web/origin.rs: what a request that passes has shown.
use roxo_mcp.Base.{
  ℕ, ◌≡◌, ◌≢◌, refl, subst, arith, true, false, [], Option, none, some, Bool-cases, inl, inr,
}
use mathlib.Core.Option
use roxo_mcp.Base.Text.{Text, codes}
use roxo_mcp.Origin.{
  IpAddr, is_loopback, is_private_bind, canonical, same_address, eq_ignore_ascii_case, contains,
  normalize_host, AllowedHosts, extra_hosts_of, allowed_hosts, is_bind, port_ok, literal_ok,
  any_same, allows_extra, allows, Authority, Uri, Header, Request, reject_userinfo, unless_rejected,
  host_of, with_port, origin_in, origin_of, Parsers, parse_authority, parse_origin, allowed_host,
  host_ok, origin_ok, check_request_origin,
}

-- A host that no foreign domain can stand in: `localhost`, or a literal of a loopback address or of
-- the address that the server binds.
pub data IsLocal (parse : Parsers) (bind : IpAddr) (host : Text) : Type 0 where
  localhost :
      eq_ignore_ascii_case (normalize_host host) (codes "localhost") ≡ true
      → IsLocal parse bind host
  loopback :
      (ip : IpAddr)
      → parse.ip (normalize_host host) ≡ some ip
      → is_loopback (canonical ip) ≡ true
      → IsLocal parse bind host
  own :
      (ip : IpAddr)
      → parse.ip (normalize_host host) ≡ some ip
      → same_address (canonical bind) (canonical ip) ≡ true
      → IsLocal parse bind host

abbrev IsOwn : IpAddr → AllowedHosts → Type 0
IsOwn bind a =
    (a.extra_hosts ≡ [])
    × ((ip : IpAddr) → is_bind a.bind_ip ip ≡ true → same_address (canonical bind) ip ≡ true)

abbrev IfSome {ℓ} : (AllowedHosts → Type ℓ) → Option AllowedHosts → Type ℓ
IfSome P none = Unit
IfSome P (some a) = P a

allowed_hosts-IsOwn :
    (bind : IpAddr) (port : ℕ)
    → IfSome (λ a. IsOwn bind a × (a.port ≡ port)) (allowed_hosts bind port [])
unfolding allowed_hosts extra_hosts_of
allowed_hosts-IsOwn bind port = elim (Bool-cases (is_loopback bind)) [
  | inl e ↦ rw e ((refl, λ ip h. absurd cc), refl)
  | inr e ↦ elim (Bool-cases (is_private_bind bind)) [
    | inl p ↦ rw (e, p) ((refl, λ ip h. h), refl)
    | inr p ↦ rw (e, p) tt
  ]
]

module _ (parse : Parsers) (bind : IpAddr) where
  literal-IsLocal :
      (a : AllowedHosts) (host : Text) (o : Option IpAddr)
      → IsOwn bind a
      → parse.ip (normalize_host host) ≡ o
      → literal_ok a (Option.map canonical o) ≡ true
      → IsLocal parse bind host
  literal-IsLocal a host none own' e h = absurd cc
  literal-IsLocal a host (some ip) own' e h = elim (Bool-cases (is_loopback (canonical ip))) [
    | inl l ↦ loopback ip e l
    | inr l ↦ own ip e (own'.1 (canonical ip) (ground arith))
  ]

  allows-IsLocal :
      (a : AllowedHosts) (host : Text) (port : Option ℕ)
      → IsOwn bind a
      → allows parse.ip a host port ≡ true
      → IsLocal parse bind host × (port_ok a.port port ≡ true)
  unfolding allows allows_extra
  allows-IsLocal a host port own' h =
      let host' = normalize_host host in
      let no_extra : any_same parse.ip host' a.extra_hosts ≡ false = rw own'.0 refl in
      (
        elim (Bool-cases (eq_ignore_ascii_case host' (codes "localhost"))) [
          | inl e ↦ localhost e
          | inr e ↦ literal-IsLocal a host (parse.ip host') own' refl (ground (arith, no_extra))
        ],
        ground arith,
      )

  -- A header value whose authority has no user information and names a local host, with the
  -- server's port if it names one.
  pub record HostShown (server : ℕ) (value : Text) : Type 0 where
    pub authority : Authority
    pub parses : parse.authority value ≡ some authority
    pub plain : contains 64 authority.text ≡ false
    pub local : IsLocal parse bind authority.host
    pub port : port_ok server authority.port_u16 ≡ true

  pub record OriginShown (server : ℕ) (value : Text) : Type 0 where
    pub uri : Uri
    pub authority : Authority
    pub host : Text
    pub parses : parse.uri value ≡ some uri
    pub has_authority : uri.authority ≡ some authority
    pub has_host : uri.host ≡ some host
    pub plain : contains 64 authority.text ≡ false
    pub local : IsLocal parse bind host
    pub port : port_ok server uri.port_u16 ≡ true

  plain_of :
      (authority : Authority)
      → reject_userinfo authority ≢ none
      → contains 64 authority.text ≡ false
  unfolding reject_userinfo
  plain_of authority h = ground arith

  unless_rejected-allowed :
      (a : AllowedHosts) (u : Option (Unit {0})) (result : Option (Text × Option ℕ))
      → allowed_host parse a (unless_rejected u result) ≡ true
      → (u ≢ none) × (allowed_host parse a result ≡ true)
  unless_rejected-allowed a none result h = absurd cc
  unless_rejected-allowed a (some u) result h = ((λ e. cc), h)

  host_lem :
      (a : AllowedHosts) (value : Text) (o : Option Authority)
      → IsOwn bind a
      → parse.authority value ≡ o
      → allowed_host parse a (host_of o) ≡ true
      → HostShown a.port value
  host_lem a value none own' e h = absurd cc
  host_lem a value (some authority) own' e h =
      let (kept, passes) =
        unless_rejected-allowed a (reject_userinfo authority)
          (some (authority.host, authority.port_u16)) h in
      let (local, port) = allows-IsLocal a authority.host authority.port_u16 own' passes in
      record {
        authority = authority;
        parses = e;
        plain = plain_of authority kept;
        local = local;
        port = port;
      }

  origin_lem :
      (a : AllowedHosts) (value : Text) (uri : Uri) (o : Option Authority) (h : Option Text)
      → IsOwn bind a
      → parse.uri value ≡ some uri
      → uri.authority ≡ o
      → uri.host ≡ h
      → allowed_host parse a (origin_in uri o) ≡ true
      → OriginShown a.port value
  origin_lem a value uri none h own' e f g passes = absurd cc
  origin_lem a value uri (some authority) none own' e f g passes =
      let (kept, passes') =
        unless_rejected-allowed a (reject_userinfo authority) (with_port uri.host uri.port_u16)
          passes in
      let no : false ≡ true =
        subst (λ o. allowed_host parse a (with_port o uri.port_u16) ≡ true) g passes' in
      absurd cc
  origin_lem a value uri (some authority) (some host) own' e f g passes =
      let (kept, passes') =
        unless_rejected-allowed a (reject_userinfo authority) (with_port uri.host uri.port_u16)
          passes in
      let (local, port) =
        allows-IsLocal a host uri.port_u16 own'
          (subst (λ o. allowed_host parse a (with_port o uri.port_u16) ≡ true) g passes') in
      record {
        uri = uri;
        authority = authority;
        host = host;
        parses = e;
        has_authority = f;
        has_host = g;
        plain = plain_of authority kept;
        local = local;
        port = port;
      }

  pub data HostHeader (server : ℕ) : Header → Type 0 where
    shown : (value : Text) → HostShown server value → HostHeader server (some (some value))

  -- No browser sent the request, or its page is local as well.
  pub data OriginHeader (server : ℕ) : Header → Type 0 where
    absent : OriginHeader server none
    shown_origin :
        (value : Text) → OriginShown server value → OriginHeader server (some (some value))

  host_ok-HostHeader :
      (a : AllowedHosts) (header : Header)
      → IsOwn bind a
      → host_ok parse a header ≡ true
      → HostHeader a.port header
  unfolding parse_authority
  host_ok-HostHeader a none own' h = absurd cc
  host_ok-HostHeader a (some none) own' h = absurd cc
  host_ok-HostHeader a (some (some value)) own' h =
      shown value (host_lem a value (parse.authority value) own' refl h)

  origin_of-Shown :
      (a : AllowedHosts) (value : Text) (o : Option Uri)
      → IsOwn bind a
      → parse.uri value ≡ o
      → allowed_host parse a (origin_of o) ≡ true
      → OriginShown a.port value
  origin_of-Shown a value none own' e h = absurd cc
  origin_of-Shown a value (some uri) own' e h =
      origin_lem a value uri uri.authority uri.host own' e refl refl h

  origin_ok-OriginHeader :
      (a : AllowedHosts) (header : Header)
      → IsOwn bind a
      → origin_ok parse a header ≡ true
      → OriginHeader a.port header
  unfolding parse_origin
  origin_ok-OriginHeader a none own' h = absent
  origin_ok-OriginHeader a (some none) own' h = absurd cc
  origin_ok-OriginHeader a (some (some value)) own' h =
      shown_origin value (origin_of-Shown a value (parse.uri value) own' refl h)

  -- A protected server without extra hosts lets a request pass only if its Host header names
  -- `localhost`, a loopback literal or the server's own address, and its Origin header, if there
  -- is one, does too: no value with user information, no foreign domain, no other port.
  pub check_request_origin-Shown :
      (port : ℕ) (a : AllowedHosts) (request : Request)
      → allowed_hosts bind port [] ≡ some a
      → check_request_origin parse request (some a) ≡ none
      → HostHeader port request.host × OriginHeader port request.origin
  unfolding check_request_origin
  check_request_origin-Shown port a request e passes =
      let (own', same) =
        subst (IfSome (λ a. IsOwn bind a × (a.port ≡ port))) e (allowed_hosts-IsOwn bind port) in
      let host_passes : host_ok parse a request.host ≡ true = ground arith in
      let origin_passes : origin_ok parse a request.origin ≡ true = ground arith in
      (
        subst (λ p. HostHeader p request.host) same
            (host_ok-HostHeader a request.host own' host_passes),
        subst (λ p. OriginHeader p request.origin) same
            (origin_ok-OriginHeader a request.origin own' origin_passes),
      )
