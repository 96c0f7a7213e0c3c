-- ===== src/Origin/Allow.antt =====
-- `allowed_hosts` and `allows` of web/origin.rs: which binds are protected, and by what.
use roxo_mcp.Base.{
  ℕ, ◌+◌, ◌*◌, ◌/◌, ◌<◌, ◌≡◌, refl, subst, arith, true, false, List, [], Option, none, some,
  Bool-cases, inl, inr,
}
use roxo_mcp.Base.Text.{Text}
use roxo_mcp.Origin.Address.{same_address_refl}
use roxo_mcp.Origin.{
  IpAddr, v4, v6, is_loopback, is_unspecified, canonical, is_private_bind, normalize_host,
  AllowedHosts, no_hosts, extra_hosts_of, allowed_hosts, port_ok, address_of, literal_ok, allows,
}

-- A loopback address that is written as an IPv4-mapped IPv6 address is not taken for loopback, and
-- the server that binds it without extra hosts answers every request.
pub mapped_loopback :
    (b c d : ℕ) (port : ℕ)
    → c < 256
    → d < 256
    → b < 256
    → allowed_hosts (v6 0 0 0 0 0 65535 (127 * 256 + b) (c * 256 + d)) port [] ≡ none
unfolding allowed_hosts extra_hosts_of is_private_bind
mapped_loopback b c d port hc hd hb =
    let first : (127 * 256 + b) / 256 ≡ 127 = omega arith in rw first (ground arith)

abbrev IfSome {ℓ} : (AllowedHosts → Type ℓ) → Option AllowedHosts → Type ℓ
IfSome P none = Unit
IfSome P (some a) = P a

loopback-canonical : (ip : IpAddr) → is_loopback ip ≡ true → is_loopback (canonical ip) ≡ true
loopback-canonical (v4 a b c d) e = e
loopback-canonical (v6 a b c d e f g h) l = ground arith

abbrev AnswersBind : IpAddr → ℕ → AllowedHosts → Type 0
AnswersBind bind port a = (a.port ≡ port) × (literal_ok a (some (canonical bind)) ≡ true)

allowed_hosts-AnswersBind :
    (bind : IpAddr) (port : ℕ) (extra : List Text)
    → is_unspecified bind ≡ false
    → IfSome (AnswersBind bind port) (allowed_hosts bind port extra)
unfolding allowed_hosts
allowed_hosts-AnswersBind bind port extra specific =
    let self = same_address_refl (canonical bind) in
    elim (Bool-cases (is_loopback bind)) [
      | inl e ↦ rw e (refl, rw (loopback-canonical bind e) refl)
      | inr e ↦ elim (Bool-cases (is_private_bind bind)) [
        | inl p ↦ rw (e, p) (refl, ground arith)
        | inr p ↦ elim (Bool-cases (no_hosts (extra_hosts_of extra))) [
          | inl q ↦ rw (e, p, q) tt
          | inr q ↦ rw (e, p, q, specific) (refl, ground arith)
        ]
      ]
    ]

port_ok_self : (port : ℕ) → port_ok port (some port) ≡ true
port_ok_self port = ground arith

-- If the check is on for a bind that is a specific address, then a host that parses as that address
-- is accepted with the server's port.
pub allows-bind :
    (parse_ip : Text → Option IpAddr) (bind : IpAddr) (port : ℕ) (extra : List Text) (host : Text)
    (a : AllowedHosts)
    → is_unspecified bind ≡ false
    → parse_ip (normalize_host host) ≡ some bind
    → allowed_hosts bind port extra ≡ some a
    → allows parse_ip a host (some port) ≡ true
unfolding allows
allows-bind parse_ip bind port extra host a specific parses e =
    let (same_port, ok) =
      subst (IfSome (AnswersBind bind port)) e
        (allowed_hosts-AnswersBind bind port extra specific) in
    let port_fits : port_ok a.port (some port) ≡ true = rw same_port (port_ok_self port) in
    let literal : literal_ok a (address_of parse_ip (normalize_host host)) ≡ true = rw parses ok in
    ground arith
