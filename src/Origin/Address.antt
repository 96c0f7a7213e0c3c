-- ===== src/Origin/Address.antt =====
-- What web/origin.rs uses of the standard library: addresses, and texts with ASCII letters.
use roxo_mcp.Base.{
  ℕ, ◌+◌, ◌≡◌, arith, Bool, true, false, ◌&&◌, ◌||◌, [], ◌∷◌, Option, none, some, leb, ◌==◌,
  if◌then◌else◌,
}
use mathlib.Core.Option
use mathlib.Core.Option.{get_or}
use roxo_mcp.Base.Text.{Text}

-- Four octets, or eight segments of 16 bits.
pub data IpAddr : Type 0 where
  v4 : (a b c d : ℕ) → IpAddr
  v6 : (a b c d e f g h : ℕ) → IpAddr

abbrev pub is_loopback : IpAddr → Bool
is_loopback (v4 a b c d) = a == 127
is_loopback (v6 a b c d e f g h) =
    a == 0 && b == 0 && c == 0 && d == 0 && e == 0 && f == 0 && g == 0 && h == 1

abbrev pub is_unspecified : IpAddr → Bool
is_unspecified (v4 a b c d) = a == 0 && b == 0 && c == 0 && d == 0
is_unspecified (v6 a b c d e f g h) =
    a == 0 && b == 0 && c == 0 && d == 0 && e == 0 && f == 0 && g == 0 && h == 0

abbrev pub is_private : (a b c d : ℕ) → Bool
is_private a b c d = a == 10 || a == 172 && leb 16 b && leb b 31 || a == 192 && b == 168

abbrev pub is_link_local : (a b c d : ℕ) → Bool
is_link_local a b c d = a == 169 && b == 254

abbrev pub is_mapped : (a b c d e f : ℕ) → Bool
is_mapped a b c d e f = a == 0 && b == 0 && c == 0 && d == 0 && e == 0 && f == 65535

abbrev pub same_address : IpAddr → IpAddr → Bool
same_address (v4 a b c d) (v4 a' b' c' d') = a == a' && b == b' && c == c' && d == d'
same_address (v4 a b c d) (v6 a' b' c' d' e' f' g' h') = false
same_address (v6 a b c d e f g h) (v4 a' b' c' d') = false
same_address (v6 a b c d e f g h) (v6 a' b' c' d' e' f' g' h') =
    a == a' && b == b' && c == c' && d == d' && e == e' && f == f' && g == g' && h == h'

pub same_address_refl : (ip : IpAddr) → same_address ip ip ≡ true
same_address_refl (v4 a b c d) = ground arith
same_address_refl (v6 a b c d e f g h) = ground arith

abbrev pub lower : ℕ → ℕ
lower c = if leb 65 c && leb c 90 then c + 32 else c

unfoldable pub eq_ignore_ascii_case : Text → Text → Bool
eq_ignore_ascii_case [] [] = true
eq_ignore_ascii_case [] (d ∷ ds) = false
eq_ignore_ascii_case (c ∷ cs) [] = false
eq_ignore_ascii_case (c ∷ cs) (d ∷ ds) = lower c == lower d && eq_ignore_ascii_case cs ds

-- `char::is_whitespace`.
abbrev pub is_whitespace : ℕ → Bool
is_whitespace c =
    leb 9 c && leb c 13
    || c == 32
    || c == 133
    || c == 160
    || c == 5760
    || leb 8192 c && leb c 8202
    || c == 8232
    || c == 8233
    || c == 8239
    || c == 8287
    || c == 12288

abbrev pub trim_start : Text → Text
trim_start [] = []
trim_start (c ∷ cs) = if is_whitespace c then trim_start cs else c ∷ cs

abbrev pub trim_end_cons : ℕ → Text → Text
trim_end_cons c [] = if is_whitespace c then [] else c ∷ []
trim_end_cons c (d ∷ ds) = c ∷ d ∷ ds

abbrev pub trim_end : Text → Text
trim_end [] = []
trim_end (c ∷ cs) = trim_end_cons c (trim_end cs)

unfoldable pub trim : Text → Text
trim t = trim_end (trim_start t)

abbrev pub strip_prefix : ℕ → Text → Option Text
strip_prefix p [] = none
strip_prefix p (c ∷ cs) = if c == p then some cs else none

abbrev pub strip_suffix : ℕ → Text → Option Text
strip_suffix p [] = none
strip_suffix p (c ∷ []) = if c == p then some [] else none
strip_suffix p (c ∷ d ∷ ds) = Option.map (λ t. c ∷ t) (strip_suffix p (d ∷ ds))

-- What `split` gives first.
abbrev pub first_part : ℕ → Text → Text
first_part p [] = []
first_part p (c ∷ cs) = if c == p then [] else c ∷ first_part p cs

unfoldable pub contains : ℕ → Text → Bool
contains p [] = false
contains p (c ∷ cs) = c == p || contains p cs
