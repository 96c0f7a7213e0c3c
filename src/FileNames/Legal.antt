-- ===== src/FileNames/Legal.antt =====
-- The names of syncback/file_names.rs that can be written.
use roxo_mcp.Base.{ℕ, ◌<◌, ◌≡◌, ◌≢◌, ◌⊎◌, Bool, false, List, [], ◌∷◌, ◌++◌, Option, none, some, All}
use roxo_mcp.Base.Text.{Text, codes}
use roxo_mcp.FileNames.{
  ends_with, check_chars, Named, named, illegal, no_source, not_unicode, panics,
}

named_text : Text → Named → Text
named_text t (named u) = u
named_text t (illegal e) = t
named_text t no_source = t
named_text t not_unicode = t
named_text t panics = t

abbrev IsExtension : Option Text → Type 0
IsExtension none = Unit
IsExtension (some ext) =
    (check_chars (46 ∷ ext) ≡ none)
    × (ends_with 32 (46 ∷ ext) ≡ false)
    × (ends_with 46 (46 ∷ ext) ≡ false)

-- The names that Windows reserves.
abbrev devices : List Text
devices =
    codes "CON"
    ∷ codes "PRN"
    ∷ codes "AUX"
    ∷ codes "NUL"
    ∷ codes "COM1"
    ∷ codes "COM2"
    ∷ codes "COM3"
    ∷ codes "COM4"
    ∷ codes "COM5"
    ∷ codes "COM6"
    ∷ codes "COM7"
    ∷ codes "COM8"
    ∷ codes "COM9"
    ∷ codes "LPT1"
    ∷ codes "LPT2"
    ∷ codes "LPT3"
    ∷ codes "LPT4"
    ∷ codes "LPT5"
    ∷ codes "LPT6"
    ∷ codes "LPT7"
    ∷ codes "LPT8"
    ∷ codes "LPT9"
    ∷ []

-- A character that is no control character (up to 31, or 127 to 159), and none of < > : " / | ? * \.
pub record IsAllowed (c : ℕ) : Type 0 where
  pub above : 31 < c
  pub outside : (c < 127) ⊎ (159 < c)
  pub others : All (λ d. c ≢ d) (60 ∷ 62 ∷ 58 ∷ 34 ∷ 47 ∷ 124 ∷ 63 ∷ 42 ∷ 92 ∷ [])

pub record IsLegal (t : Text) : Type 0 where
  pub allowed : All IsAllowed t
  pub no_space : (before : Text) → t ≢ before ++ 32 ∷ []
  pub no_dot : (before : Text) → t ≢ before ++ 46 ∷ []
  pub no_device : All (λ device. t ≢ device) devices
