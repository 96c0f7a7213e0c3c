-- ===== src/SessionRegistry/Resolve.antt =====
-- `resolve` of session_registry.rs: one session, or an error.
use roxo_mcp.Base.{
  ℕ, ◌≤◌, ◌≡◌, refl, Bool, true, ◌&&◌, List, [], ◌∷◌, Option, none, some, arith, length, keep,
}
use mathlib.Core.Option
use roxo_mcp.Base.Text.{Text, PathBuf}
use roxo_mcp.SessionRegistry.{
  SessionBeacon, SessionsDir, Resolved, found, no_session, ambiguous, failed, on_port, in_project,
  choose, canonical, narrow, resolve, list,
}

-- The session has the port and the project that the caller asks for, as far as it asks.
abbrev pub selected : (PathBuf → Option PathBuf) → Option ℕ → Option PathBuf → SessionBeacon → Bool
selected canonicalize port project b =
    on_port port b && in_project (Option.map (canonical canonicalize) project) b

-- What an answer says of the listed sessions that are selected.
abbrev pub Answers : List SessionBeacon → Resolved → Type 0
Answers selection (found b) = selection ≡ b ∷ []
Answers selection no_session = selection ≡ []
Answers selection (ambiguous listing) = 2 ≤ length selection
Answers selection failed = ⊥

choose-Answers : (sessions : List SessionBeacon) → Answers sessions (choose sessions)
choose-Answers [] = refl
choose-Answers (b ∷ []) = refl
choose-Answers (b ∷ c ∷ rest) = omega arith

keep_all :
    (xs : List SessionBeacon) (p q : SessionBeacon → Bool)
    → ((b : SessionBeacon) → p b ≡ q b)
    → keep p xs ≡ keep q xs
keep_all [] p q h = refl
keep_all (x ∷ xs) p q h = rw (h x, keep_all xs p q h) refl

keep_both :
    (xs : List SessionBeacon) (p q : SessionBeacon → Bool)
    → keep q (keep p xs) ≡ keep (λ b. p b && q b) xs
keep_both [] p q = refl
keep_both (x ∷ xs) p q = ground (arith, keep_both xs p q)

narrow_lem :
    (canonicalize : PathBuf → Option PathBuf) (port : Option ℕ) (project : Option PathBuf)
    (sessions : List SessionBeacon)
    → narrow canonicalize port project sessions ≡ keep (selected canonicalize port project) sessions
narrow_lem canonicalize port none sessions =
    keep_all sessions (on_port port) (λ b. on_port port b && true) (λ b. ground arith)
narrow_lem canonicalize port (some project) sessions =
    keep_both sessions (on_port port) (in_project (some (canonical canonicalize project)))

module _ (from_slice : Text → Option SessionBeacon) (alive : ℕ → Bool)
    (canonicalize : PathBuf → Option PathBuf) where
  -- A resolution answers with a session only if it is the only listed one that the caller's port
  -- and project select, and else says that there is none or that there are several: it never
  -- guesses. It fails where the listing fails, and leaves the directory as the listing does.
  pub resolve-Answers :
      (port : Option ℕ) (project : Option PathBuf) (dir : SessionsDir)
      → let (dir', sessions) = list from_slice alive dir in
        let (dir'', answer) = resolve from_slice alive canonicalize port project dir in
        (dir'' ≡ dir')
        × (sessions ≡ none → answer ≡ failed)
        × ((ss : List SessionBeacon)
            → sessions ≡ some ss
            → Answers (keep (selected canonicalize port project) ss) answer)
  unfolding resolve
  resolve-Answers port project dir = (
    refl,
    λ e. rw e refl,
    λ ss e.
        rw (e, narrow_lem canonicalize port project ss)
          (choose-Answers (keep (selected canonicalize port project) ss)),
  )
