-- ===== src/Diagnose/State.antt =====
-- The state that cli/diagnose.rs reports, and the probe that it is about.
use roxo_mcp.Base.{
  ℕ, ◌≡◌, refl, sym, subst, ap, Bool, true, false, List, [], ◌∷◌, ◌++◌, Option, none, some, ite,
  All, Option-cases, Bool-cases, inl, inr, if◌then◌else◌,
}
use roxo_mcp.Base.Text.{Text, codes}
use roxo_mcp.ClientRegistry.{ProbeInfo, ProbeVerdict}
use roxo_mcp.Base.Names.{Text_discrete}
use roxo_mcp.Diagnose.{
  SessionStatus, Diagnosis, connected_state, declined_state, ambiguous_state, probed_state,
  not_probed_state, RejectCode, unlisted, auto_connect_off, unpublished_place, blocked_place,
  protocol_mismatch, other, change_for, list_place, apply_fix, reject_code, fresh_verdict,
  find_client, connected, not_probed, ambiguous, declined, probed, judged, first_probe, find_fresh,
  or_first, diagnose_probe, diagnose_at,
}

-- No probe of the list has a verdict that still holds.
abbrev pub Silent : List ProbeInfo → Type 0
Silent = All (λ probe. fresh_verdict probe ≡ none)

-- Which facts each state stands for.
pub data Explains (status : SessionStatus) (d : Diagnosis) : Type 0 where
  attached : status.studio_connected ≡ true → d.state ≡ connected_state → Explains status d
  unseen :
      status.studio_connected ≡ false
      → status.recent_probes ≡ []
      → d.state ≡ not_probed_state
      → Explains status d
  silent :
      (probe : ProbeInfo) (rest : List ProbeInfo)
      → status.studio_connected ≡ false
      → status.recent_probes ≡ probe ∷ rest
      → Silent (probe ∷ rest)
      → d.state ≡ probed_state
      → d.place_id ≡ probe.place_id
      → Explains status d
  turned_away :
      (before : List ProbeInfo) (probe : ProbeInfo) (after : List ProbeInfo)
      (verdict : ProbeVerdict)
      → status.studio_connected ≡ false
      → status.recent_probes ≡ before ++ probe ∷ after
      → Silent before
      → fresh_verdict probe ≡ some verdict
      → d.state
        ≡ ite (Text_discrete verdict.outcome (codes "ambiguous")) ambiguous_state declined_state
      → d.place_id ≡ probe.place_id
      → d.reason_code ≡ verdict.code
      → Explains status d

change_for-state :
    (project : Text) (served : Option (List ℕ)) (place_id : Option ℕ) (kind : RejectCode)
    (d : Diagnosis)
    → (change_for project served place_id kind d).state ≡ d.state
unfolding list_place
change_for-state project served place_id unlisted d = refl
change_for-state project served place_id auto_connect_off d = refl
change_for-state project served place_id unpublished_place d = refl
change_for-state project served place_id blocked_place d = refl
change_for-state project served place_id protocol_mismatch d = refl
change_for-state project served place_id other d = refl

ite-state :
    {P : Type 0} (d : Dec P) (a b : Diagnosis)
    → a.state ≡ ambiguous_state
    → b.state ≡ declined_state
    → (ite d a b).state ≡ ite d ambiguous_state declined_state
ite-state (yes p) a b e f = e
ite-state (no n) a b e f = f

judged-state :
    (status : SessionStatus) (probe : ProbeInfo) (verdict : ProbeVerdict)
    → (judged status probe (some verdict)).state
      ≡ ite (Text_discrete verdict.outcome (codes "ambiguous")) ambiguous_state declined_state
unfolding ambiguous declined apply_fix
judged-state status probe verdict =
    ite-state (Text_discrete verdict.outcome (codes "ambiguous")) (ambiguous probe verdict)
      (declined status probe verdict) refl
      (change_for-state status.project_path status.serve_place_ids probe.place_id
        (reject_code verdict.code) _)

-- What the search for a fresh verdict gives.
data Search (probes : List ProbeInfo) : Option ProbeInfo → Type 0 where
  missed : Silent probes → Search probes none
  hit :
      (before : List ProbeInfo) (probe : ProbeInfo) (after : List ProbeInfo)
      (verdict : ProbeVerdict)
      → probes ≡ before ++ probe ∷ after
      → Silent before
      → fresh_verdict probe ≡ some verdict
      → Search probes (some probe)

Search-cons :
    (probe : ProbeInfo) (probes : List ProbeInfo) (o : Option ProbeInfo)
    → fresh_verdict probe ≡ none
    → Search probes o
    → Search (probe ∷ probes) o
Search-cons probe probes none e (missed s) = missed (e, s)
Search-cons probe probes (some p) e (hit before found after verdict f s g) =
    hit (probe ∷ before) found after verdict (ap (◌∷◌ probe) f) (e, s) g

find_fresh-Search : (probes : List ProbeInfo) → Search probes (find_fresh probes)
find_fresh-Search [] = missed tt
find_fresh-Search (probe ∷ probes) = elim (Option-cases (fresh_verdict probe)) [
  | inl e ↦
      rw (e, find_fresh) (Search-cons probe probes (find_fresh probes) e (find_fresh-Search probes))
  | inr (verdict, e) ↦ rw (e, find_fresh) (hit [] probe probes verdict refl tt e)
]

first-Silent :
    (status : SessionStatus) (port : Option ℕ) (now : ℕ) (probes : List ProbeInfo)
    → status.studio_connected ≡ false
    → status.recent_probes ≡ probes
    → Silent probes
    → Explains status (diagnose_probe status port now (first_probe probes))
unfolding not_probed probed
first-Silent status port now [] off e s = unseen off e refl
first-Silent status port now (probe ∷ rest) off e s = silent probe rest off e s (rw (s.0) refl) refl

Search-Explains :
    (status : SessionStatus) (port : Option ℕ) (now : ℕ) (o : Option ProbeInfo)
    → status.studio_connected ≡ false
    → Search status.recent_probes o
    → Explains status (diagnose_probe status port now (or_first o status.recent_probes))
Search-Explains status port now none off (missed s) =
    first-Silent status port now status.recent_probes off refl s
Search-Explains status port now (some p) off (hit before probe after verdict e s f) =
    turned_away before probe after verdict off e s f (rw f (judged-state status probe verdict)) refl
      (rw f refl)

connected-state : (status : SessionStatus) → (connected status).state ≡ connected_state
unfolding connected
connected-state status = elim (Option-cases (find_client status.clients)) [
  | inl e ↦ rw e refl
  | inr (client, e) ↦ rw e refl
]

-- The diagnosis is `connected` if a client is attached. Else it is about the most recent probe with
-- a verdict that still holds, whether its place is published or not: ambiguous if that is its
-- outcome, and declined otherwise, with the verdict's code. Without such a verdict it is about the
-- most recent probe, and without a probe it says that there was none.
pub diagnose_at-Explains :
    (status : SessionStatus) (port : Option ℕ) (now : ℕ)
    → Explains status (diagnose_at status port now)
unfolding diagnose_at
diagnose_at-Explains status port now =
    let explained = λ (b : Bool). Explains status (
      if b
      then connected status
      else diagnose_probe status port now
          (or_first (find_fresh status.recent_probes) status.recent_probes)) in
    elim (Bool-cases status.studio_connected) [
      | inl e ↦ subst explained (sym e) (attached e (connected-state status))
      | inr e ↦ subst explained (sym e) (
          Search-Explains status port now (find_fresh status.recent_probes) e
            (find_fresh-Search status.recent_probes))
    ]
