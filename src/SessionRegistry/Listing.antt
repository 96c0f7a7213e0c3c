-- ===== src/SessionRegistry/Listing.antt =====
-- `list`, `publish` and the guard of session_registry.rs against what one file says.
use roxo_mcp.Base.{
  ℕ, ◌≡◌, refl, sym, subst, Bool, true, false, List, [], ◌∷◌, ◌++◌, Option, none, some, arith, keep,
  ite, if◌then◌else◌,
}
use mathlib.Core.List.Perm
use mathlib.Core.List.{Perm}
use roxo_mcp.Base.Dict.{lookup, insert, remove, IsDistinct, remove-absent, remove-insert}
use roxo_mcp.Base.Sort.{IsSorted, sort_by, sort_by-perm, sort_by-IsSorted, IsTotal, IsTransitive}
use roxo_mcp.Base.Text.{Text, codes}
use roxo_mcp.Base.Names.{Text_discrete, extension, rsplit_dot, extension-append, to_string-cons}
use roxo_mcp.SessionRegistry.{
  SessionBeacon, Entry, entries, json, file_name, is_json, parsed, scan, by_port, list, publish,
  drop_guard,
}

by_port-IsTotal : IsTotal by_port
by_port-IsTotal a b e = ground arith

by_port-IsTransitive : IsTransitive by_port
by_port-IsTransitive a b c e f = ground arith

extension-is_json : (name : Text) → extension name ≡ some json → is_json name ≡ true
unfolding is_json
extension-is_json name e = rw (e, is_json) (unfold Text_discrete in refl)

file_name-is_json : (b : SessionBeacon) → is_json (file_name b) ≡ true
file_name-is_json b =
    let (c, cs, e) = to_string-cons b.port in
    subst (λ t. is_json (t ++ codes ".json") ≡ true) (sym e)
      (extension-is_json ((c ∷ cs) ++ codes ".json")
        (extension-append c cs json (unfold rsplit_dot in refl)))

module _ (from_slice : Text → Option SessionBeacon) (alive : ℕ → Bool) where
  abbrev live : Option SessionBeacon → Option SessionBeacon
  live none = none
  live (some b) = if alive b.pid then some b else none

  -- The session that a file advertises: it is named like a beacon, can be read and parsed, and its
  -- process is alive.
  abbrev pub advertised : Entry → Option SessionBeacon
  advertised (name, content) = if is_json name then live (parsed from_slice content) else none

  abbrev is_some : Option SessionBeacon → Bool
  is_some none = false
  is_some (some b) = true

  -- A file that `list` leaves alone: not named like a beacon, or advertising a session.
  abbrev pub stays : Entry → Bool
  stays entry = if is_json entry.0 then is_some (advertised entry) else true

  abbrev add_session : Option SessionBeacon → List SessionBeacon → List SessionBeacon
  add_session none sessions = sessions
  add_session (some b) sessions = b ∷ sessions

  add_session-Perm :
      (o : Option SessionBeacon) (b : SessionBeacon) (xs ys : List SessionBeacon)
      → Perm xs (b ∷ ys)
      → Perm (add_session o xs) (b ∷ add_session o ys)
  add_session-Perm none b xs ys h = h
  add_session-Perm (some c) b xs ys h = Perm.trans (Perm.cons c h) (Perm.swap b c ys)

  abbrev pub advertised_in : List Entry → List SessionBeacon
  advertised_in [] = []
  advertised_in (entry ∷ dir) = add_session (advertised entry) (advertised_in dir)

  scan_lem : (dir : List Entry) → scan from_slice alive dir ≡ (keep stays dir, advertised_in dir)
  unfolding scan
  scan_lem [] = refl
  scan_lem ((name, none) ∷ dir) = rw (scan_lem dir) (ground arith)
  scan_lem ((name, some bytes) ∷ dir) = rw (scan_lem dir) (ground arith)

  -- The listed sessions are those that the files advertise, by ascending port, and exactly the files
  -- that are named like a beacon without advertising a session are removed.
  pub list_lem :
      (dir : List Entry)
      → let (dir', sessions) = list from_slice alive (entries dir) in
        (dir' ≡ entries (keep stays dir))
        × ((ss : List SessionBeacon) × (sessions ≡ some ss)
            × Perm ss (advertised_in dir)
            × IsSorted by_port ss)
  unfolding list
  list_lem dir = rw (scan_lem dir) (
    refl,
    (
      sort_by by_port (advertised_in dir),
      refl,
      sort_by-perm by_port (advertised_in dir),
      sort_by-IsSorted by_port (advertised_in dir) by_port-IsTotal by_port-IsTransitive,
    ),
  )

  advertised_in-ite :
      {j name : Text} (d : Dec (j ≡ name)) (content w : Option Text) (b : SessionBeacon)
      (dir ins rem : List Entry)
      → advertised (name, content) ≡ some b
      → (j ≡ name → rem ≡ dir)
      → Perm (advertised_in ins) (b ∷ advertised_in rem)
      → Perm
          (advertised_in (ite d ((name, content) ∷ dir) ((j, w) ∷ ins)))
          (b ∷ advertised_in (ite d rem ((j, w) ∷ rem)))
  advertised_in-ite {name = name} (yes e) content w b dir ins rem h gone rest =
      rw (h, gone e) (Perm.refl (b ∷ advertised_in dir))
  advertised_in-ite {j = j} (no n) content w b dir ins rem h gone rest =
      add_session-Perm (advertised (j, w)) b (advertised_in ins) (advertised_in rem) rest

  advertised_in-insert :
      (name : Text) (content : Option Text) (b : SessionBeacon) (dir : List Entry)
      → IsDistinct Text_discrete dir
      → advertised (name, content) ≡ some b
      → Perm
          (advertised_in (insert Text_discrete name content dir))
          (b ∷ advertised_in (remove Text_discrete name dir))
  unfolding insert remove
  advertised_in-insert name content b [] d h = rw h (Perm.refl (b ∷ []))
  advertised_in-insert name content b ((j, w) ∷ dir) d h =
      advertised_in-ite (Text_discrete j name) content w b dir
        (insert Text_discrete name content dir) (remove Text_discrete name dir) h
        (λ e.
          remove-absent Text_discrete name dir
            (subst (λ k. lookup Text_discrete k dir ≡ none) e d.0))
        (advertised_in-insert name content b dir d.1 h)

module _ (from_slice : Text → Option SessionBeacon) (alive : ℕ → Bool)
    (to_vec_pretty : SessionBeacon → Text) where
  -- In a directory with no file twice, where JSON reads back the beacon and its process is alive,
  -- a published session is listed, instead of whatever its file advertised before, together with
  -- the sessions of the other files.
  pub list-publish :
      (b : SessionBeacon) (dir : List Entry)
      → IsDistinct Text_discrete dir
      → from_slice (to_vec_pretty b) ≡ some b
      → alive b.pid ≡ true
      → (ss : List SessionBeacon) × ((list from_slice alive
            (entries (publish to_vec_pretty b dir).0)).1
          ≡ some ss)
        × Perm ss (b ∷ advertised_in from_slice alive (remove Text_discrete (file_name b) dir))
  unfolding publish
  list-publish b dir d parses lives =
      let (ss, e, p, sorted) = (list_lem from_slice alive (publish to_vec_pretty b dir).0).1 in
      (
        ss,
        e,
        Perm.trans p (
            advertised_in-insert from_slice alive (file_name b) (some (to_vec_pretty b)) b dir d
              (rw (file_name-is_json b, parses, lives) refl)),
      )

  -- Dropping the guard leaves the other files as they were before the session was published.
  pub drop_guard-publish :
      (b : SessionBeacon) (dir : List Entry)
      → let (dir', guard) = publish to_vec_pretty b dir in
        drop_guard guard dir' ≡ remove Text_discrete (file_name b) dir
  unfolding publish drop_guard
  drop_guard-publish b dir = remove-insert Text_discrete (file_name b) (some (to_vec_pretty b)) dir
