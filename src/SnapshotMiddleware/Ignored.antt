-- ===== src/SnapshotMiddleware/Ignored.antt =====
-- Which of the ignore rules decides.
use roxo_mcp.Base.{
  ◌≡◌, refl, Bool, true, false, not, List, [], ◌∷◌, ◌++◌, All, ◌⊎◌, inl, inr, if◌then◌else◌,
  Bool-cases,
}
use roxo_mcp.SnapshotMiddleware.Rules.{
  FilePath, Globs, PathIgnoreRule, ignore_rule_matches, ignore_loop, is_path_ignored,
}

module _ {Glob : Type 0} (g : Globs Glob) (path : FilePath) where
  abbrev pub Passes : List (PathIgnoreRule Glob) → Type 0
  Passes rules = All (λ rule. ignore_rule_matches g rule path ≡ false) rules

  -- The rule is the last one of the list that matches the path.
  pub record IsLast (rules : List (PathIgnoreRule Glob)) (rule : PathIgnoreRule Glob) : Type 0 where
    pub before : List (PathIgnoreRule Glob)
    pub after : List (PathIgnoreRule Glob)
    pub split : rules ≡ before ++ rule ∷ after
    pub found : ignore_rule_matches g rule path ≡ true
    pub passed : Passes after

  -- The verdict of the last match, or the one given where no rule matches.
  abbrev pub Decides : Bool → List (PathIgnoreRule Glob) → Bool → Type 0
  Decides default rules verdict =
      (Passes rules × (verdict ≡ default))
      ⊎ ((rule : PathIgnoreRule Glob) × IsLast rules rule × (verdict ≡ not rule.glob.negated))

  add_rule :
      (default verdict : Bool) (rule : PathIgnoreRule Glob) (rules : List (PathIgnoreRule Glob))
      → Decides
          (if ignore_rule_matches g rule path then not rule.glob.negated else default)
          rules
          verdict
      → Decides default (rule ∷ rules) verdict
  add_rule default verdict rule rules (inl (passed, e)) =
      elim (Bool-cases (ignore_rule_matches g rule path)) [
        | inl m ↦ inr (
          rule,
          record { before = []; after = rules; split = refl; found = m; passed = passed },
          rw m at e,
        )
        | inr m ↦ inl ((m, passed), rw m at e)
      ]
  add_rule default verdict rule rules (inr (last, h, e)) = inr (
    last,
    record {
      before = rule ∷ h.before;
      after = h.after;
      split = rw h.split refl;
      found = h.found;
      passed = h.passed;
    },
    e,
  )

  ignore_loop-Decides :
      (rules : List (PathIgnoreRule Glob)) (default : Bool)
      → Decides default rules (ignore_loop g default rules path)
  unfolding ignore_loop
  ignore_loop-Decides [] default = inl (tt, refl)
  ignore_loop-Decides (rule ∷ rules) default =
      add_rule default _ rule rules (ignore_loop-Decides rules _)

  -- The last rule that matches the path decides: the path is ignored unless that rule is a
  -- negation; without a match it is not ignored.
  pub is_path_ignored-Decides :
      (rules : List (PathIgnoreRule Glob)) → Decides false rules (is_path_ignored g rules path)
  unfolding is_path_ignored
  is_path_ignored-Decides rules = ignore_loop-Decides rules false
