-- ===== src/Resolution/Lookup.antt =====
-- Where a property is found: the loop over superclasses against the relation that it decides.
use Prim.Native.String.{String}
use roxo_mcp.Base.{
  ℕ, zero, suc, ◌<◌, ◌≡◌, refl, ◌∙◌, ◌↔◌, inl, inr, Option, none, some, arith, Option-cases,
}
use roxo_mcp.Resolution.Values.{Database, ClassDescriptor, DataType}
use roxo_mcp.Resolution.{find_descriptor, found_or, climb, visit}

-- The descriptor of the nearest class on the way up that has the property.
pub data Finds (db : Database) (prop : String) (found : DataType) : String → Type 0 where
  declared :
      (class : String) (k : ClassDescriptor)
      → db.classes class ≡ some k
      → k.properties prop ≡ some found
      → Finds db prop found class
  inherited :
      (class super_class : String) (k : ClassDescriptor)
      → db.classes class ≡ some k
      → k.properties prop ≡ none
      → k.superclass ≡ some super_class
      → Finds db prop found super_class
      → Finds db prop found class

module _ (db : Database) (prop : String) where
  -- No class is above itself: each superclass is nearer to the top.
  abbrev pub IsRanked : (String → ℕ) → Type 0
  IsRanked rank =
      (class super_class : String) (k : ClassDescriptor)
      → db.classes class ≡ some k
      → k.superclass ≡ some super_class
      → rank super_class < rank class

  module _ (found : DataType) where
    -- A class whose superclasses are done.
    found_or_sound :
        (class : String) (k : ClassDescriptor) (up : String → Option DataType)
        (own : Option DataType) (above : Option String)
        → db.classes class ≡ some k
        → k.properties prop ≡ own
        → k.superclass ≡ above
        → ((s : String) → up s ≡ some found → Finds db prop found s)
        → found_or own (climb up above) ≡ some found
        → Finds db prop found class
    found_or_sound class k up (some d) above e g u ih h = declared class k e (g ∙ h)
    found_or_sound class k up none none e g u ih h = cc
    found_or_sound class k up none (some s) e g u ih h = inherited class s k e g u (ih s h)

    find_descriptor_sound :
        (fuel : ℕ) (class : String)
        → find_descriptor db fuel class prop ≡ some found
        → Finds db prop found class
    unfolding find_descriptor
    find_descriptor_sound zero class h = cc
    find_descriptor_sound (suc fuel) class h = elim (Option-cases (db.classes class)) [
      | inl e ↦ cc (rw e at h)
      | inr (k, e) ↦
          found_or_sound class k (λ s. find_descriptor db fuel s prop) (k.properties prop)
            k.superclass e refl refl (λ s. find_descriptor_sound fuel s) (rw e at h)
    ]

    find_descriptor_complete :
        (rank : String → ℕ)
        → IsRanked rank
        → (fuel : ℕ) (class : String) → rank class < fuel
        → Finds db prop found class
        → find_descriptor db fuel class prop ≡ some found
    unfolding find_descriptor
    find_descriptor_complete rank up zero class l f = absurd (omega arith)
    find_descriptor_complete rank up (suc fuel) class l (declared _ k e g) =
        rw (e, visit) (rw (g, found_or) refl)
    find_descriptor_complete rank up (suc fuel) class l (inherited _ super_class k e g u f) =
        let below : rank super_class < fuel = omega (arith, up class super_class k e u) in
        rw (e, visit)
          (rw (g, found_or)
            (rw (u, climb) (find_descriptor_complete rank up fuel super_class below f)))

  -- If each superclass has a lower rank than its class, and the fuel is more than the rank of the
  -- class, the loop finds a descriptor exactly when the nearest class on the way up that has the
  -- property gives it.
  pub find_descriptor-Finds :
      (rank : String → ℕ) (fuel : ℕ) (class : String) (found : DataType)
      → IsRanked rank
      → rank class < fuel
      → (find_descriptor db fuel class prop ≡ some found) ↔ Finds db prop found class
  find_descriptor-Finds rank fuel class found up l =
      (find_descriptor_sound found fuel class, find_descriptor_complete found rank up fuel class l)
