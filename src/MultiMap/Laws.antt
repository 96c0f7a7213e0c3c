-- ===== src/MultiMap/Laws.antt =====
-- What a reader of multimap.rs sees: each key has a set of values.
use roxo_mcp.Base.{
  ◌≡◌, refl, sym, ◌≢◌, true, false, List, [], ◌∷◌, ◌++◌, Option, none, some, ite, arith,
  if◌then◌else◌, Option-cases, Bool-cases, inl, inr,
}
use roxo_mcp.Base.Dict.{
  lookup, IsDistinct, AllValues, lookup-insert, lookup-remove, insert-IsDistinct, remove-IsDistinct,
  insert-AllValues, remove-AllValues, lookup-AllValues,
}
use roxo_mcp.MultiMap.{MultiMap, get, insert, remove, settle, contains, Unique}
use roxo_mcp.MultiMap.Bucket.{Swapped, absent, position, position-none, position-Removes}
use mathlib.Core.Logic.{if_pos, if_neg}

module _ {ℓ} {A : Type ℓ} (dec : Discrete A) where
  contains-append :
      (v w : A) (xs : List A)
      → contains dec w (xs ++ v ∷ []) ≡ ite (dec v w) true (contains dec w xs)
  unfolding contains
  contains-append v w [] = refl
  contains-append v w (x ∷ xs) = ground (arith, contains-append v w xs)

  Unique-append :
      (v : A) (xs : List A) → Unique dec xs → contains dec v xs ≡ false → Unique dec (xs ++ v ∷ [])
  unfolding contains
  Unique-append v [] u e = (refl, tt)
  Unique-append v (x ∷ xs) u e = ground (arith, Unique-append v xs u.1, contains-append v x xs)

module _ {ℓ} {K V : Type ℓ} (deck : Discrete K) (decv : Discrete V) where
  -- No key twice, no empty bucket, and no value twice in a bucket.
  abbrev pub IsBucket : List V → Type ℓ
  IsBucket xs = (xs ≢ []) × Unique decv xs

  pub record IsValid (m : MultiMap K V) : Type ℓ where
    pub distinct : IsDistinct deck m
    pub buckets : AllValues IsBucket m

  pub bucket-Unique : (m : MultiMap K V) (k : K) → IsValid m → Unique decv (get deck decv k m)
  unfolding get
  bucket-Unique m k h = elim (Option-cases (lookup deck k m)) [
    | inl e ↦ rw e tt
    | inr (xs, e) ↦ rw e (lookup-AllValues deck IsBucket k m xs e h.buckets).1
  ]

  contains_pushed :
      (v w : V) (xs : List V)
      → contains decv w (if contains decv v xs then xs else xs ++ v ∷ [])
        ≡ ite (decv v w) true (contains decv w xs)
  contains_pushed v w xs = ground (arith, contains-append decv v w xs)

  pushed-IsBucket :
      (v : V) (xs : List V)
      → Unique decv xs
      → IsBucket (if contains decv v xs then xs else xs ++ v ∷ [])
  unfolding contains
  pushed-IsBucket v [] u = ((λ e. cc), (refl, tt))
  pushed-IsBucket v (x ∷ xs) u = elim (Bool-cases (contains decv v (x ∷ xs))) [
    | inl e ↦ rw (e, contains) ((λ e'. cc), u)
    | inr e ↦ rw (e, contains) ((λ e'. cc), Unique-append decv v (x ∷ xs) u e)
  ]

  -- After an insertion a value is in a bucket exactly if it was there, or is the value inserted
  -- under that key.
  pub contains-insert :
      (k j : K) (v w : V) (m : MultiMap K V)
      → contains decv w (get deck decv j (insert deck decv k v m))
        ≡ ite
            (deck k j)
            (ite (decv v w) true (contains decv w (get deck decv j m)))
            (contains decv w (get deck decv j m))
  unfolding insert get
  contains-insert k j v w m = elim (deck k j) [
    | yes p ↦ rw (lookup-insert deck k j, if_pos _ p, if_pos _ p, contains_pushed v w) (rw p refl)
    | no p ↦ rw (lookup-insert deck k j, if_neg _ p, if_neg _ p) refl
  ]

  -- An insertion keeps a map free of empty buckets and of duplicates.
  pub insert-IsValid :
      (k : K) (v : V) (m : MultiMap K V) → IsValid m → IsValid (insert deck decv k v m)
  unfolding insert
  insert-IsValid k v m h = record {
    distinct = insert-IsDistinct deck k _ m h.distinct;
    buckets =
        insert-AllValues deck IsBucket k _ m
          (pushed-IsBucket v (get deck decv k m) (bucket-Unique m k h)) h.buckets;
  }

  -- What `remove` leaves of a map: the bucket that was written back, or none.
  get_settled :
      (k j : K) (xs : List V) (m : MultiMap K V)
      → get deck decv j (settle deck decv k xs m) ≡ ite (deck k j) xs (get deck decv j m)
  unfolding get
  get_settled k j [] m = ground (arith, lookup-remove deck k j m)
  get_settled k j (x ∷ xs) m = ground (arith, lookup-insert deck k j (x ∷ xs) m)

  settled-IsValid :
      (k : K) (xs : List V) (m : MultiMap K V)
      → Unique decv xs
      → IsValid m
      → IsValid (settle deck decv k xs m)
  settled-IsValid k [] m u h = record {
    distinct = remove-IsDistinct deck k m h.distinct;
    buckets = remove-AllValues deck IsBucket k m h.buckets;
  }
  settled-IsValid k (x ∷ xs) m u h = record {
    distinct = insert-IsDistinct deck k (x ∷ xs) m h.distinct;
    buckets = insert-AllValues deck IsBucket k (x ∷ xs) m ((λ e. cc), u) h.buckets;
  }

  -- What is known of a removal: the map it leaves, the sets a reader sees, and its result.
  pub record Removed (k : K) (v : V) (m : MultiMap K V) (r : MultiMap K V × Option V) : Type ℓ where
    pub valid : IsValid r.0
    pub result : r.1 ≡ (if contains decv v (get deck decv k m) then some v else none)
    pub seen :
        (j : K) (w : V)
        → contains decv w (get deck decv j r.0)
          ≡ ite
              (deck k j)
              (ite (decv v w) false (contains decv w (get deck decv j m)))
              (contains decv w (get deck decv j m))
    pub swapped : Swapped decv v (get deck decv k m) (get deck decv k r.0)
    pub untouched : (j : K) → j ≢ k → get deck decv j r.0 ≡ get deck decv j m

  settled-Removed :
      (k : K) (v : V) (xs rest : List V) (m : MultiMap K V) (out : Option V)
      → IsValid m
      → Unique decv rest
      → get deck decv k m ≡ xs
      → out ≡ (if contains decv v xs then some v else none)
      → Swapped decv v xs rest
      → ((w : V) → contains decv w rest ≡ ite (decv v w) false (contains decv w xs))
      → Removed k v m (settle deck decv k rest m, out)
  settled-Removed k v xs rest m out h u e o s others = record {
    valid = settled-IsValid k rest m u h;
    result = rw e o;
    seen = λ j w. elim (deck k j) [
      | yes p ↦ rw (get_settled k j rest m, if_pos _ p, if_pos _ p, ← p, e) (others w)
      | no p ↦ rw (get_settled k j rest m, if_neg _ p, if_neg _ p) refl
    ];
    swapped = rw (get_settled k k rest m, if_pos (deck k k) refl rest (get deck decv k m), e) s;
    untouched = λ j differ.
        rw (get_settled k j rest m)
          (if_neg (deck k j) (λ e'. differ (sym e')) rest (get deck decv j m));
  }

  absent-Removed :
      (k : K) (v : V) (m : MultiMap K V)
      → IsValid m
      → get deck decv k m ≡ []
      → Removed k v m (m, none)
  unfolding contains
  absent-Removed k v m h e = record {
    valid = h;
    result = rw e refl;
    seen = λ j w. elim (deck k j) [
      | yes p ↦ rw (if_pos _ p, ← p, e) (ground arith)
      | no p ↦ rw (if_neg _ p) refl
    ];
    swapped = rw e (absent refl refl);
    untouched = λ j differ. refl;
  }

  get_found :
      (k : K) (m : MultiMap K V) (xs : List V) → lookup deck k m ≡ some xs → get deck decv k m ≡ xs
  unfolding get
  get_found k m xs e = rw e

  get_missing : (k : K) (m : MultiMap K V) → lookup deck k m ≡ none → get deck decv k m ≡ []
  unfolding get
  get_missing k m e = rw e

  -- On a map without empty buckets and duplicates, remove takes the value out of the bucket of
  -- its key, where the last value takes its place and the others keep theirs, leaves every other
  -- bucket as it was, in its order, returns the value exactly if it was there, and leaves such a
  -- map again.
  pub remove-Removed :
      (k : K) (v : V) (m : MultiMap K V) → IsValid m → Removed k v m (remove deck decv k v m)
  unfolding remove
  remove-Removed k v m h = elim (Option-cases (lookup deck k m)) [
    | inl e ↦ rw (e, remove) (absent-Removed k v m h (get_missing k m e))
    | inr (xs, e) ↦
        let bucket = lookup-AllValues deck IsBucket k m xs e h.buckets in
        elim (Option-cases (position decv v xs)) [
          | inl missing ↦
              let fresh = position-none decv v xs missing in
              rw (e, remove, missing)
                (settled-Removed k v xs xs m none h bucket.1 (get_found k m xs e) (rw fresh refl)
                  (absent fresh refl) (λ w. ground arith))
          | inr (i, found) ↦
              let (rest, removed, u, here, swapped, others) =
                position-Removes decv v xs i bucket.1 found in
              rw (e, remove, found, removed)
                (settled-Removed k v xs rest m (some v) h u (get_found k m xs e) (rw here refl)
                  swapped others)
        ]
  ]
