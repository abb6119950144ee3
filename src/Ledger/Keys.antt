-- ===== src/Ledger/Keys.antt =====
-- Rows with a key: uniqueness, and lookups in a table that grows at its end.
use ottie.Prelude.{
  ◌≡◌, refl, String, Bool, true, false, ◌||◌, Option, none, some, List, [], ◌∷◌, ◌++◌, arith,
  str_eq, eq_iff, any, if◌then◌else◌,
}

module _ {ℓ} {A : Type ℓ} where
  pub any-append : (p : A → Bool) (xs ys : List A) → any p (xs ++ ys) ≡ (any p xs || any p ys)
  any-append p [] ys = refl
  any-append p (x ∷ xs) ys = ground (arith, any-append p xs ys)

module _ {ℓ} {A : Type ℓ} (key : A → String) where
  abbrev pub has_key : String → List A → Bool
  has_key id = any (λ r. str_eq (key r) id)

  -- No two rows have the same key.
  abbrev pub UniqueKeys : List A → Type 0
  UniqueKeys [] = Unit
  UniqueKeys (r ∷ rs) = (has_key (key r) rs ≡ false) × UniqueKeys rs

  abbrev pub find_key : String → List A → Option A
  find_key id [] = none
  find_key id (r ∷ rs) = if str_eq (key r) id then some r else find_key id rs

  pub UniqueKeys-snoc :
      (rs : List A) (r : A)
      → UniqueKeys rs
      → has_key (key r) rs ≡ false
      → UniqueKeys (rs ++ (r ∷ []))
  UniqueKeys-snoc [] r u h = (refl, tt)
  UniqueKeys-snoc (x ∷ rs) r u h = (
    rw any-append (ground (arith, eq_iff (key x) (key r), eq_iff (key r) (key x), u.0)),
    UniqueKeys-snoc rs r u.1 (ground arith),
  )

  pub find_key-has : (id : String) (rs : List A) → has_key id rs ≡ false → find_key id rs ≡ none
  find_key-has id [] h = refl
  find_key-has id (x ∷ rs) h = ground (arith, find_key-has id rs)

  pub has_key-find : (id : String) (rs : List A) → find_key id rs ≡ none → has_key id rs ≡ false
  has_key-find id [] h = refl
  has_key-find id (x ∷ rs) h = ground (arith, has_key-find id rs)

  pub find_key-snoc_ne :
      (id : String) (rs : List A) (r : A)
      → str_eq (key r) id ≡ false
      → find_key id (rs ++ (r ∷ [])) ≡ find_key id rs
  find_key-snoc_ne id [] r h = ground arith
  find_key-snoc_ne id (x ∷ rs) r h = ground (arith, find_key-snoc_ne id rs r)

  pub find_key-snoc_self :
      (id : String) (rs : List A) (r : A)
      → str_eq (key r) id ≡ true
      → has_key id rs ≡ false
      → find_key id (rs ++ (r ∷ [])) ≡ some r
  find_key-snoc_self id [] r h k = ground arith
  find_key-snoc_self id (x ∷ rs) r h k = ground (arith, find_key-snoc_self id rs r)
