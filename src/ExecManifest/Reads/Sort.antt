-- ===== src/ExecManifest/Reads/Sort.antt =====
-- ORDER BY a number: insertion sort of rows, stable, and what it keeps.
use ottie.Prelude.{
  ℕ, ◌<◌, ◌≤◌, ◌≡◌, ◌≢◌, inl, inr, refl, ◌∙◌, ap, Bool, ◌||◌, ◌&&◌, List, [], ◌∷◌, leb,
  if◌then◌else◌, any, All, keep_if, arith, Bool-cases,
}

module _ {A : Type 0} (key : A → ℕ) where
  unfoldable pub place : A → List A → List A
  place x [] = x ∷ []
  place x (y ∷ ys) = let below = place x ys in if leb (key x) (key y) then x ∷ y ∷ ys else y ∷ below

  unfoldable pub sort_by : List A → List A
  unfolding place
  sort_by [] = []
  sort_by (x ∷ xs) = place x (sort_by xs)

  -- Every key is below those after it.
  abbrev pub Ascending : List A → Type 0
  Ascending [] = Unit
  Ascending (x ∷ xs) = All (λ y. key x < key y) xs × Ascending xs

  -- No two keys are equal.
  abbrev pub Distinct : List A → Type 0
  Distinct [] = Unit
  Distinct (x ∷ xs) = All (λ y. key x ≢ key y) xs × Distinct xs

  any-place : (p : A → Bool) (x : A) (ys : List A) → any p (place x ys) ≡ (p x || any p ys)
  unfolding place
  any-place p x [] = refl
  any-place p x (y ∷ ys) = ground (arith, any-place p x ys)

  -- Sorting keeps the members.
  pub any-sort_by : (p : A → Bool) (xs : List A) → any p (sort_by xs) ≡ any p xs
  unfolding sort_by
  any-sort_by p [] = refl
  any-sort_by p (x ∷ xs) = any-place p x (sort_by xs) ∙ ap (λ b. p x || b) (any-sort_by p xs)

  All-place : (P : A → Type 0) (x : A) (ys : List A) → P x → All P ys → All P (place x ys)
  unfolding place
  All-place P x [] h hs = (h, tt)
  All-place P x (y ∷ ys) h hs = elim (Bool-cases (leb (key x) (key y))) [
    | inl e ↦ rw e (h, hs)
    | inr e ↦ rw e (hs.0, All-place P x ys h hs.1)
  ]

  pub All-sort_by : (P : A → Type 0) (xs : List A) → All P xs → All P (sort_by xs)
  unfolding sort_by
  All-sort_by P [] h = tt
  All-sort_by P (x ∷ xs) h = All-place P x (sort_by xs) h.0 (All-sort_by P xs h.1)

  All-above :
      (x y : A) (ys : List A)
      → key x ≤ key y
      → All (λ z. key y < key z) ys
      → All (λ z. key x < key z) ys
  All-above x y [] le h = tt
  All-above x y (z ∷ ys) le h = (omega (arith, le, h.0), All-above x y ys le h.1)

  place-Ascending :
      (x : A) (ys : List A) → All (λ y. key x ≢ key y) ys → Ascending ys → Ascending (place x ys)
  unfolding place
  place-Ascending x [] ne h = (tt, tt)
  place-Ascending x (y ∷ ys) ne h = elim (Bool-cases (leb (key x) (key y))) [
    | inl e ↦
        let lt : key x < key y = ground (arith, ne.0) in
        rw e ((lt, All-above x y ys (omega (arith, lt)) h.0), h)
    | inr e ↦ rw e (All-place _ x ys (ground arith) h.0, place-Ascending x ys ne.1 h.1)
  ]

  -- Rows with distinct keys are sorted strictly.
  pub sort_by-Ascending : (xs : List A) → Distinct xs → Ascending (sort_by xs)
  unfolding sort_by
  sort_by-Ascending [] h = tt
  sort_by-Ascending (x ∷ xs) h =
      place-Ascending x (sort_by xs) (All-sort_by _ xs h.0) (sort_by-Ascending xs h.1)

module _ {A : Type 0} where
  pub any-keep_if : (p q : A → Bool) (xs : List A) → any p (keep_if q xs) ≡ any (λ x. q x && p x) xs
  any-keep_if p q [] = refl
  any-keep_if p q (x ∷ xs) = ground (arith, any-keep_if p q xs)

  pub All-keep_if : (P : A → Type 0) (q : A → Bool) (xs : List A) → All P xs → All P (keep_if q xs)
  All-keep_if P q [] h = tt
  All-keep_if P q (x ∷ xs) h = elim (Bool-cases (q x)) [
    | inl e ↦ rw e (h.0, All-keep_if P q xs h.1)
    | inr e ↦ rw e (All-keep_if P q xs h.1)
  ]
