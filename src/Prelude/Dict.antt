-- ===== src/Prelude/Dict.antt =====
-- A Go map with string keys, as an association list: `lookup` is `m[k]`, `insert` is `m[k] = v`,
-- `delete` is `delete(m, k)`. The list's order stands for an order in which Go may range over it.
use Prim.Native.String.{String}
use mathlib.Core.Path.{◌≡◌, refl}
use mathlib.Core.Logic.{◌≢◌, inl, inr}
use mathlib.Core.Option.{Option, none, some}
use mathlib.Core.List.{List, [], ◌∷◌}
use native.Mathlib.Omega.{arith}
use text.Mathlib.Text.{◌==◌}
use text.Mathlib.TextEquality.{eq_iff}
use text.Mathlib.TextPositions.{eq_refl}
use ottie.Prelude.Tests.{if◌then◌else◌, Bool-cases}

abbrev pub Dict {ℓ} : Type ℓ → Type ℓ
Dict V = List (String × V)

module _ {ℓ} {V : Type ℓ} where
  unfoldable pub lookup : String → Dict V → Option V
  lookup key [] = none
  lookup key (pair ∷ rest) = if key == pair.0 then some pair.1 else lookup key rest

  -- The old pair's place is kept.
  unfoldable pub insert : String → V → Dict V → Dict V
  insert key x [] = (key, x) ∷ []
  insert key x (pair ∷ rest) =
      let below = insert key x rest in if key == pair.0 then (key, x) ∷ rest else pair ∷ below

  unfoldable pub delete : String → Dict V → Dict V
  delete key [] = []
  delete key (pair ∷ rest) =
      let below = delete key rest in if key == pair.0 then below else pair ∷ below

  pub lookup-insert_self :
      (key : String) (x : V) (d : Dict V) → lookup key (insert key x d) ≡ some x
  unfolding lookup insert
  lookup-insert_self key x [] = ground (arith, eq_refl key)
  lookup-insert_self key x (pair ∷ rest) =
      ground (arith, eq_refl key, lookup-insert_self key x rest)

  pub lookup-insert_ne :
      (key other : String) (x : V) (d : Dict V)
      → key ≢ other
      → lookup other (insert key x d) ≡ lookup other d
  unfolding lookup insert
  lookup-insert_ne key other x [] ne = ground (arith, eq_iff other key)
  lookup-insert_ne key other x (pair ∷ rest) ne = ground (
    arith,
    eq_iff other key,
    eq_iff key pair.0,
    eq_iff other pair.0,
    lookup-insert_ne key other x rest ne,
  )

  -- What a lookup finds after an insertion: the new value, or what it found before.
  pub lookup-insert :
      (key other : String) (x : V) (d : Dict V)
      → lookup other (insert key x d) ≡ (if other == key then some x else lookup other d)
  lookup-insert key other x d = elim (Bool-cases (other == key)) [
    | inl e ↦
        let same : other ≡ key = ground (arith, eq_iff other key) in
        rw e (rw same (lookup-insert_self key x d))
    | inr e ↦ rw e (lookup-insert_ne key other x d (λ h. ground (arith, eq_iff other key)))
  ]

  -- What a lookup finds after a deletion: nothing, or what it found before.
  pub lookup-delete :
      (key other : String) (d : Dict V)
      → lookup other (delete key d) ≡ (if other == key then none else lookup other d)
  unfolding lookup delete
  lookup-delete key other [] = ground arith
  lookup-delete key other (pair ∷ rest) = ground (
    arith,
    eq_iff other key,
    eq_iff key pair.0,
    eq_iff other pair.0,
    lookup-delete key other rest,
  )

  -- No two pairs have one key.
  unfoldable pub IsMap : Dict V → Type ℓ
  IsMap [] = Unit
  IsMap (pair ∷ rest) = (lookup pair.0 rest ≡ none) × IsMap rest

  pub insert-IsMap : (key : String) (x : V) (d : Dict V) → IsMap d → IsMap (insert key x d)
  unfolding insert IsMap lookup
  insert-IsMap key x [] u = (refl, tt)
  insert-IsMap key x (pair ∷ rest) u = elim (Bool-cases (key == pair.0)) [
    | inl e ↦
        let same : pair.0 ≡ key = ground (arith, eq_iff key pair.0) in
        rw e (ground (arith, same, u.0), u.1)
    | inr e ↦ rw e (
      rw (lookup-insert key pair.0 x rest)
          (ground (arith, eq_iff pair.0 key, eq_iff key pair.0, u.0)),
      insert-IsMap key x rest u.1,
    )
  ]

  pub delete-IsMap : (key : String) (d : Dict V) → IsMap d → IsMap (delete key d)
  unfolding delete IsMap
  delete-IsMap key [] u = tt
  delete-IsMap key (pair ∷ rest) u = elim (Bool-cases (key == pair.0)) [
    | inl e ↦ rw e (delete-IsMap key rest u.1)
    | inr e ↦
        rw e (rw (lookup-delete key pair.0 rest) (ground (arith, u.0)), delete-IsMap key rest u.1)
  ]
