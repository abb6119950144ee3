-- ===== src/Infra/Debounce/Changes.antt =====
-- Lookups after a timer is disarmed, a started flush is taken, and an entry is inserted or deleted.
use ottie.Prelude.{
  ℕ, ◌≡◌, ◌⊎◌, inl, inr, refl, String, false, none, some, List, [], ◌∷◌, arith, str_eq, eq_iff, any,
  ◌==◌, if◌then◌else◌, Bool-cases,
}
use ottie.Prelude.Dict.{Dict, lookup, insert, delete, lookup-insert, lookup-delete}
use ottie.Infra.Debounce.{Timers, timer_key, disarm, take_one, Entry}

pub timer_key-disarm :
    (i j : ℕ) (ts : Timers) → timer_key i (disarm j ts) ≡ (if i == j then none else timer_key i ts)
unfolding timer_key disarm
timer_key-disarm i j [] = ground arith
timer_key-disarm i j (t ∷ ts) = ground (arith, timer_key-disarm i j ts)

pub any-take_one :
    (key other : String) (ks : List String)
    → str_eq key other ≡ false
    → any (λ k. str_eq k other) (take_one key ks) ≡ any (λ k. str_eq k other) ks
unfolding take_one
any-take_one key other [] ne = refl
any-take_one key other (k ∷ ks) ne =
    ground (arith, any-take_one key other ks, eq_iff k key, eq_iff k other, eq_iff key other, ne)

module _ {M : Type 0} where
  -- What a lookup after an insertion is: the new entry, or an old one of another key.
  pub inserted :
      (key other : String) (x e : Entry M) (entries : Dict (Entry M))
      → lookup other (insert key x entries) ≡ some e
      → ((other ≡ key) × (e ≡ x)) ⊎ ((str_eq other key ≡ false) × (lookup other entries ≡ some e))
  inserted key other x e entries h = elim (Bool-cases (str_eq other key)) [
    | inl y ↦ inl (ground (arith, eq_iff other key), cc (h, lookup-insert key other x entries, y))
    | inr y ↦ inr (y, ground (arith, lookup-insert key other x entries, h))
  ]

  pub deleted :
      (key other : String) (e : Entry M) (entries : Dict (Entry M))
      → lookup other (delete key entries) ≡ some e
      → (str_eq other key ≡ false) × (lookup other entries ≡ some e)
  deleted key other e entries h = elim (Bool-cases (str_eq other key)) [
    | inl y ↦ absurd (ground (arith, lookup-delete key other entries, h))
    | inr y ↦ (y, ground (arith, lookup-delete key other entries, h))
  ]
