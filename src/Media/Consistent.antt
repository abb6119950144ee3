-- ===== src/Media/Consistent.antt =====
-- The three maps of the media store agree.
use ottie.Prelude.{
  ℕ, ◌≡◌, ◌≢◌, inl, inr, refl, sym, ◌∙◌, String, Bool, true, false, Option, none, some, List, [],
  ◌∷◌, arith, str_eq, eq_iff, any, Bool-cases,
}
use ottie.Prelude.Dict.{Dict, lookup, insert, lookup-insert, IsMap, insert-IsMap}
use ottie.Media.{MediaMeta, MediaStore, or_empty, new_file_media_store, store}

abbrev pub is_some : {A : Type 0} → Option A → Bool
is_some none = false
is_some (some x) = true

abbrev pub is_scope : String → Option String → Bool
is_scope scope none = false
is_scope scope (some t) = str_eq t scope

-- The reference stands in the scope's set.
abbrev pub in_scope : String → String → Dict (List String) → Bool
in_scope ref scope scopes = any (λ r. str_eq r ref) (or_empty (lookup scope scopes))

-- A reference has an entry exactly when it has a scope; a scope's set holds exactly the references that have
-- this scope, and is not empty.
pub record IsConsistent (s : MediaStore) : Type 0 where
  pub known : (ref : String) → is_some (lookup ref s.refs) ≡ is_some (lookup ref s.ref_to_scope)
  pub scoped :
      (scope ref : String)
      → in_scope ref scope s.scope_to_refs ≡ is_scope scope (lookup ref s.ref_to_scope)
  pub inhabited : (scope : String) → lookup scope s.scope_to_refs ≢ some []
  pub entries : IsMap s.refs

pub new-IsConsistent : IsConsistent new_file_media_store
unfolding new_file_media_store lookup IsMap
new-IsConsistent = record {
  known = λ ref. refl;
  scoped = λ scope ref. refl;
  inhabited = λ scope e. cc;
  entries = tt;
}

-- Storing under a reference that is not in use keeps the maps in agreement, whether the file exists or not.
pub store-IsConsistent :
    (exists : Bool) (ref : String) (now : ℕ) (path : String) (meta : MediaMeta) (scope : String)
    (s : MediaStore)
    → lookup ref s.refs ≡ none
    → IsConsistent s
    → IsConsistent (store exists ref now path meta scope s).1
unfolding store
store-IsConsistent false ref now path meta scope s free h = h
store-IsConsistent true ref now path meta scope s free h = record {
  known = λ r.
      rw
        (
          lookup-insert ref r (record { path = path; meta = meta; stored_at = now }) s.refs,
          lookup-insert ref r scope s.ref_to_scope,
        )
        (ground (arith, h.known r));
  scoped = scoped';
  inhabited = inhabited';
  entries = insert-IsMap ref _ s.refs h.entries;
}
  where
    free_scope : (r : String) → str_eq r ref ≡ true → lookup r s.ref_to_scope ≡ none
    free_scope r e =
        let same : r ≡ ref = ground (arith, eq_iff r ref) in ground (arith, h.known r, free, same)

    scoped' :
        (t r : String)
        → in_scope r t
            (insert scope (ref ∷ or_empty (lookup scope s.scope_to_refs)) s.scope_to_refs)
          ≡ is_scope t (lookup r (insert ref scope s.ref_to_scope))
    scoped' t r =
        rw
          (
            lookup-insert scope t (ref ∷ or_empty (lookup scope s.scope_to_refs)) s.scope_to_refs,
            lookup-insert ref r scope s.ref_to_scope,
          )
          (elim (Bool-cases (str_eq t scope)) [
            | inl y ↦
                let same : t ≡ scope = ground (arith, eq_iff t scope) in
                rw y (elim (Bool-cases (str_eq r ref)) [
                  | inl z ↦
                      rw z (ground (arith, eq_iff ref r, eq_iff r ref, eq_iff scope t, sym same))
                  | inr z ↦
                      rw z (rw same (ground (arith, eq_iff ref r, eq_iff r ref, h.scoped scope r)))
                ])
            | inr y ↦ rw y (elim (Bool-cases (str_eq r ref)) [
              | inl z ↦ rw z (
                  h.scoped t r
                  ∙ rw (free_scope r z) (ground (arith, eq_iff scope t, eq_iff t scope)))
              | inr z ↦ rw z (h.scoped t r)
            ])
          ])

    inhabited' :
        (t : String)
        → lookup t (insert scope (ref ∷ or_empty (lookup scope s.scope_to_refs)) s.scope_to_refs)
          ≢ some []
    inhabited' t e =
        let found =
          sym
            (lookup-insert scope t (ref ∷ or_empty (lookup scope s.scope_to_refs)) s.scope_to_refs)
          ∙ e in
        elim (Bool-cases (str_eq t scope)) [
          | inl y ↦ ground (arith, found)
          | inr y ↦ h.inhabited t (ground (arith, found))
        ]
