-- ===== src/Media/Expiry.antt =====
-- CleanExpired takes exactly the entries that are older than the limit out of every map.
use ottie.Prelude.{
  ℕ, ◌≡◌, ◌≢◌, ◌⊎◌, inl, inr, refl, sym, ap, ◌∙◌, String, Bool, true, false, not, ◌&&◌, ◌||◌,
  Option, none, some, List, [], ◌∷◌, arith, str_eq, eq_iff, eq_refl, any, keep_if, ◌==◌, length,
  if◌then◌else◌, Bool-cases,
}
use ottie.Prelude.Dict.{Dict, lookup, lookup-insert, lookup-delete, IsMap, delete-IsMap}
use ottie.Media.{
  MediaEntry, MediaStore, or_empty, entry_path, resolve, leave, leave_scope, expire, is_expired,
  expire_each, clean_expired,
}
use ottie.Media.Consistent.{IsConsistent, is_scope, in_scope}

without :
    (ref r : String) (set : List String)
    → any (λ x. str_eq x r) (keep_if (λ x. not (str_eq x ref)) set)
      ≡ (if str_eq r ref then false else any (λ x. str_eq x r) set)
without ref r [] = ground arith
without ref r (x ∷ set) = ground (arith, without ref r set, eq_iff x ref, eq_iff x r, eq_iff r ref)

empty : (xs : List String) → length xs == 0 ≡ true → xs ≡ []
empty [] h = refl
empty (x ∷ xs) h = ground arith

-- The set of a scope without one reference.
left_set :
    (ref scope t r : String) (set : List String) (scopes : Dict (List String))
    → in_scope r t (leave_scope ref scope (some set) scopes) ≡ (
        if str_eq t scope
        then (if str_eq r ref then false else any (λ x. str_eq x r) set)
        else in_scope r t scopes)
unfolding leave_scope
left_set ref scope t r set scopes = elim (Bool-cases (length left == 0)) [
  | inl e ↦
      let none_left = ap (any (λ x. str_eq x r)) (empty left e) in
      rw e (rw (lookup-delete scope t scopes) (ground (arith, without ref r set, none_left)))
  | inr e ↦ rw e (rw (lookup-insert scope t left scopes) (ground (arith, without ref r set)))
]
  where
    left : List String
    left = keep_if (λ x. not (str_eq x ref)) set

left_inhabited :
    (ref scope t : String) (set : List String) (scopes : Dict (List String))
    → lookup t scopes ≢ some []
    → lookup t (leave_scope ref scope (some set) scopes) ≢ some []
unfolding leave_scope
left_inhabited ref scope t set scopes h = elim (Bool-cases (length left == 0)) [
  | inl e ↦ rw e (λ f. h (ground (arith, lookup-delete scope t scopes, f)))
  | inr e ↦ rw e (λ f. kept e (sym (lookup-insert scope t left scopes) ∙ f))
]
  where
    left : List String
    left = keep_if (λ x. not (str_eq x ref)) set

    kept :
        length left == 0 ≡ false → (if str_eq t scope then some left else lookup t scopes) ≢ some []
    kept e f = elim (Bool-cases (str_eq t scope)) [
      | inl y ↦
          let gone : left ≡ [] = ground (arith, f) in
          let long = ap length gone in ground (arith, long)
      | inr y ↦ h (ground (arith, f))
    ]

expire_scoped :
    (ref t r : String) (s : MediaStore) (o : Option String)
    → IsConsistent s
    → lookup ref s.ref_to_scope ≡ o
    → in_scope r t (leave ref o s.scope_to_refs)
      ≡ is_scope t (if str_eq r ref then none else lookup r s.ref_to_scope)
unfolding leave
expire_scoped ref t r s none h e = elim (Bool-cases (str_eq r ref)) [
  | inl y ↦
      let same : r ≡ ref = ground (arith, eq_iff r ref) in
      rw y (h.scoped t r ∙ rw (ap (λ x. lookup x s.ref_to_scope) same ∙ e) refl)
  | inr y ↦ rw y (h.scoped t r)
]
expire_scoped ref t r s (some scope) h e = by_set (lookup scope s.scope_to_refs) refl
  where
    by_set :
        (set : Option (List String))
        → lookup scope s.scope_to_refs ≡ set
        → in_scope r t (leave_scope ref scope set s.scope_to_refs)
          ≡ is_scope t (if str_eq r ref then none else lookup r s.ref_to_scope)
    by_set none f =
        let here = h.scoped scope ref in absurd (ground (arith, here, f, e, eq_refl scope))
    by_set (some set) f =
        left_set ref scope t r set s.scope_to_refs ∙ by_names (Bool-cases (str_eq t scope))
      where
        mine : any (λ x. str_eq x r) set ≡ is_scope scope (lookup r s.ref_to_scope)
        mine = sym (ap (λ o. any (λ x. str_eq x r) (or_empty o)) f) ∙ h.scoped scope r

        by_names :
            (str_eq t scope ≡ true) ⊎ (str_eq t scope ≡ false)
            → (if str_eq t scope
                then (if str_eq r ref then false else any (λ x. str_eq x r) set)
                else in_scope r t s.scope_to_refs)
              ≡ is_scope t (if str_eq r ref then none else lookup r s.ref_to_scope)
        by_names (inl y) =
            let same : t ≡ scope = ground (arith, eq_iff t scope) in
            rw y
              (rw same (elim (Bool-cases (str_eq r ref)) [ inl z ↦ rw z refl | inr z ↦ rw z mine ]))
        by_names (inr y) = rw y (
            h.scoped t r ∙ elim (Bool-cases (str_eq r ref)) [
              | inl z ↦
                  let same : r ≡ ref = ground (arith, eq_iff r ref) in
                  rw z (
                    rw (ap (λ x. lookup x s.ref_to_scope) same ∙ e)
                      (ground (arith, eq_iff scope t, eq_iff t scope, y)))
              | inr z ↦ rw z refl
            ])

expire_inhabited :
    (ref t : String) (s : MediaStore) (o : Option String)
    → IsConsistent s
    → lookup t (leave ref o s.scope_to_refs) ≢ some []
unfolding leave
expire_inhabited ref t s none h = h.inhabited t
expire_inhabited ref t s (some scope) h = by_set (lookup scope s.scope_to_refs)
  where
    by_set :
        (set : Option (List String))
        → lookup t (leave_scope ref scope set s.scope_to_refs) ≢ some []
    by_set none = h.inhabited t
    by_set (some set) = left_inhabited ref scope t set s.scope_to_refs (h.inhabited t)

expire-IsConsistent : (ref : String) (s : MediaStore) → IsConsistent s → IsConsistent (expire ref s)
unfolding expire
expire-IsConsistent ref s h = record {
  known = λ r.
      rw (lookup-delete ref r s.refs, lookup-delete ref r s.ref_to_scope)
        (ground (arith, h.known r));
  scoped = λ t r.
      rw (lookup-delete ref r s.ref_to_scope)
        (expire_scoped ref t r s (lookup ref s.ref_to_scope) h refl);
  inhabited = λ t. expire_inhabited ref t s (lookup ref s.ref_to_scope) h;
  entries = delete-IsMap ref s.refs h.entries;
}

expire_if-IsConsistent :
    (b : Bool) (ref : String) (s : MediaStore)
    → IsConsistent s
    → IsConsistent (if b then expire ref s else s)
expire_if-IsConsistent true ref s h = expire-IsConsistent ref s h
expire_if-IsConsistent false ref s h = h

expire_if_entries :
    (b : Bool) (ref r : String) (s : MediaStore)
    → lookup r (if b then expire ref s else s).refs
      ≡ (if str_eq ref r && b then none else lookup r s.refs)
unfolding expire
expire_if_entries true ref r s =
    lookup-delete ref r s.refs ∙ ground (arith, eq_iff ref r, eq_iff r ref)
expire_if_entries false ref r s = ground arith

-- The loop keeps the maps in agreement.
expire_each-IsConsistent :
    (max_age now : ℕ) (pairs : Dict MediaEntry) (s : MediaStore)
    → IsConsistent s
    → IsConsistent (expire_each max_age now pairs s).1
unfolding expire_each
expire_each-IsConsistent max_age now [] s h = h
expire_each-IsConsistent max_age now (p ∷ rest) s h =
    expire_each-IsConsistent max_age now rest _
      (expire_if-IsConsistent (is_expired max_age now p.1) p.0 s h)

expire_each_entries :
    (max_age now : ℕ) (pairs : Dict MediaEntry) (s : MediaStore) (r : String)
    → lookup r (expire_each max_age now pairs s).1.refs ≡ (
        if any (λ (p : String × MediaEntry). str_eq p.0 r && is_expired max_age now p.1) pairs
        then none
        else lookup r s.refs)
unfolding expire_each
expire_each_entries max_age now [] s r = refl
expire_each_entries max_age now (p ∷ rest) s r =
    expire_each_entries max_age now rest (if is_expired max_age now p.1 then expire p.0 s else s) r
    ∙ rw (expire_if_entries (is_expired max_age now p.1) p.0 r s) (
        by_tests
          (any (λ (q : String × MediaEntry). str_eq q.0 r && is_expired max_age now q.1) rest)
          (str_eq p.0 r && is_expired max_age now p.1))
  where
    by_tests :
        (b c : Bool)
        → (if b then none else if c then none else lookup r s.refs)
          ≡ (if c || b then none else lookup r s.refs)
    by_tests true true = refl
    by_tests true false = refl
    by_tests false true = refl
    by_tests false false = refl

abbrev pub is_old : ℕ → ℕ → Option MediaEntry → Bool
is_old max_age now none = false
is_old max_age now (some e) = is_expired max_age now e

-- In a map without double keys, some pair of a key passes a test exactly when its value does.
any-lookup :
    (max_age now : ℕ) (r : String) (d : Dict MediaEntry)
    → IsMap d
    → any (λ (p : String × MediaEntry). str_eq p.0 r && is_expired max_age now p.1) d
      ≡ is_old max_age now (lookup r d)
unfolding lookup IsMap
any-lookup max_age now r [] u = refl
any-lookup max_age now r (p ∷ d) u = elim (Bool-cases (str_eq p.0 r)) [
  | inl y ↦
      let same : p.0 ≡ r = ground (arith, eq_iff p.0 r) in
      let gone =
        any-lookup max_age now r d u.1
        ∙ ap (is_old max_age now) (ap (λ x. lookup x d) (sym same) ∙ u.0) in
      rw y (ground (arith, gone, eq_iff r p.0, same))
  | inr y ↦ rw y (any-lookup max_age now r d u.1 ∙ ground (arith, eq_iff p.0 r, eq_iff r p.0))
]

cleaned :
    (max_age now : ℕ) (s : MediaStore) (off : Bool)
    → IsConsistent s
    → max_age == 0 ≡ off
    → IsConsistent (clean_expired max_age now s).1
      × ((ref : String)
          → resolve ref (clean_expired max_age now s).1
            ≡ (if not off && is_old max_age now (lookup ref s.refs) then none else resolve ref s))
unfolding clean_expired resolve
cleaned max_age now s true h e = rw e (h, λ ref. refl)
cleaned max_age now s false h e = rw e (
  expire_each-IsConsistent max_age now s.refs s h,
  λ ref.
      ap entry_path (expire_each_entries max_age now s.refs s ref)
      ∙ rw (any-lookup max_age now ref s.refs h.entries) ground arith,
)

-- CleanExpired keeps the maps in agreement; with a positive limit, a reference whose entry was stored longer ago
-- than the limit resolves to nothing afterwards, and every other to what it did; without one nothing changes.
pub clean_expired-IsConsistent :
    (max_age now : ℕ) (s : MediaStore)
    → IsConsistent s
    → IsConsistent (clean_expired max_age now s).1
      × ((ref : String)
          → resolve ref (clean_expired max_age now s).1 ≡ (
              if not (max_age == 0) && is_old max_age now (lookup ref s.refs)
              then none
              else resolve ref s))
clean_expired-IsConsistent max_age now s h = cleaned max_age now s (max_age == 0) h refl
