-- ===== src/Media/Release.antt =====
-- ReleaseAll takes a scope's references out of every map, and nothing else.
use ottie.Prelude.{
  ◌≡◌, ◌≢◌, inl, inr, refl, sym, ap, ◌∙◌, String, true, false, Option, none, some, List, [], ◌∷◌,
  arith, str_eq, eq_iff, eq_refl, any, if◌then◌else◌, Bool-cases,
}
use ottie.Prelude.Dict.{Dict, lookup, delete, lookup-delete, IsMap, delete-IsMap}
use ottie.Media.{
  MediaEntry, MediaStore, or_empty, entry_path, add_path, resolve, release_refs, release_scope,
  release_all,
}
use ottie.Media.Consistent.{IsConsistent, is_scope}

-- The references are gone from both maps, and the others stand.
release_refs_entries :
    (set : List String) (refs : Dict MediaEntry) (rts : Dict String) (r : String)
    → lookup r (release_refs set refs rts).1
      ≡ (if any (λ x. str_eq x r) set then none else lookup r refs)
unfolding release_refs
release_refs_entries [] refs rts r = refl
release_refs_entries (x ∷ set) refs rts r =
    release_refs_entries set (delete x refs) (delete x rts) r
    ∙ rw (lookup-delete x r refs) (ground (arith, eq_iff x r, eq_iff r x))

release_refs_scopes :
    (set : List String) (refs : Dict MediaEntry) (rts : Dict String) (r : String)
    → lookup r (release_refs set refs rts).2
      ≡ (if any (λ x. str_eq x r) set then none else lookup r rts)
unfolding release_refs
release_refs_scopes [] refs rts r = refl
release_refs_scopes (x ∷ set) refs rts r =
    release_refs_scopes set (delete x refs) (delete x rts) r
    ∙ rw (lookup-delete x r rts) (ground (arith, eq_iff x r, eq_iff r x))

release_refs-IsMap :
    (set : List String) (refs : Dict MediaEntry) (rts : Dict String)
    → IsMap refs
    → IsMap (release_refs set refs rts).1
unfolding release_refs
release_refs-IsMap [] refs rts u = u
release_refs-IsMap (x ∷ set) refs rts u =
    release_refs-IsMap set (delete x refs) (delete x rts) (delete-IsMap x refs u)

release_refs_path :
    (set : List String) (refs : Dict MediaEntry) (rts : Dict String) (r p : String)
    → any (λ x. str_eq x r) set ≡ true
    → entry_path (lookup r refs) ≡ some p
    → any (λ q. str_eq q p) (release_refs set refs rts).0 ≡ true
unfolding release_refs
release_refs_path [] refs rts r p h e = cc
release_refs_path (x ∷ set) refs rts r p h e = elim (Bool-cases (str_eq x r)) [
  | inl y ↦ let same : x ≡ r = ground (arith, eq_iff x r) in rw same (first (lookup r refs) e)
  | inr n ↦
      let below =
        release_refs_path set (delete x refs) (delete x rts) r p (ground arith)
          (rw (lookup-delete x r refs) (ground (arith, eq_iff x r, eq_iff r x))) in
      later (lookup x refs) below
]
  where
    first :
        (o : Option MediaEntry)
        → entry_path o ≡ some p
        → any (λ q. str_eq q p) (add_path o (release_refs set (delete r refs) (delete r rts)).0)
          ≡ true
    first none e = cc
    first (some m) e = ground (arith, eq_iff m.path p)

    later :
        (o : Option MediaEntry)
        → any (λ q. str_eq q p) (release_refs set (delete x refs) (delete x rts)).0 ≡ true
        → any (λ q. str_eq q p) (add_path o (release_refs set (delete x refs) (delete x rts)).0)
          ≡ true
    later none h = h
    later (some m) h = ground (arith, h)

abbrev scope_of : String → MediaStore → Option String
scope_of ref s = lookup ref s.ref_to_scope

-- The set of a scope, as the other map has it.
set_scoped :
    (scope r : String) (set : List String) (s : MediaStore)
    → IsConsistent s
    → lookup scope s.scope_to_refs ≡ some set
    → any (λ x. str_eq x r) set ≡ is_scope scope (lookup r s.ref_to_scope)
set_scoped scope r set s h e =
    sym (ap (λ o. any (λ x. str_eq x r) (or_empty o)) e) ∙ h.scoped scope r

released :
    (scope : String) (o : Option (List String)) (s : MediaStore)
    → lookup scope s.scope_to_refs ≡ o
    → IsConsistent s
    → IsConsistent (release_scope scope o s).1
      × ((r : String)
          → lookup r (release_scope scope o s).1.refs
            ≡ (if is_scope scope (lookup r s.ref_to_scope) then none else lookup r s.refs))
unfolding release_scope
released scope none s e h = (h, λ r. let out = h.scoped scope r in ground (arith, out, e))
released scope (some set) s e h = (
  record {
    known = λ r.
        rw
          (
            release_refs_entries set s.refs s.ref_to_scope r,
            release_refs_scopes set s.refs s.ref_to_scope r,
          )
          (ground (arith, h.known r));
    scoped = λ t r.
        rw (release_refs_scopes set s.refs s.ref_to_scope r, lookup-delete scope t s.scope_to_refs)
          (scoped' t r);
    inhabited =
        λ t f. h.inhabited t (ground (arith, sym (lookup-delete scope t s.scope_to_refs) ∙ f));
    entries = release_refs-IsMap set s.refs s.ref_to_scope h.entries;
  },
  λ r. release_refs_entries set s.refs s.ref_to_scope r ∙ rw (set_scoped scope r set s h e) refl,
)
  where
    scoped' :
        (t r : String)
        → any
            (λ x. str_eq x r)
            (or_empty (if str_eq t scope then none else lookup t s.scope_to_refs))
          ≡ is_scope t (if any (λ x. str_eq x r) set then none else lookup r s.ref_to_scope)
    scoped' t r = rw (set_scoped scope r set s h e) (elim (Bool-cases (str_eq t scope)) [
      | inl y ↦
          let same : t ≡ scope = ground (arith, eq_iff t scope) in
          rw same (cleared (lookup r s.ref_to_scope))
      | inr y ↦ rw y (h.scoped t r ∙ kept y (lookup r s.ref_to_scope))
    ])
      where
        cleared :
            (o : Option String)
            → any
                (λ x. str_eq x r)
                (or_empty (if str_eq scope scope then none else lookup scope s.scope_to_refs))
              ≡ is_scope scope (if is_scope scope o then none else o)
        cleared none = ground (arith, eq_refl scope)
        cleared (some u) = ground (arith, eq_refl scope)

        kept :
            str_eq t scope ≡ false
            → (o : Option String) → is_scope t o ≡ is_scope t (if is_scope scope o then none else o)
        kept ne none = refl
        kept ne (some u) = ground (arith, ne, eq_iff u t, eq_iff u scope, eq_iff t scope)

-- ReleaseAll keeps the maps in agreement; afterwards a reference of the scope resolves to nothing, and any
-- other reference to what it did.
pub release_all-IsConsistent :
    (scope : String) (s : MediaStore)
    → IsConsistent s
    → IsConsistent (release_all scope s).1
      × ((ref : String)
          → resolve ref (release_all scope s).1
            ≡ (if is_scope scope (lookup ref s.ref_to_scope) then none else resolve ref s))
unfolding release_all resolve
release_all-IsConsistent scope s h =
    let (ok, entries) = released scope (lookup scope s.scope_to_refs) s refl h in
    (ok, λ ref. ap entry_path (entries ref) ∙ ground arith)

-- Where two references of different scopes have one path, releasing the first scope removes the file at that
-- path, and the second reference still resolves to it.
pub release_all-shared :
    (s : MediaStore) (scope other ref held path : String)
    → IsConsistent s
    → lookup ref s.ref_to_scope ≡ some scope
    → lookup held s.ref_to_scope ≡ some other
    → scope ≢ other
    → resolve ref s ≡ some path
    → resolve held s ≡ some path
    → (any (λ p. str_eq p path) (release_all scope s).0 ≡ true)
      × (resolve held (release_all scope s).1 ≡ some path)
unfolding release_all release_scope resolve
release_all-shared s scope other ref held path h own theirs ne first second = (
  removed (lookup scope s.scope_to_refs) refl,
  (release_all-IsConsistent scope s h).1 held
      ∙ rw theirs (ground (arith, eq_iff other scope, second)),
)
  where
    removed :
        (o : Option (List String))
        → lookup scope s.scope_to_refs ≡ o
        → any (λ p. str_eq p path) (release_scope scope o s).0 ≡ true
    removed none e =
        let here = h.scoped scope ref in absurd (ground (arith, here, e, own, eq_refl scope))
    removed (some set) e =
        release_refs_path set s.refs s.ref_to_scope ref path
          (set_scoped scope ref set s h e ∙ rw own (ground (arith, eq_refl scope))) first
