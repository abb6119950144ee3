-- ===== src/Infra/Dedupe/Seen.antt =====
-- What the answers of the cache mean.
use ottie.Prelude.{
  ℕ, zero, suc, ◌+◌, ◌<◌, ◌≡◌, refl, ap, String, Bool, true, false, some, List, [], ◌∷◌, ◌++◌,
  arith, ltb, if◌then◌else◌, length, Bool-cases, inl, inr, keep_if, str_eq, eq_iff, Option-cases,
  All,
}
use ottie.Prelude.Dict.{Dict, lookup, insert, delete}
use ottie.Infra.Dedupe.{
  DedupeCache, new_dedupe_cache, drop_oldest, evict, prune_entries, check, check_found,
  is_duplicate, run_checks,
}

-- A call is among those answered with false.
abbrev pub Among : List (String × ℕ) → String × ℕ → Type 0
Among fresh call =
    (after : List (String × ℕ)) × (before : List (String × ℕ)) × (fresh ≡ after ++ (call ∷ before))

Among-later :
    (fresh : List (String × ℕ)) (x call : String × ℕ) → Among fresh call → Among (x ∷ fresh) call
Among-later fresh x call (after, before, e) = (x ∷ after, before, ap (λ l. x ∷ l) e)

abbrev AllAmong : List (String × ℕ) → Dict ℕ → Type 0
AllAmong fresh d = All (Among fresh) d

AllAmong-later :
    (fresh : List (String × ℕ)) (x : String × ℕ) (d : Dict ℕ)
    → AllAmong fresh d
    → AllAmong (x ∷ fresh) d
AllAmong-later fresh x [] h = tt
AllAmong-later fresh x (pair ∷ rest) h =
    (Among-later fresh x pair h.0, AllAmong-later fresh x rest h.1)

insert-AllAmong :
    (fresh : List (String × ℕ)) (key : String) (now : ℕ) (d : Dict ℕ)
    → AllAmong fresh d
    → Among fresh (key, now)
    → AllAmong fresh (insert key now d)
unfolding insert
insert-AllAmong fresh key now [] h new = (new, tt)
insert-AllAmong fresh key now (pair ∷ rest) h new = elim (Bool-cases (str_eq key pair.0)) [
  | inl e ↦ rw e (new, h.1)
  | inr e ↦ rw e (h.0, insert-AllAmong fresh key now rest h.1 new)
]

delete-AllAmong :
    (fresh : List (String × ℕ)) (key : String) (d : Dict ℕ)
    → AllAmong fresh d
    → AllAmong fresh (delete key d)
unfolding delete
delete-AllAmong fresh key [] h = tt
delete-AllAmong fresh key (pair ∷ rest) h = elim (Bool-cases (str_eq key pair.0)) [
  | inl e ↦ rw e (delete-AllAmong fresh key rest h.1)
  | inr e ↦ rw e (h.0, delete-AllAmong fresh key rest h.1)
]

keep_if-AllAmong :
    (fresh : List (String × ℕ)) (p : String × ℕ → Bool) (d : Dict ℕ)
    → AllAmong fresh d
    → AllAmong fresh (keep_if p d)
keep_if-AllAmong fresh p [] h = tt
keep_if-AllAmong fresh p (pair ∷ rest) h = elim (Bool-cases (p pair)) [
  | inl e ↦ rw e (h.0, keep_if-AllAmong fresh p rest h.1)
  | inr e ↦ rw e (keep_if-AllAmong fresh p rest h.1)
]

drop_oldest-AllAmong :
    (fresh : List (String × ℕ)) (d : Dict ℕ) → AllAmong fresh d → AllAmong fresh (drop_oldest d)
unfolding drop_oldest
drop_oldest-AllAmong fresh [] h = tt
drop_oldest-AllAmong fresh (pair ∷ rest) h = delete-AllAmong fresh _ (pair ∷ rest) h

evict-AllAmong :
    (fresh : List (String × ℕ)) (n m : ℕ) (d : Dict ℕ)
    → AllAmong fresh d
    → AllAmong fresh (evict n m d)
unfolding evict
evict-AllAmong fresh zero m d h = h
evict-AllAmong fresh (suc n) m d h = elim (Bool-cases (ltb m (length d))) [
  | inl e ↦ rw e (evict-AllAmong fresh n m (drop_oldest d) (drop_oldest-AllAmong fresh d h))
  | inr e ↦ rw e h
]

check_found-AllAmong :
    (fresh : List (String × ℕ)) (key : String) (now : ℕ) (duplicate : Bool) (dc : DedupeCache)
    → AllAmong fresh dc.entries
    → let (dup, dc') = check_found key now duplicate dc in
      AllAmong (if dup then fresh else (key, now) ∷ fresh) dc'.entries × (dc'.ttl ≡ dc.ttl)
unfolding check_found prune_entries
check_found-AllAmong fresh key now true dc h = (h, refl)
check_found-AllAmong fresh key now false dc h =
    let seen = (key, now) ∷ fresh in
    (
      evict-AllAmong seen _ dc.max_size _ (
          keep_if-AllAmong seen _ _ (
            insert-AllAmong seen key now dc.entries (AllAmong-later fresh (key, now) dc.entries h)
              ([], fresh, refl))),
      refl,
    )

run_checks-AllAmong :
    (calls fresh : List (String × ℕ)) (dc : DedupeCache)
    → AllAmong fresh dc.entries
    → let (fresh', dc') = run_checks calls fresh dc in
      AllAmong fresh' dc'.entries × (dc'.ttl ≡ dc.ttl)
unfolding run_checks check
run_checks-AllAmong [] fresh dc h = (h, refl)
run_checks-AllAmong ((key, now) ∷ calls) fresh dc h =
    let duplicate = is_duplicate dc.ttl now (lookup key dc.entries) in
    let (dup, dc') = check_found key now duplicate dc in
    let (all, same) = check_found-AllAmong fresh key now duplicate dc h in
    let (all', same') =
      run_checks-AllAmong calls (if dup then fresh else (key, now) ∷ fresh) dc' all in
    (all', cc (same, same'))

lookup-Among :
    (fresh : List (String × ℕ)) (key : String) (u : ℕ) (d : Dict ℕ)
    → AllAmong fresh d
    → lookup key d ≡ some u
    → Among fresh (key, u)
unfolding lookup
lookup-Among fresh key u [] h e = cc
lookup-Among fresh key u (pair ∷ rest) h e = elim (Bool-cases (str_eq key pair.0)) [
  | inl f ↦
      let k : pair.0 ≡ key = ground (arith, eq_iff key pair.0) in
      let v : pair.1 ≡ u = ground arith in rw (k, v) at h.0
  | inr f ↦ lookup-Among fresh key u rest h.1 (rw f at e)
]

-- No message is dropped unseen: where, after any calls on a new cache, Check calls a key a duplicate,
-- the same key was checked before, was then answered with false, and less than the time to live ago.
pub duplicate_was_seen :
    (ttl max_size : ℕ) (calls : List (String × ℕ)) (key : String) (now : ℕ)
    → (check key now (run_checks calls [] (new_dedupe_cache ttl max_size)).1).0 ≡ true
    → let dc = new_dedupe_cache ttl max_size in
      (u : ℕ) × Among (run_checks calls [] dc).0 (key, u) × (now < u + dc.ttl)
unfolding check new_dedupe_cache
duplicate_was_seen ttl max_size calls key now h =
    let dc = new_dedupe_cache ttl max_size in
    let (fresh, dc') = run_checks calls [] dc in
    let (all, same) = run_checks-AllAmong calls [] dc tt in
    elim (Option-cases (lookup key dc'.entries)) [
      | inl e ↦ absurd (ground arith)
      | inr (u, e) ↦ (u, lookup-Among fresh key u dc'.entries all e, ground arith)
    ]
