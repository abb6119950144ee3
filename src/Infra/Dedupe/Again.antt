-- ===== src/Infra/Dedupe/Again.antt =====
-- A key that was just stored is found again.
use ottie.Prelude.{
  ℕ, zero, suc, ◌+◌, ◌≤◌, ◌<◌, ◌≡◌, refl, String, Bool, true, false, some, [], ◌∷◌, arith, length,
  Bool-cases, inl, inr, keep_if, length-keep_if, str_eq,
}
use ottie.Prelude.Dict.{Dict, lookup, insert, lookup-insert_self}
use ottie.Infra.Dedupe.{
  DedupeCache, is_alive, evict, prune_entries, check, check_found, is_duplicate,
}

length-insert : (key : String) (now : ℕ) (d : Dict ℕ) → length (insert key now d) ≤ suc (length d)
unfolding insert
length-insert key now [] = omega arith
length-insert key now (pair ∷ rest) = ground (arith, length-insert key now rest)

lookup-keep_if :
    (ttl now : ℕ) (key : String) (u : ℕ) (d : Dict ℕ)
    → is_alive ttl now u ≡ true
    → lookup key d ≡ some u
    → lookup key (keep_if (λ pair. is_alive ttl now pair.1) d) ≡ some u
unfolding lookup
lookup-keep_if ttl now key u [] alive h = cc
lookup-keep_if ttl now key u (pair ∷ rest) alive h = elim (Bool-cases (str_eq key pair.0)) [
  | inl e ↦ let same : pair.1 ≡ u = ground arith in rw (same, alive, lookup, e) refl
  | inr e ↦ elim (Bool-cases (is_alive ttl now pair.1)) [
    | inl f ↦ rw (f, lookup, e) (lookup-keep_if ttl now key u rest alive (rw e at h))
    | inr f ↦ rw f (lookup-keep_if ttl now key u rest alive (rw e at h))
  ]
]

evict_fits : (n m : ℕ) (d : Dict ℕ) → length d ≤ m → evict n m d ≡ d
unfolding evict
evict_fits zero m d h = refl
evict_fits (suc n) m d h = ground arith

lookup-prune :
    (ttl m now : ℕ) (key : String) (d : Dict ℕ)
    → 0 < ttl
    → length d < m
    → lookup key (prune_entries ttl m now (insert key now d)) ≡ some now
unfolding prune_entries
lookup-prune ttl m now key d h room =
    let stored = insert key now d in
    let alive = keep_if (λ pair. is_alive ttl now pair.1) stored in
    let fits : length alive ≤ m =
      omega
        (arith, length-keep_if (λ pair. is_alive ttl now pair.1) stored, length-insert key now d) in
    rw (evict_fits (length alive) m alive fits)
      (lookup-keep_if ttl now key now stored (ground arith) (lookup-insert_self key now d))

found_again :
    (key : String) (now later : ℕ) (duplicate : Bool) (dc : DedupeCache)
    → length dc.entries < dc.max_size
    → duplicate ≡ false
    → now ≤ later
    → later < now + dc.ttl
    → let dc' = (check_found key now duplicate dc).1 in
      is_duplicate dc'.ttl later (lookup key dc'.entries) ≡ true
unfolding check_found
found_again key now later true dc room fresh h h' = cc
found_again key now later false dc room fresh h h' =
    rw (lookup-prune dc.ttl dc.max_size now key dc.entries (omega arith) room) (ground arith)

answer :
    (key : String) (now : ℕ) (duplicate : Bool) (dc : DedupeCache)
    → (check_found key now duplicate dc).0 ≡ duplicate
unfolding check_found
answer key now true dc = refl
answer key now false dc = refl

-- A message that comes again is dropped: where the cache holds fewer entries than its maximum and
-- Check answers a key with false, a Check of that key less than the time to live later, with none in
-- between, answers true.
pub check_again :
    (key : String) (now later : ℕ) (dc : DedupeCache)
    → length dc.entries < dc.max_size
    → (check key now dc).0 ≡ false
    → now ≤ later
    → later < now + dc.ttl
    → (check key later (check key now dc).1).0 ≡ true
unfolding check
check_again key now later dc room fresh h h' =
    let duplicate = is_duplicate dc.ttl now (lookup key dc.entries) in
    let first : duplicate ≡ false = rw (answer key now duplicate dc) at fresh in
    rw (answer key later _ (check_found key now duplicate dc).1)
      (found_again key now later duplicate dc room first h h')
