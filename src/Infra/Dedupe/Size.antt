-- ===== src/Infra/Dedupe/Size.antt =====
-- The size of the cache, and that the eviction has fuel enough.
use ottie.Prelude.{
  ℕ, zero, suc, ◌+◌, ◌≤◌, ◌<◌, ◌≡◌, refl, String, Bool, true, false, List, [], ◌∷◌, arith,
  if◌then◌else◌, length, eq_refl, any, str_eq,
}
use ottie.Prelude.Dict.{Dict, lookup, delete}
use ottie.Infra.Dedupe.{
  DedupeCache, new_dedupe_cache, oldest, drop_oldest, evict, prune_entries, check, check_found,
  is_duplicate, run_checks,
}

length-delete : (key : String) (d : Dict ℕ) → length (delete key d) ≤ length d
unfolding delete
length-delete key [] = omega arith
length-delete key (pair ∷ rest) = ground (arith, length-delete key rest)

abbrev has_entry : String → Dict ℕ → Bool
has_entry key d = any (λ pair. str_eq key pair.0) d

length-delete_lt :
    (key : String) (d : Dict ℕ) → has_entry key d ≡ true → length (delete key d) < length d
unfolding delete
length-delete_lt key [] h = cc
length-delete_lt key (pair ∷ rest) h =
    ground (arith, length-delete key rest, length-delete_lt key rest)

-- The key that the loop finds is the first one, or one of the rest.
has_entry-oldest :
    (key : String) (time value : ℕ) (rest : Dict ℕ)
    → has_entry (oldest key time rest) ((key, value) ∷ rest) ≡ true
unfolding oldest
has_entry-oldest key time value [] = ground (arith, eq_refl key)
has_entry-oldest key time value (pair ∷ rest) =
    ground (arith, has_entry-oldest key time value rest, has_entry-oldest pair.0 pair.1 pair.1 rest)

length-drop_oldest : (n : ℕ) (d : Dict ℕ) → length d ≤ suc n → length (drop_oldest d) ≤ n
unfolding drop_oldest
length-drop_oldest n [] h = omega arith
length-drop_oldest n (pair ∷ rest) h = omega (
  arith,
  length-delete_lt (oldest pair.0 pair.1 rest) (pair ∷ rest)
      (has_entry-oldest pair.0 pair.1 pair.1 rest),
)

length-evict : (n m : ℕ) (d : Dict ℕ) → length d ≤ n + m → length (evict n m d) ≤ m
unfolding evict
length-evict zero m d h = omega arith
length-evict (suc n) m d h =
    ground (arith, length-drop_oldest (n + m) d (omega arith), length-evict n m (drop_oldest d))

length-prune : (ttl m now : ℕ) (d : Dict ℕ) → length (prune_entries ttl m now d) ≤ m
unfolding prune_entries
length-prune ttl m now d = length-evict _ m _ (omega arith)

check-size :
    (key : String) (now : ℕ) (duplicate : Bool) (dc : DedupeCache)
    → length dc.entries ≤ dc.max_size
    → let dc' = (check_found key now duplicate dc).1 in
      (length dc'.entries ≤ dc.max_size) × (dc'.max_size ≡ dc.max_size)
unfolding check_found
check-size key now true dc h = (h, refl)
check-size key now false dc h = (length-prune dc.ttl dc.max_size now _, refl)

run_checks-size :
    (calls fresh : List (String × ℕ)) (dc : DedupeCache)
    → length dc.entries ≤ dc.max_size
    → length (run_checks calls fresh dc).1.entries ≤ dc.max_size
unfolding run_checks check
run_checks-size [] fresh dc h = h
run_checks-size ((key, now) ∷ calls) fresh dc h =
    let duplicate = is_duplicate dc.ttl now (lookup key dc.entries) in
    let (dup, dc') = check_found key now duplicate dc in
    let (fits, same) = check-size key now duplicate dc h in
    omega (
      arith,
      same,
      run_checks-size calls (if dup then fresh else (key, now) ∷ fresh) dc'
          (omega (arith, fits, same)),
    )

-- However often a new cache is asked, it never holds more entries than its maximum, so the eviction
-- always ends below it.
pub run_checks_bound :
    (ttl max_size : ℕ) (calls : List (String × ℕ))
    → let dc = new_dedupe_cache ttl max_size in
      length (run_checks calls [] dc).1.entries ≤ dc.max_size
unfolding new_dedupe_cache
run_checks_bound ttl max_size calls =
    run_checks-size calls [] (new_dedupe_cache ttl max_size) (omega arith)
