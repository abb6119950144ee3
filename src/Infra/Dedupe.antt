-- ===== src/Infra/Dedupe.antt =====
-- pkg/infra/dedupe.go: the cache of message keys. A time is a number of nanoseconds, and a TTL or a
-- size that is not positive is 0 here. Go ranges over the map in any order; the list's order is one.
pub mod Size
pub mod Seen
pub mod Again
use ottie.Prelude.{
  ℕ, zero, suc, ◌+◌, ◌*◌, String, Bool, true, false, Option, none, some, List, [], ◌∷◌, ltb, ◌==◌,
  if◌then◌else◌, length, keep_if,
}
use ottie.Prelude.Dict.{Dict, lookup, insert, delete}

pub record DedupeCache : Type 0 where
  pub entries : Dict ℕ
  pub ttl : ℕ
  pub max_size : ℕ

abbrev pub default_dedupe_ttl : ℕ
default_dedupe_ttl = 20 * 60 * 1_000_000_000

abbrev pub default_dedupe_max_size : ℕ
default_dedupe_max_size = 5000

unfoldable pub new_dedupe_cache : ℕ → ℕ → DedupeCache
new_dedupe_cache ttl max_size = record {
  entries = [];
  ttl = if ttl == 0 then default_dedupe_ttl else ttl;
  max_size = if max_size == 0 then default_dedupe_max_size else max_size;
}

-- now.Sub(e.createdAt) < dc.ttl
abbrev pub is_alive : ℕ → ℕ → ℕ → Bool
is_alive ttl now created_at = ltb now (created_at + ttl)

-- The inner loop of the eviction: the key of the oldest entry, from the first one on.
unfoldable pub oldest : String → ℕ → Dict ℕ → String
oldest key time [] = key
oldest key time (pair ∷ rest) =
    let newer = oldest key time rest in
    let older = oldest pair.0 pair.1 rest in if ltb pair.1 time then older else newer

-- One round of the eviction.
unfoldable pub drop_oldest : Dict ℕ → Dict ℕ
drop_oldest [] = []
drop_oldest (pair ∷ rest) = delete (oldest pair.0 pair.1 rest) (pair ∷ rest)

-- The eviction, on fuel: the number of entries is enough.
unfoldable pub evict : ℕ → ℕ → Dict ℕ → Dict ℕ
evict zero max_size d = d
evict (suc n) max_size d =
    let rest = evict n max_size (drop_oldest d) in if ltb max_size (length d) then rest else d

unfoldable pub prune_entries : ℕ → ℕ → ℕ → Dict ℕ → Dict ℕ
prune_entries ttl max_size now d =
    let alive = keep_if (λ pair. is_alive ttl now pair.1) d in evict (length alive) max_size alive

-- `Check` from the lookup on: a fresh or expired key is stored, and then the cache is pruned.
unfoldable pub check_found : String → ℕ → Bool → DedupeCache → Bool × DedupeCache
check_found key now true dc = (true, dc)
check_found key now false dc = (
  false,
  record dc { entries = prune_entries dc.ttl dc.max_size now (insert key now dc.entries) },
)

abbrev pub is_duplicate : ℕ → ℕ → Option ℕ → Bool
is_duplicate ttl now none = false
is_duplicate ttl now (some created_at) = is_alive ttl now created_at

unfoldable pub check : String → ℕ → DedupeCache → Bool × DedupeCache
unfolding check_found
check key now dc = check_found key now (is_duplicate dc.ttl now (lookup key dc.entries)) dc

-- The calls of `Check`, each a key and its time, and the calls that it answered with false, the latest
-- first.
unfoldable pub run_checks :
    List (String × ℕ) → List (String × ℕ) → DedupeCache → List (String × ℕ) × DedupeCache
run_checks [] fresh dc = (fresh, dc)
run_checks ((key, now) ∷ calls) fresh dc =
    let (duplicate, dc') = check key now dc in
    run_checks calls (if duplicate then fresh else (key, now) ∷ fresh) dc'
