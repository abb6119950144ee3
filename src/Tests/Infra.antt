-- ===== src/Tests/Infra.antt =====
-- A cache of two entries and a time to live of ten.
use ottie.Prelude.{ℕ, ◌+◌, ◌<◌, ◌≡◌, refl, String, true, false, List, [], ◌∷◌, arith, length}
use ottie.Prelude.Dict.{lookup, insert, delete}
use ottie.Infra.Dedupe.{
  new_dedupe_cache, check, check_found, run_checks, prune_entries, evict, drop_oldest, oldest,
}
use ottie.Infra.Dedupe.Seen.{Among, duplicate_was_seen}

abbrev calls : List (String × ℕ)
calls = ("a", 1) ∷ ("b", 2) ∷ ("c", 3) ∷ ("c", 4) ∷ []

is_seen : (check "c" 5 (run_checks calls [] (new_dedupe_cache 10 2)).1).0 ≡ true
unfolding check check_found run_checks prune_entries evict new_dedupe_cache lookup insert
    drop_oldest delete oldest
is_seen = refl

duplicate_was_seen_example :
    let dc = new_dedupe_cache 10 2 in
    (u : ℕ) × Among (run_checks calls [] dc).0 ("c", u) × (5 < u + dc.ttl)
duplicate_was_seen_example = duplicate_was_seen 10 2 calls "c" 5 is_seen

has_room : length (new_dedupe_cache 10 2).entries < (new_dedupe_cache 10 2).max_size
unfolding new_dedupe_cache
has_room = omega arith

in_time : 9 < 1 + (new_dedupe_cache 10 2).ttl
unfolding new_dedupe_cache
in_time = omega arith

is_fresh : (check "a" 1 (new_dedupe_cache 10 2)).0 ≡ false
unfolding check check_found new_dedupe_cache lookup
is_fresh = refl
