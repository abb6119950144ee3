-- ===== src/Gateway/Limiter.antt =====
-- The limiter with the entries of all keys: each key has the window of its own attempts.
use ottie.Prelude.{
  ℕ, ◌+◌, ◌*◌, ◌≤◌, ◌≡◌, inl, inr, refl, sym, ap, ◌∙◌, String, Bool, true, false, not, Option, none,
  some, List, [], ◌∷◌, arith, str_eq, eq_iff, keep_if, Bool-cases, if◌then◌else◌,
}
use Prim.Native.String.{◌++◌ as concat}
use ottie.Prelude.Dict.{Dict, lookup, insert, lookup-insert, IsMap, insert-IsMap}
use ottie.Gateway.{
  RateLimitConfig, Entry, RateLimiter, window, lockout, allow_entry, or_empty, allow, is_stale,
  prune,
}
use ottie.Gateway.Spans.{count_in}
use ottie.Gateway.Window.{Event, attempt, pruning, grant, pruned, run_events, LagsBy, window_bound}

-- A call, with the time that it has read.
pub data Call : Type 0 where
  allows : ℕ → String → String → Call
  prunes : ℕ → Call

abbrev pub key_of : String → String → String
key_of scope ip = concat scope (concat ":" ip)

-- An entry of a key that `prune` keeps.
abbrev kept_entry : (Entry → Bool) → Option Entry → Option Entry
kept_entry q none = none
kept_entry q (some e) = if q e then some e else none

lookup-keep_if :
    (q : Entry → Bool) (key : String) (d : Dict Entry)
    → IsMap d
    → lookup key (keep_if (λ p. q p.1) d) ≡ kept_entry q (lookup key d)
unfolding lookup IsMap
lookup-keep_if q key [] u = refl
lookup-keep_if q key (p ∷ d) u =
    by_tests (str_eq key p.0) refl (q p.1) refl (lookup-keep_if q key d u.1)
  where
    by_tests :
        (b : Bool)
        → str_eq key p.0 ≡ b
        → (c : Bool) → q p.1 ≡ c
        → lookup key (keep_if (λ p. q p.1) d) ≡ kept_entry q (lookup key d)
        → lookup key (if c then p ∷ keep_if (λ p. q p.1) d else keep_if (λ p. q p.1) d)
          ≡ kept_entry q (if b then some p.1 else lookup key d)
    by_tests true y true z h = rw (y, z) refl
    by_tests false y true z h = rw y h
    by_tests false y false z h = h
    by_tests true y false z h =
        let same : key ≡ p.0 = ground (arith, eq_iff key p.0) in
        let gone : lookup key d ≡ none = ap (λ k. lookup k d) same ∙ u.0 in rw z (h ∙ rw gone refl)

keep_if-IsMap : (q : Entry → Bool) (d : Dict Entry) → IsMap d → IsMap (keep_if (λ p. q p.1) d)
unfolding IsMap
keep_if-IsMap q [] u = tt
keep_if-IsMap q (p ∷ d) u = elim (Bool-cases (q p.1)) [
  | inl y ↦ rw y (lookup-keep_if q p.0 d u.1 ∙ rw u.0 refl, keep_if-IsMap q d u.1)
  | inr y ↦ rw y (keep_if-IsMap q d u.1)
]

module _ (is_loopback : String → Bool) (key : String) where
  -- The times granted to the key, unless its address is a loopback address, and the limiter.
  unfoldable pub run_calls : List Call → List ℕ → RateLimiter → List ℕ
  run_calls [] granted rl = granted
  run_calls (allows now scope ip ∷ cs) granted rl =
      let (ok, rl') = allow is_loopback now scope ip rl in
      run_calls cs
        (if is_loopback ip
          then granted
          else if str_eq key (key_of scope ip)
          then grant now ok granted
          else granted)
        rl'
  run_calls (prunes now ∷ cs) granted rl = run_calls cs granted (prune now rl)

  -- The events of the key.
  unfoldable pub events_of : List Call → List Event
  events_of [] = []
  events_of (allows now scope ip ∷ cs) =
      let rest = events_of cs in
      if is_loopback ip
      then rest
      else if str_eq key (key_of scope ip)
      then attempt now ∷ rest
      else rest
  events_of (prunes now ∷ cs) = pruning now ∷ events_of cs

  run_calls_lem :
      (cs : List Call) (granted : List ℕ) (rl : RateLimiter)
      → IsMap rl.entries
      → run_calls cs granted rl
        ≡ (run_events rl.config (events_of cs) granted (lookup key rl.entries)).0
  unfolding run_calls events_of run_events allow prune
  run_calls_lem [] granted rl u = refl
  run_calls_lem (prunes now ∷ cs) granted rl u =
      let q : Entry → Bool = λ e. not (is_stale rl.config now e) in
      run_calls_lem cs granted (prune now rl) (keep_if-IsMap q rl.entries u)
      ∙ ap (λ o. (run_events rl.config (events_of cs) granted o).0)
          (lookup-keep_if q key rl.entries u ∙ same (lookup key rl.entries))
    where
      same :
          (o : Option Entry)
          → kept_entry (λ e. not (is_stale rl.config now e)) o ≡ pruned rl.config now o
      same none = refl
      same (some e) = elim (Bool-cases (is_stale rl.config now e)) [
        | inl y ↦ rw y refl
        | inr y ↦ rw y refl
      ]
  run_calls_lem (allows now scope ip ∷ cs) granted rl u =
      by_tests (is_loopback ip) (str_eq key (key_of scope ip)) refl
        (λ g rl' u'. run_calls_lem cs g rl' u')
    where
      k : String
      k = key_of scope ip

      step : Bool × Entry
      step = allow_entry rl.config now (or_empty (lookup k rl.entries))

      by_tests :
          (l b : Bool)
          → str_eq key k ≡ b
          → ((g : List ℕ) (rl' : RateLimiter)
              → IsMap rl'.entries
              → run_calls cs g rl'
                ≡ (run_events rl'.config (events_of cs) g (lookup key rl'.entries)).0)
          → let (ok, rl') : Bool × RateLimiter =
              if l
              then (true, rl)
              else (step.0, record rl { entries = insert k step.1 rl.entries }) in
            run_calls cs (if l then granted else if b then grant now ok granted else granted) rl'
            ≡ (run_events rl.config
                (if l then events_of cs else if b then attempt now ∷ events_of cs else events_of cs)
                granted
                (lookup key rl.entries)).0
      by_tests true b y ih = ih granted rl u
      by_tests false true y ih =
          let same : key ≡ k = ground (arith, eq_iff key k) in
          ih (grant now step.0 granted) (record rl { entries = insert k step.1 rl.entries })
            (insert-IsMap k step.1 rl.entries u)
          ∙ rw (lookup-insert k key step.1 rl.entries) (rw y (rw (sym same) refl))
      by_tests false false y ih =
          ih granted (record rl { entries = insert k step.1 rl.entries })
            (insert-IsMap k step.1 rl.entries u)
          ∙ rw (lookup-insert k key step.1 rl.entries) (rw y refl)

-- The limit holds, from a new limiter on, for each key beside all others: where the lockout is at least as long as the
-- window, and no time that a call for the key or a pruning has read lags by more than `lag` behind one that was
-- handled before it, no span of time of length `w` holds more granted attempts of the key than the maximum, if w and
-- twice the lag fit in the window. Without a lag, that is every span as long as the window.
pub limiter_bound :
    (is_loopback : String → Bool) (key : String) (cfg : RateLimitConfig) (lag w : ℕ)
    (cs : List Call) (t : ℕ)
    → w + 2 * lag ≤ window cfg
    → window cfg ≤ lockout cfg
    → LagsBy lag 0 (events_of is_loopback key cs)
    → count_in w t (run_calls is_loopback key cs [] (record { entries = []; config = cfg }))
      ≤ cfg.max_attempts
unfolding IsMap lookup
limiter_bound is_loopback key cfg lag w cs t fits enough lags =
    rw (run_calls_lem is_loopback key cs [] (record { entries = []; config = cfg }) tt)
      (window_bound cfg lag w (events_of is_loopback key cs) t fits enough lags)
