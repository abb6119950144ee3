-- ===== src/Gateway/Window.antt =====
-- The sliding window of one key, over attempts and prunings in the order in which they take the lock. The clock is
-- read before the lock is taken, so that this need not be the order of their times.
use ottie.Prelude.{
  ℕ, ◌+◌, ◌*◌, ◌≤◌, ◌<◌, ◌≡◌, Bool, true, false, List, [], ◌∷◌, ◌++◌, arith, ltb, leb, length, max,
  keep_if, Bool-cases, inl, inr, All, Option, none, some, any, if◌then◌else◌,
}
use ottie.Gateway.{
  RateLimitConfig, Entry, window, lockout, in_window, allow_entry, or_empty, is_stale,
}
use ottie.Gateway.Spans.{
  count_in, reaching, reaching-snoc, count_in_le, reaching_none, reaching-filtered, reaching_le,
  reaching_stale, All-later,
}

-- An attempt for the key, or a pruning, with the time that it has read.
pub data Event : Type 0 where
  attempt : ℕ → Event
  pruning : ℕ → Event

abbrev pub time_of : Event → ℕ
time_of (attempt t) = t
time_of (pruning t) = t

abbrev pub grant : ℕ → Bool → List ℕ → List ℕ
grant now true granted = now ∷ granted
grant now false granted = granted

-- An entry of a key after `prune`.
abbrev pub pruned : RateLimitConfig → ℕ → Option Entry → Option Entry
pruned cfg now none = none
pruned cfg now (some e) = if is_stale cfg now e then none else some e

-- The times that were granted, latest first, and the entry of the key, if it has one.
unfoldable pub run_events :
    RateLimitConfig → List Event → List ℕ → Option Entry → List ℕ × Option Entry
run_events cfg [] granted o = (granted, o)
run_events cfg (attempt now ∷ es) granted o =
    let (ok, e) = allow_entry cfg now (or_empty o) in
    run_events cfg es (grant now ok granted) (some e)
run_events cfg (pruning now ∷ es) granted o = run_events cfg es granted (pruned cfg now o)

-- No event lags by more than `lag` behind the times of those before it, of which `high` is the latest.
abbrev pub LagsBy : ℕ → ℕ → List Event → Type 0
LagsBy lag high [] = Unit
LagsBy lag high (e ∷ es) = (high ≤ time_of e + lag) × LagsBy lag (max high (time_of e)) es

-- The times granted so far, against the entry: none is later than `high`, the latest time read; the entry counts
-- those that reach beyond a time at which an attempt can still be granted; and no span holds more than the maximum.
pub record Tracks (cfg : RateLimitConfig) (lag w high : ℕ) (granted : List ℕ) (e : Entry)
    : Type 0 where
  pub past : All (λ x. x ≤ high) granted
  pub counted :
      (t : ℕ)
      → high ≤ t + lag
      → e.locked_until ≤ t + lag
      → reaching w t granted ≤ reaching w t e.timestamps
  pub bounded : (t : ℕ) → count_in w t granted ≤ cfg.max_attempts

module _ (cfg : RateLimitConfig) (lag w : ℕ) (fits : w + 2 * lag ≤ window cfg)
    (enough : window cfg ≤ lockout cfg) where
  later-Tracks :
      (now high : ℕ) (granted : List ℕ) (e : Entry)
      → Tracks cfg lag w high granted e
      → Tracks cfg lag w (max high now) granted e
  later-Tracks now high granted e tr = record {
    past = All-later high (max high now) granted (omega arith) tr.past;
    counted = λ t ht lt. tr.counted t (omega arith) lt;
    bounded = tr.bounded;
  }

  lock-Tracks :
      (now high : ℕ) (granted : List ℕ) (e : Entry)
      → high ≤ now + lag
      → Tracks cfg lag w high granted e
      → Tracks cfg lag w
          (max high now)
          granted
          (record { timestamps = []; locked_until = now + lockout cfg })
  lock-Tracks now high granted e h tr =
      let past = All-later high (now + lag) granted h tr.past in
      record {
        past = All-later high (max high now) granted (omega arith) tr.past;
        counted = λ t ht lt.
            let gone =
              reaching_none w t (now + lag) granted past (omega (arith, fits, enough, lt)) in
            omega (arith, gone);
        bounded = tr.bounded;
      }

  -- A span that holds the new time holds no more of the old ones than reach beyond it.
  span_grant :
      (now t : ℕ) (granted : List ℕ)
      → reaching w now granted < cfg.max_attempts
      → count_in w t granted ≤ cfg.max_attempts
      → count_in w t (now ∷ granted) ≤ cfg.max_attempts
  span_grant now t granted room old = elim (Bool-cases (leb now t)) [
    | inl y ↦ let few = count_in_le w t now granted (ground arith) in ground (arith, few)
    | inr y ↦ ground (arith, y, old)
  ]

  grant-Tracks :
      (now high : ℕ) (granted : List ℕ) (e : Entry)
      → high ≤ now + lag
      → e.locked_until ≤ now
      → length (keep_if (in_window (window cfg) now) e.timestamps) < cfg.max_attempts
      → Tracks cfg lag w high granted e
      → Tracks cfg lag w (max high now) (now ∷ granted) (record e {
        timestamps = keep_if (in_window (window cfg) now) e.timestamps ++ (now ∷ []);
      })
  grant-Tracks now high granted e h free room tr =
      let kept = keep_if (in_window (window cfg) now) e.timestamps in
      let held = tr.counted now h (omega arith) in
      let few = reaching_le (window cfg) w now e.timestamps (omega (arith, fits)) in
      record {
        past = (omega arith, All-later high (max high now) granted (omega arith) tr.past);
        counted = λ t ht lt.
            let old = tr.counted t (omega arith) lt in
            let same =
              reaching-filtered (window cfg) w now t e.timestamps (omega (arith, fits, ht)) in
            ground (arith, reaching-snoc w t now kept, old, same);
        bounded = λ t. span_grant now t granted (omega (arith, held, few, room)) (tr.bounded t);
      }

  attempt-Tracks :
      (now high : ℕ) (granted : List ℕ) (e : Entry)
      → high ≤ now + lag
      → Tracks cfg lag w high granted e
      → let (ok, e') = allow_entry cfg now e in
        Tracks cfg lag w (max high now) (grant now ok granted) e'
  unfolding allow_entry
  attempt-Tracks now high granted e h tr = elim (Bool-cases (ltb now e.locked_until)) [
    | inl l ↦ rw l (later-Tracks now high granted e tr)
    | inr u ↦
        elim (Bool-cases
          (leb cfg.max_attempts (length (keep_if (in_window (window cfg) now) e.timestamps)))) [
            | inl m ↦ rw (u, m) (lock-Tracks now high granted e h tr)
            | inr m ↦ rw (u, m) (grant-Tracks now high granted e h (ground arith) (ground arith) tr)
          ]
  ]

  drop-Tracks :
      (now high : ℕ) (granted : List ℕ) (e : Entry)
      → e.locked_until < now
      → any (in_window (window cfg) now) e.timestamps ≡ false
      → Tracks cfg lag w high granted e
      → Tracks cfg lag w (max high now) granted (or_empty none)
  drop-Tracks now high granted e free stale tr = record {
    past = All-later high (max high now) granted (omega arith) tr.past;
    counted = λ t ht lt.
        let old = tr.counted t (omega arith) (omega (arith, free, ht)) in
        let gone =
          reaching_stale (window cfg) w now t e.timestamps (omega (arith, fits, ht)) stale in
        omega (arith, old, gone);
    bounded = tr.bounded;
  }

  prune-Tracks :
      (now high : ℕ) (granted : List ℕ) (o : Option Entry)
      → Tracks cfg lag w high granted (or_empty o)
      → Tracks cfg lag w (max high now) granted (or_empty (pruned cfg now o))
  prune-Tracks now high granted none tr = later-Tracks now high granted (or_empty none) tr
  prune-Tracks now high granted (some e) tr = elim (Bool-cases (ltb e.locked_until now)) [
    | inr l ↦ rw l (later-Tracks now high granted e tr)
    | inl l ↦ elim (Bool-cases (any (in_window (window cfg) now) e.timestamps)) [
      | inl y ↦ rw (l, y) (later-Tracks now high granted e tr)
      | inr y ↦ rw (l, y) (drop-Tracks now high granted e (ground arith) y tr)
    ]
  ]

  run_events-Tracks :
      (es : List Event) (granted : List ℕ) (high : ℕ) (o : Option Entry)
      → LagsBy lag high es
      → Tracks cfg lag w high granted (or_empty o)
      → (t : ℕ) → count_in w t (run_events cfg es granted o).0 ≤ cfg.max_attempts
  unfolding run_events
  run_events-Tracks [] granted high o r tr t = tr.bounded t
  run_events-Tracks (attempt now ∷ es) granted high o r tr t =
      let (ok, e) = allow_entry cfg now (or_empty o) in
      run_events-Tracks es (grant now ok granted) (max high now) (some e) r.1
        (attempt-Tracks now high granted (or_empty o) r.0 tr) t
  run_events-Tracks (pruning now ∷ es) granted high o r tr t =
      run_events-Tracks es granted (max high now) (pruned cfg now o) r.1
        (prune-Tracks now high granted o tr) t

-- The limit holds: where the lockout is at least as long as the window, and no time that an attempt or a pruning has
-- read lags by more than `lag` behind one that was handled before it, no span of time of length `w` holds more
-- granted attempts of a key than the maximum, if w and twice the lag fit in the window. Without a lag,
-- that is every span as long as the window.
pub window_bound :
    (cfg : RateLimitConfig) (lag w : ℕ) (es : List Event) (t : ℕ)
    → w + 2 * lag ≤ window cfg
    → window cfg ≤ lockout cfg
    → LagsBy lag 0 es
    → count_in w t (run_events cfg es [] none).0 ≤ cfg.max_attempts
window_bound cfg lag w es t fits enough lags =
    let start : Tracks cfg lag w 0 [] (or_empty none) = record {
      past = tt;
      counted = λ u a b. omega arith;
      bounded = λ u. omega arith;
    } in
    run_events-Tracks cfg lag w fits enough es [] 0 none lags start t
