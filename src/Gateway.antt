-- ===== src/Gateway.antt =====
-- pkg/gateway/ratelimit.go: attempts per scope and address, with a sliding window and a lockout.
-- Times and durations are in nanoseconds. The loopback test of the Go library is an argument, and so is the time,
-- which Allow and prune read before they take the lock.
pub mod Spans
pub mod Window
pub mod Limiter
use ottie.Prelude.{
  ℕ, ◌+◌, ◌*◌, String, Bool, true, false, not, Option, none, some, List, [], ◌∷◌, ◌++◌, ltb, leb,
  if◌then◌else◌, length, keep_if, any,
}
use Prim.Native.String.{◌++◌ as concat}
use ottie.Prelude.Dict.{Dict, lookup, insert}

pub record RateLimitConfig : Type 0 where
  pub max_attempts : ℕ
  pub window_seconds : ℕ
  pub lockout_seconds : ℕ

pub record Entry : Type 0 where
  pub timestamps : List ℕ
  pub locked_until : ℕ

pub record RateLimiter : Type 0 where
  pub entries : Dict Entry
  pub config : RateLimitConfig

abbrev pub second : ℕ
second = 1_000_000_000

abbrev pub window : RateLimitConfig → ℕ
window cfg = cfg.window_seconds * second

abbrev pub lockout : RateLimitConfig → ℕ
lockout cfg = cfg.lockout_seconds * second

-- `ts.After(now.Add(-window))`
abbrev pub in_window : ℕ → ℕ → ℕ → Bool
in_window w now ts = ltb now (ts + w)

-- `Allow` on the entry of its key, from the lockout test on.
unfoldable pub allow_entry : RateLimitConfig → ℕ → Entry → Bool × Entry
allow_entry cfg now e =
    if ltb now e.locked_until
    then (false, e)
    else (let filtered = keep_if (in_window (window cfg) now) e.timestamps in
        if leb cfg.max_attempts (length filtered)
        then (false, record { timestamps = []; locked_until = now + lockout cfg })
        else (true, record e { timestamps = filtered ++ (now ∷ []) }))

abbrev pub or_empty : Option Entry → Entry
or_empty none = record { timestamps = []; locked_until = 0 }
or_empty (some e) = e

-- The key is scope + ":" + ip.
unfoldable pub allow : (String → Bool) → ℕ → String → String → RateLimiter → Bool × RateLimiter
unfolding allow_entry
allow is_loopback now scope ip rl =
    let key = concat scope (concat ":" ip) in
    if is_loopback ip
    then (true, rl)
    else (let (ok, e) = allow_entry rl.config now (or_empty (lookup key rl.entries)) in
        (ok, record rl { entries = insert key e rl.entries }))

-- Whether `prune` drops an entry: its lockout is over and no attempt is in the window.
abbrev pub is_stale : RateLimitConfig → ℕ → Entry → Bool
is_stale cfg now e =
    if ltb e.locked_until now then not (any (in_window (window cfg) now) e.timestamps) else false

unfoldable pub prune : ℕ → RateLimiter → RateLimiter
prune now rl = record rl { entries = keep_if (λ p. not (is_stale rl.config now p.1)) rl.entries }
