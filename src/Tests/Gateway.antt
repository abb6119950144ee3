-- ===== src/Tests/Gateway.antt =====
-- Two attempts per minute: two addresses, a loopback address, a pruning, and an attempt whose time lags.
use ottie.Prelude.{◌≤◌, [], ◌∷◌, arith, List, String, Bool, str_eq}
use ottie.Gateway.{RateLimitConfig}
use ottie.Gateway.Spans.{count_in}
use ottie.Gateway.Window.{LagsBy}
use ottie.Gateway.Limiter.{Call, allows, prunes, run_calls, events_of, limiter_bound}

abbrev two_per_minute : RateLimitConfig
two_per_minute = record { max_attempts = 2; window_seconds = 60; lockout_seconds = 300 }

abbrev is_local : String → Bool
is_local ip = str_eq ip "::1"

abbrev calls : List Call
calls =
    allows 10 "ws" "a"
    ∷ allows 20 "ws" "a"
    ∷ allows 25 "ws" "b"
    ∷ prunes 30
    ∷ allows 28 "ws" "a"
    ∷ allows 35 "ws" "::1"
    ∷ allows 40 "ws" "a"
    ∷ []

calls_lag : LagsBy 2 0 (events_of is_local "ws:a" calls)
unfolding events_of
calls_lag = (omega arith, (omega arith, (omega arith, (omega arith, (omega arith, tt)))))

limiter_bound_example :
    count_in 1000 40
      (run_calls is_local "ws:a" calls [] (record { entries = []; config = two_per_minute }))
    ≤ 2
limiter_bound_example =
    limiter_bound is_local "ws:a" two_per_minute 2 1000 calls 40 (omega arith) (omega arith)
      calls_lag
