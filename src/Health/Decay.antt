-- ===== src/Health/Decay.antt =====
-- How a status changes with time and with events.
use ottie.Prelude.{
  ℕ, ◌+◌, ◌≤◌, ◌≡◌, ◌≢◌, ◌↔◌, inl, inr, refl, ap, ◌∙◌, String, Bool, true, false, Option, none,
  some, [], ◌∷◌, arith, str_eq, any, map, Bool-cases, if◌then◌else◌,
}
use ottie.Prelude.Dict.{Dict, lookup, lookup-insert}
use ottie.Health.{
  healthy, disconnected, ChannelState, ChannelMonitor, change, record_start, started, get_or_create,
  status_for_state, status_or, status, all_statuses, is_failing, first_failing, health_check,
}

status_for_state_decays :
    (now later : ℕ) (m : ChannelMonitor) (s : ChannelState)
    → m.stuck_threshold ≤ m.stale_threshold
    → now ≤ later
    → status_for_state now m s ≢ healthy
    → status_for_state later m s ≡ status_for_state now m s
unfolding status_for_state
status_for_state_decays now later m s le later-le ne = by_flags s.running s.busy refl refl
  where
    by_flags :
        (r b : Bool)
        → s.running ≡ r
        → s.busy ≡ b
        → status_for_state later m s ≡ status_for_state now m s
    by_flags false b e f = rw e refl
    by_flags true true e f = ground arith
    by_flags true false e f = ground arith

-- Where the stuck threshold is at most the stale one, as by default, a channel that is not healthy and is
-- left alone keeps its status as time goes by.
pub status_decays :
    (now later : ℕ) (channel : String) (m : ChannelMonitor)
    → m.stuck_threshold ≤ m.stale_threshold
    → now ≤ later
    → status now channel m ≢ healthy
    → status later channel m ≡ status now channel m
unfolding status
status_decays now later channel m le later-le = by_state (lookup channel m.channels)
  where
    by_state :
        (o : Option ChannelState)
        → status_or now m o ≢ healthy
        → status_or later m o ≡ status_or now m o
    by_state none ne = refl
    by_state (some s) ne = status_for_state_decays now later m s le later-le ne

fresh_is_healthy :
    (now later : ℕ) (m : ChannelMonitor) (s : ChannelState)
    → s.running ≡ true
    → s.last_event_at ≡ now
    → later ≤ now + m.stuck_threshold
    → later ≤ now + m.stale_threshold
    → status_for_state later m s ≡ healthy
unfolding status_for_state
fresh_is_healthy now later m s r e stuck-le stale-le = ground arith

changed :
    (f : ChannelState → ChannelState) (later : ℕ) (channel other : String) (m : ChannelMonitor)
    → status later other (change f channel m) ≡ (
        if str_eq other channel
        then status_for_state later m (f (get_or_create (lookup channel m.channels)))
        else status later other m)
unfolding status change get_or_create status_for_state
changed f later channel other m =
    ap (status_or later m)
      (lookup-insert channel other (f (get_or_create (lookup channel m.channels))) m.channels)
    ∙ by_test (str_eq other channel)
  where
    by_test :
        (b : Bool)
        → status_or later m (
            if b
            then some (f (get_or_create (lookup channel m.channels)))
            else lookup other m.channels)
          ≡ (if b
              then status_for_state later m (f (get_or_create (lookup channel m.channels)))
              else status_or later m (lookup other m.channels))
    by_test true = refl
    by_test false = refl

-- A start makes its channel healthy until both thresholds have passed, whatever its state was, and leaves the
-- status of every other channel as it is.
pub status-record_start :
    (now later : ℕ) (channel other : String) (m : ChannelMonitor)
    → later ≤ now + m.stuck_threshold
    → later ≤ now + m.stale_threshold
    → status later other (record_start now channel m)
      ≡ (if str_eq other channel then healthy else status later other m)
unfolding record_start
status-record_start now later channel other m stuck-le stale-le =
    changed (started now) later channel other m
    ∙ rw
        (fresh_is_healthy now later m (started now (get_or_create (lookup channel m.channels))) refl
          refl stuck-le stale-le)
        refl

first_failing_iff :
    (now : ℕ) (m : ChannelMonitor) (channels : Dict ChannelState)
    → (first_failing (map (λ p. (p.0, status_for_state now m p.1)) channels) ≡ none) ↔ (
        any (λ (p : String × ChannelState). is_failing (status_for_state now m p.1)) channels
        ≡ false)
unfolding first_failing
first_failing_iff now m [] = (λ h. refl, λ h. refl)
first_failing_iff now m (p ∷ ps) =
    let below = first_failing_iff now m ps in
    elim (Bool-cases (is_failing (status_for_state now m p.1))) [
      | inl e ↦ rw e (λ h. cc, λ h. cc)
      | inr e ↦ rw e (below.0, below.1)
    ]

-- The health check passes exactly when no channel is stuck or has a stale socket.
pub health_check_iff :
    (now : ℕ) (m : ChannelMonitor)
    → (health_check now m ≡ none) ↔ (
        any (λ (p : String × ChannelState). is_failing (status_for_state now m p.1)) m.channels
        ≡ false)
unfolding health_check all_statuses
health_check_iff now m = first_failing_iff now m m.channels

-- With no channel running, the health check passes.
pub health_check_stopped :
    (now : ℕ) (m : ChannelMonitor)
    → any (λ (p : String × ChannelState). p.1.running) m.channels ≡ false
    → health_check now m ≡ none
unfolding status_for_state
health_check_stopped now m h = (health_check_iff now m).1 (none_failing m.channels h)
  where
    none_failing :
        (channels : Dict ChannelState)
        → any (λ (p : String × ChannelState). p.1.running) channels ≡ false
        → any (λ (p : String × ChannelState). is_failing (status_for_state now m p.1)) channels
          ≡ false
    none_failing [] h = refl
    none_failing (p ∷ ps) h = ground (arith, none_failing ps)

-- No channel is ever reported as disconnected.
pub status-never_disconnected :
    (now : ℕ) (channel : String) (m : ChannelMonitor) → status now channel m ≢ disconnected
unfolding status status_for_state
status-never_disconnected now channel m = by_state (lookup channel m.channels)
  where
    by_state : (o : Option ChannelState) → status_or now m o ≢ disconnected
    by_state none h = cc
    by_state (some s) h = ground arith
