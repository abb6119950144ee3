-- ===== src/Health.antt =====
-- pkg/health/channel_monitor.go: what each channel last did, and the status that this gives it. A time is a
-- number, 0 the zero time; the monitor's clock is an argument.
pub mod Decay
use ottie.Prelude.{
  ℕ, suc, ◌+◌, ◌*◌, String, Bool, true, false, not, ◌&&◌, ◌||◌, Option, none, some, List, [], ◌∷◌,
  ltb, ◌==◌, if◌then◌else◌, map, any,
}
use ottie.Prelude.Dict.{Dict, lookup, insert}

pub data ChannelStatus : Type 0 where
  healthy not_running disconnected stale_socket stuck : ChannelStatus

-- The two defaults, in seconds.
abbrev pub default_stale_threshold : ℕ
default_stale_threshold = 30 * 60

abbrev pub default_stuck_threshold : ℕ
default_stuck_threshold = 25 * 60

pub record ChannelState : Type 0 where
  pub running : Bool
  pub connected : Bool
  pub busy : Bool
  pub last_event_at : ℕ
  pub last_start_at : ℕ
  pub restart_count : ℕ

pub record ChannelMonitor : Type 0 where
  pub channels : Dict ChannelState
  pub startup_grace : ℕ
  pub stale_threshold : ℕ
  pub stuck_threshold : ℕ

unfoldable pub new_channel_monitor : ℕ → ChannelMonitor
new_channel_monitor startup_grace = record {
  channels = [];
  startup_grace = startup_grace;
  stale_threshold = default_stale_threshold;
  stuck_threshold = default_stuck_threshold;
}

abbrev pub fresh_state : ChannelState
fresh_state = record {
  running = false;
  connected = false;
  busy = false;
  last_event_at = 0;
  last_start_at = 0;
  restart_count = 0;
}

unfoldable pub get_or_create : Option ChannelState → ChannelState
get_or_create none = fresh_state
get_or_create (some s) = s

-- A handler: the state of a channel, made if there is none, changed and kept.
unfoldable pub change : (ChannelState → ChannelState) → String → ChannelMonitor → ChannelMonitor
unfolding get_or_create
change f channel m = record m {
  channels = insert channel (f (get_or_create (lookup channel m.channels))) m.channels;
}

unfoldable pub record_event : ℕ → String → ChannelMonitor → ChannelMonitor
unfolding change
record_event now = change (λ s. record s { last_event_at = now })

abbrev pub started : ℕ → ChannelState → ChannelState
started now s = record {
  running = true;
  connected = true;
  busy = s.busy;
  last_event_at = now;
  last_start_at = now;
  restart_count = if not (s.last_start_at == 0) then suc s.restart_count else s.restart_count;
}

unfoldable pub record_start : ℕ → String → ChannelMonitor → ChannelMonitor
unfolding change
record_start now = change (started now)

unfoldable pub set_running : String → Bool → ChannelMonitor → ChannelMonitor
unfolding change
set_running channel running = change (λ s. record s { running = running }) channel

unfoldable pub set_busy : String → Bool → ChannelMonitor → ChannelMonitor
unfolding change
set_busy channel busy = change (λ s. record s { busy = busy }) channel

-- `now.Sub(t) < d` is `now < t + d`, and `now.Sub(t) > d` is `t + d < now`.
unfoldable pub status_for_state : ℕ → ChannelMonitor → ChannelState → ChannelStatus
status_for_state now m s =
    if not s.running
    then not_running
    else if ltb now (s.last_start_at + m.startup_grace)
    then healthy
    else if s.busy && ltb (s.last_event_at + m.stuck_threshold) now
    then stuck
    else if ltb (s.last_event_at + m.stale_threshold) now
    then stale_socket
    else healthy

abbrev pub status_or : ℕ → ChannelMonitor → Option ChannelState → ChannelStatus
status_or now m none = not_running
status_or now m (some s) = status_for_state now m s

unfoldable pub status : ℕ → String → ChannelMonitor → ChannelStatus
unfolding status_for_state
status now channel m = status_or now m (lookup channel m.channels)

unfoldable pub all_statuses : ℕ → ChannelMonitor → Dict ChannelStatus
unfolding status_for_state
all_statuses now m = map (λ p. (p.0, status_for_state now m p.1)) m.channels

abbrev pub is_failing : ChannelStatus → Bool
is_failing healthy = false
is_failing not_running = false
is_failing disconnected = false
is_failing stale_socket = true
is_failing stuck = true

-- The loop of HealthCheck: `none` is "all channels healthy", else the channel and its status.
unfoldable pub first_failing : Dict ChannelStatus → Option (String × ChannelStatus)
first_failing [] = none
first_failing (p ∷ ps) = let rest = first_failing ps in if is_failing p.1 then some p else rest

unfoldable pub health_check : ℕ → ChannelMonitor → Option (String × ChannelStatus)
unfolding all_statuses first_failing
health_check now m = first_failing (all_statuses now m)

-- What `Start` logs at each tick: the channels that are not healthy.
abbrev pub is_unhealthy : ChannelStatus → Bool
is_unhealthy healthy = false
is_unhealthy not_running = true
is_unhealthy disconnected = true
is_unhealthy stale_socket = true
is_unhealthy stuck = true
