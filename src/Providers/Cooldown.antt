-- ===== src/Providers/Cooldown.antt =====
-- pkg/providers/cooldown.go: the per-provider cooldowns of the fallback chain.
-- A `time.Time` is the number of nanoseconds since Go's zero time, so `IsZero` is `== 0`; a
-- `time.Duration` is a number of nanoseconds. Counters that grow by one are unbounded. The clock
-- `nowFunc` is an argument of the methods that read it.
pub mod Bounds
pub mod Blocks
pub mod Streak
pub mod Counts
use mathlib.Core.Logic.{ite}
use ottie.Prelude.{
  ℕ, ◌+◌, ◌-◌, ◌*◌, ◌^◌, min, max, String, Bool, true, false, not, ◌&&◌, Option, none, some, [],
  ltb, ◌==◌, if◌then◌else◌,
}
use ottie.Prelude.Dict.{Dict, lookup, insert}
use ottie.Providers.Reason.{FailoverReason, FailoverReason-discrete, billing, is_billing}

pub record CooldownEntry : Type 0 where
  pub error_count : ℕ
  pub failure_counts : FailoverReason → ℕ
  pub cooldown_end : ℕ
  pub disabled_until : ℕ
  pub disabled_reason : Option FailoverReason
  pub last_failure : ℕ

pub record CooldownTracker : Type 0 where
  pub entries : Dict CooldownEntry
  pub failure_window : ℕ

abbrev pub millisecond : ℕ
millisecond = 1_000_000

abbrev pub default_failure_window : ℕ
default_failure_window = 24 * 60 * 60 * 1000 * millisecond

unfoldable pub new_cooldown_tracker : CooldownTracker
new_cooldown_tracker = record { entries = []; failure_window = default_failure_window }

-- `make(map[FailoverReason]int)`: a missing key reads 0.
abbrev pub no_failures : FailoverReason → ℕ
no_failures r = 0

-- `counts[reason]++`
unfoldable pub count_failure : FailoverReason → (FailoverReason → ℕ) → FailoverReason → ℕ
count_failure reason counts r = ite (FailoverReason-discrete reason r) (counts r + 1) (counts r)

abbrev pub new_entry : CooldownEntry
new_entry = record {
  error_count = 0;
  failure_counts = no_failures;
  cooldown_end = 0;
  disabled_until = 0;
  disabled_reason = none;
  last_failure = 0;
}

abbrev pub or_new : Option CooldownEntry → CooldownEntry
or_new none = new_entry
or_new (some e) = e

-- The entry that `getOrCreate` returns; `mark_failure` stores it back.
unfoldable pub get_or_create : CooldownTracker → String → CooldownEntry
get_or_create ct provider = or_new (lookup provider ct.entries)

unfoldable pub calculate_standard_cooldown : ℕ → ℕ
calculate_standard_cooldown error_count =
    let n = max 1 error_count in
    let exp = min (n - 1) 3 in let ms = 60_000 * 5 ^ exp in min 3_600_000 ms * millisecond

-- `math.Pow` and the product are exact here: the exponent is at most 10.
unfoldable pub calculate_billing_cooldown : ℕ → ℕ
calculate_billing_cooldown billing_error_count =
    let base_ms = 5 * 60 * 60 * 1000 in
    let max_ms = 24 * 60 * 60 * 1000 in
    let n = max 1 billing_error_count in
    let exp = min (n - 1) 10 in min max_ms (base_ms * 2 ^ exp) * millisecond

-- The reset at the head of `MarkFailure`. A clock that went back gives 0 here, which like Go's
-- negative difference is not above the window.
unfoldable pub expire_window : ℕ → ℕ → CooldownEntry → CooldownEntry
expire_window window now e =
    if not (e.last_failure == 0) && ltb window (now - e.last_failure)
    then record e { error_count = 0; failure_counts = no_failures }
    else e

-- The rest of `MarkFailure`.
unfoldable pub add_failure : ℕ → FailoverReason → CooldownEntry → CooldownEntry
unfolding is_billing
add_failure now reason e =
    let count = e.error_count + 1 in
    let counts = count_failure reason e.failure_counts in
    let e' = record e { error_count = count; failure_counts = counts; last_failure = now } in
    if is_billing reason
    then record e' {
      disabled_until = now + calculate_billing_cooldown (counts billing);
      disabled_reason = some billing;
    }
    else record e' { cooldown_end = now + calculate_standard_cooldown count }

unfoldable pub mark_failure : ℕ → String → FailoverReason → CooldownTracker → CooldownTracker
mark_failure now provider reason ct =
    let e = expire_window ct.failure_window now (get_or_create ct provider) in
    record ct { entries = insert provider (add_failure now reason e) ct.entries }

unfoldable pub reset_entry : CooldownEntry → CooldownEntry
reset_entry e = record e {
  error_count = 0;
  failure_counts = no_failures;
  cooldown_end = 0;
  disabled_until = 0;
  disabled_reason = none;
}

unfoldable pub mark_success : String → CooldownTracker → CooldownTracker
mark_success provider ct = elim (lookup provider ct.entries) [
  | none ↦ ct
  | some e ↦ record ct { entries = insert provider (reset_entry e) ct.entries }
]

-- `!t.IsZero() && now.Before(t)`
abbrev pub is_pending : ℕ → ℕ → Bool
is_pending now t = not (t == 0) && ltb now t

-- The body of `IsAvailable` from `entry := ct.entries[provider]` on.
unfoldable pub entry_available : ℕ → Option CooldownEntry → Bool
entry_available now none = true
entry_available now (some e) =
    if is_pending now e.disabled_until
    then false
    else if is_pending now e.cooldown_end
    then false
    else true

unfoldable pub is_available : ℕ → String → CooldownTracker → Bool
is_available now provider ct = entry_available now (lookup provider ct.entries)

-- `if d := t.Sub(now); d > remaining { remaining = d }`, guarded by `is_pending`
abbrev pub extend_remaining : ℕ → ℕ → ℕ → ℕ
extend_remaining now t remaining =
    if is_pending now t then (if ltb remaining (t - now) then t - now else remaining) else remaining

unfoldable pub entry_remaining : ℕ → Option CooldownEntry → ℕ
entry_remaining now none = 0
entry_remaining now (some e) =
    extend_remaining now e.cooldown_end (extend_remaining now e.disabled_until 0)

unfoldable pub cooldown_remaining : ℕ → String → CooldownTracker → ℕ
cooldown_remaining now provider ct = entry_remaining now (lookup provider ct.entries)

abbrev pub entry_errors : Option CooldownEntry → ℕ
entry_errors none = 0
entry_errors (some e) = e.error_count

unfoldable pub error_count : String → CooldownTracker → ℕ
error_count provider ct = entry_errors (lookup provider ct.entries)

abbrev pub entry_failures : FailoverReason → Option CooldownEntry → ℕ
entry_failures reason none = 0
entry_failures reason (some e) = e.failure_counts reason

unfoldable pub failure_count : String → FailoverReason → CooldownTracker → ℕ
failure_count provider reason ct = entry_failures reason (lookup provider ct.entries)
