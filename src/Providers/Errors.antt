-- ===== src/Providers/Errors.antt =====
-- The errors that reach the classifier: context.Canceled, context.DeadlineExceeded, an error that
-- wraps another (`fmt.Errorf` with `%w`), a `FailoverError` of types.go, and any other error.
-- What the Go library does with texts is a parameter.
use ottie.Prelude.{ℕ, String, Bool, true, false, Option, none, some}
use ottie.Providers.Reason.{FailoverReason}

pub data Error : Type 0 where
  canceled deadline_exceeded : Error
  plain : String → Error
  wrap : String → Error → Error
  failover : FailoverReason → String → String → ℕ → Error → Error

pub record FailoverError : Type 0 where
  pub reason : FailoverReason
  pub provider : String
  pub model : String
  pub status : ℕ
  pub wrapped : Error

-- A `*FailoverError` as an `error`.
abbrev pub as_error : FailoverError → Error
as_error fe = failover fe.reason fe.provider fe.model fe.status fe.wrapped

-- errors.Is(err, context.Canceled)
unfoldable pub is_canceled : Error → Bool
is_canceled canceled = true
is_canceled deadline_exceeded = false
is_canceled (plain msg) = false
is_canceled (wrap msg e) = is_canceled e
is_canceled (failover r p m s e) = is_canceled e

-- errors.Is(err, context.DeadlineExceeded)
unfoldable pub is_deadline : Error → Bool
is_deadline canceled = false
is_deadline deadline_exceeded = true
is_deadline (plain msg) = false
is_deadline (wrap msg e) = is_deadline e
is_deadline (failover r p m s e) = is_deadline e

-- The loop of `ClassifyError` over errors.Unwrap, up to the first `*FailoverError`.
unfoldable pub find_failover : Error → Option FailoverError
find_failover canceled = none
find_failover deadline_exceeded = none
find_failover (plain msg) = none
find_failover (wrap msg e) = find_failover e
find_failover (failover r p m s e) =
    some (record { reason = r; provider = p; model = m; status = s; wrapped = e })

-- err.Error(), strings.ToLower, strings.Contains, regexp.MatchString and regexp.FindStringSubmatch
-- (its first group).
pub record GoText : Type 0 where
  pub error_text : Error → String
  pub to_lower : String → String
  pub contains : String → String → Bool
  pub match_string : String → String → Bool
  pub find_submatch : String → String → Option String
