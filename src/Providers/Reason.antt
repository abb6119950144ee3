-- ===== src/Providers/Reason.antt =====
-- pkg/providers/types.go: the failure reasons and the recovery hints that they carry.
use ottie.Prelude.{Bool, true, false}

-- The constants of `FailoverReason`. The empty reason is `none` of an `Option`.
pub data FailoverReason : Type 0 where
  auth auth_permanent rate_limit billing timeout context_overflow : FailoverReason
  payload_too_large format overloaded model_not_found session_expired : FailoverReason
  thinking_signature long_context_tier unknown : FailoverReason

unfoldable pub FailoverReason-discrete : Discrete FailoverReason
FailoverReason-discrete = hlevel

-- FailoverError.IsRetriable
unfoldable pub is_retriable : FailoverReason → Bool
is_retriable format = false
is_retriable model_not_found = false
is_retriable auth_permanent = false
is_retriable _ = true

-- FailoverError.ShouldCompress
unfoldable pub should_compress : FailoverReason → Bool
should_compress context_overflow = true
should_compress payload_too_large = true
should_compress _ = false

-- FailoverError.ShouldRotateCredential
unfoldable pub should_rotate_credential : FailoverReason → Bool
should_rotate_credential billing = true
should_rotate_credential auth = true
should_rotate_credential _ = false

-- FailoverError.ShouldFallback
unfoldable pub should_fallback : FailoverReason → Bool
should_fallback model_not_found = true
should_fallback overloaded = true
should_fallback billing = true
should_fallback auth_permanent = true
should_fallback long_context_tier = true
should_fallback rate_limit = true
should_fallback timeout = true
should_fallback auth = true
should_fallback _ = false

-- The test `reason == FailoverBilling`.
unfoldable pub is_billing : FailoverReason → Bool
is_billing billing = true
is_billing _ = false
