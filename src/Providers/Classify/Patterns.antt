-- ===== src/Providers/Classify/Patterns.antt =====
-- pkg/providers/error_classifier.go: the pattern tables. `rxp` patterns are matched without case.
use ottie.Prelude.{String, List, [], ◌∷◌}

pub data ErrorPattern : Type 0 where
  substr rxp : String → ErrorPattern

unfoldable pub rate_limit_patterns : List ErrorPattern
rate_limit_patterns =
    rxp "rate[_ ]limit"
    ∷ substr "too many requests"
    ∷ substr "429"
    ∷ substr "exceeded your current quota"
    ∷ rxp "exceeded.*quota"
    ∷ rxp "resource has been exhausted"
    ∷ rxp "resource.*exhausted"
    ∷ substr "resource_exhausted"
    ∷ substr "quota exceeded"
    ∷ substr "usage limit"
    ∷ []

unfoldable pub overloaded_patterns : List ErrorPattern
overloaded_patterns =
    rxp "overloaded_error" ∷ rxp "\"type\"\\s*:\\s*\"overloaded_error\"" ∷ substr "overloaded" ∷ []

unfoldable pub timeout_patterns : List ErrorPattern
timeout_patterns =
    substr "timeout"
    ∷ substr "timed out"
    ∷ substr "deadline exceeded"
    ∷ substr "context deadline exceeded"
    ∷ []

unfoldable pub billing_patterns : List ErrorPattern
billing_patterns =
    rxp "\\b402\\b"
    ∷ substr "payment required"
    ∷ substr "insufficient credits"
    ∷ substr "credit balance"
    ∷ substr "plans & billing"
    ∷ substr "insufficient balance"
    ∷ substr "insufficient_quota"
    ∷ substr "credits have been exhausted"
    ∷ substr "top up your credits"
    ∷ substr "billing hard limit"
    ∷ substr "plan does not include"
    ∷ []

unfoldable pub auth_patterns : List ErrorPattern
auth_patterns =
    rxp "invalid[_ ]?api[_ ]?key"
    ∷ substr "incorrect api key"
    ∷ substr "invalid token"
    ∷ substr "authentication"
    ∷ substr "re-authenticate"
    ∷ substr "oauth token refresh failed"
    ∷ substr "unauthorized"
    ∷ substr "forbidden"
    ∷ substr "access denied"
    ∷ substr "expired"
    ∷ substr "token has expired"
    ∷ rxp "\\b401\\b"
    ∷ rxp "\\b403\\b"
    ∷ substr "no credentials found"
    ∷ substr "no api key found"
    ∷ []

unfoldable pub format_patterns : List ErrorPattern
format_patterns =
    substr "string should match pattern"
    ∷ substr "tool_use.id"
    ∷ substr "tool_use_id"
    ∷ substr "messages.1.content.1.tool_use.id"
    ∷ substr "invalid request format"
    ∷ []

unfoldable pub image_dimension_patterns : List ErrorPattern
image_dimension_patterns = rxp "image dimensions exceed max" ∷ []

unfoldable pub image_size_patterns : List ErrorPattern
image_size_patterns = rxp "image exceeds.*mb" ∷ []

unfoldable pub model_not_found_patterns : List ErrorPattern
model_not_found_patterns =
    substr "model not found"
    ∷ substr "does not exist"
    ∷ substr "model_not_found"
    ∷ rxp "model.*not.*found"
    ∷ []

unfoldable pub session_expired_patterns : List ErrorPattern
session_expired_patterns =
    substr "session expired" ∷ substr "session_expired" ∷ substr "session has expired" ∷ []

unfoldable pub context_overflow_patterns : List ErrorPattern
context_overflow_patterns =
    rxp "context[_ ]length"
    ∷ substr "maximum context length"
    ∷ substr "prompt is too long"
    ∷ substr "messages_too_long"
    ∷ substr "input is too long"
    ∷ rxp "exceed.*context.*window"
    ∷ substr "token limit"
    ∷ substr "too many tokens"
    ∷ substr "max_tokens"
    ∷ substr "maximum number of tokens"
    ∷ []

unfoldable pub payload_too_large_patterns : List ErrorPattern
payload_too_large_patterns =
    rxp "\\b413\\b"
    ∷ substr "payload too large"
    ∷ substr "request entity too large"
    ∷ substr "request body too large"
    ∷ []

unfoldable pub thinking_signature_patterns : List ErrorPattern
thinking_signature_patterns =
    substr "thinking block signature"
    ∷ substr "thinking.signature"
    ∷ substr "extended_thinking_signature"
    ∷ substr "invalid_thinking"
    ∷ []

unfoldable pub long_context_tier_patterns : List ErrorPattern
long_context_tier_patterns =
    substr "long_context_tier"
    ∷ substr "long context tier"
    ∷ rxp "context.*tier.*not.*enabled"
    ∷ substr "long context feature not enabled"
    ∷ substr "extra usage tier required"
    ∷ substr "extra_usage_tier"
    ∷ []

unfoldable pub auth_permanent_patterns : List ErrorPattern
auth_permanent_patterns =
    substr "account is deactivated"
    ∷ substr "account has been suspended"
    ∷ substr "organization has been disabled"
    ∷ substr "user is not authorized"
    ∷ []

abbrev pub http_status_patterns : List String
http_status_patterns =
    "status[:\\s]+(\\d{3})" ∷ "http[/\\s]+\\d*\\.?\\d*\\s+(\\d{3})" ∷ "\\b([3-5]\\d{2})\\b" ∷ []
