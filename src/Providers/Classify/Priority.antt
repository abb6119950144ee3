-- ===== src/Providers/Classify/Priority.antt =====
-- `classifyByMessage` is the first match in a table of reasons.
use ottie.Prelude.{
  ◌≡◌, String, true, false, Option, none, some, List, [], ◌∷◌, ◌++◌, if◌then◌else◌, All,
}
use ottie.Providers.Reason.{
  FailoverReason, auth, auth_permanent, rate_limit, billing, timeout, context_overflow,
  payload_too_large, format, overloaded, model_not_found, session_expired, thinking_signature,
  long_context_tier,
}
use ottie.Providers.Errors.{GoText}
use ottie.Providers.Classify.{matches_any}
use ottie.Providers.Classify.Patterns.{
  ErrorPattern, rate_limit_patterns, overloaded_patterns, timeout_patterns, billing_patterns,
  auth_patterns, format_patterns, model_not_found_patterns, session_expired_patterns,
  context_overflow_patterns, payload_too_large_patterns, thinking_signature_patterns,
  long_context_tier_patterns, auth_permanent_patterns,
}

abbrev pub Row : Type 0
Row = FailoverReason × List ErrorPattern

-- The documented priority: compression first, tiers after billing, permanent before transient auth.
abbrev pub priority : List Row
priority =
    (context_overflow, context_overflow_patterns)
    ∷ (payload_too_large, payload_too_large_patterns)
    ∷ (thinking_signature, thinking_signature_patterns)
    ∷ (billing, billing_patterns)
    ∷ (long_context_tier, long_context_tier_patterns)
    ∷ (rate_limit, rate_limit_patterns)
    ∷ (overloaded, overloaded_patterns)
    ∷ (timeout, timeout_patterns)
    ∷ (model_not_found, model_not_found_patterns)
    ∷ (session_expired, session_expired_patterns)
    ∷ (auth_permanent, auth_permanent_patterns)
    ∷ (auth, auth_patterns)
    ∷ (format, format_patterns)
    ∷ []

module _ (go : GoText) (msg : String) where
  abbrev Unmatched : Row → Type 0
  Unmatched row = matches_any go msg row.1 ≡ false

  first_match : List Row → Option FailoverReason
  first_match [] = none
  first_match ((r, ps) ∷ rows) = if matches_any go msg ps then some r else first_match rows

  -- A reason heads the first row that matches.
  abbrev pub IsFirst : FailoverReason → List Row → Type 0
  IsFirst r rows =
      (before : List Row) × (ps : List ErrorPattern) × (after : List Row) × (rows
        ≡ before ++ ((r, ps) ∷ after))
      × (matches_any go msg ps ≡ true)
      × All Unmatched before
