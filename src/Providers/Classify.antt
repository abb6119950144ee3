-- ===== src/Providers/Classify.antt =====
-- pkg/providers/error_classifier.go: from an error to a `FailoverError`.
pub mod Patterns
pub mod Total
pub mod Priority
use Prim.Native.Char.{code}
use ottie.Prelude.{
  ℕ, ◌+◌, ◌-◌, ◌*◌, String, Bool, true, false, ◌&&◌, ◌||◌, Option, none, some, List, [], ◌∷◌, ltb,
  leb, ◌==◌, if◌then◌else◌, str_eq, not,
}
use ottie.Providers.Reason.{
  FailoverReason, auth, auth_permanent, rate_limit, billing, timeout, context_overflow,
  payload_too_large, format, overloaded, model_not_found, session_expired, thinking_signature,
  long_context_tier, unknown,
}
use ottie.Providers.Errors.{Error, FailoverError, GoText, is_canceled, is_deadline, find_failover}
use Patterns.{
  ErrorPattern, substr, rxp, rate_limit_patterns, overloaded_patterns, timeout_patterns,
  billing_patterns, auth_patterns, format_patterns, image_dimension_patterns, image_size_patterns,
  model_not_found_patterns, session_expired_patterns, context_overflow_patterns,
  payload_too_large_patterns, thinking_signature_patterns, long_context_tier_patterns,
  auth_permanent_patterns, http_status_patterns,
}

-- The codes of the characters of a text.
abbrev pub codes : String → List ℕ
codes String.[] = []
codes (String.◌∷◌ c s) = code c ∷ codes s

-- The loop of `parseDigits`.
unfoldable pub add_digits : ℕ → List ℕ → ℕ
add_digits n [] = n
add_digits n (c ∷ cs) = add_digits (if leb b'0' c && leb c b'9' then n * 10 + (c - b'0') else n) cs

unfoldable pub parse_digits : String → ℕ
unfolding add_digits
parse_digits s = add_digits 0 (codes s)

-- The two maps of status codes.
unfoldable pub is_overloaded_status : ℕ → Bool
is_overloaded_status s = s == 503 || s == 529

unfoldable pub is_transient_status : ℕ → Bool
is_transient_status s = s == 500 || s == 502 || s == 521 || s == 522 || s == 523 || s == 524

unfoldable pub classify_by_status : ℕ → Option FailoverReason
unfolding is_overloaded_status is_transient_status
classify_by_status status =
    if status == 401 || status == 403
    then some auth
    else if status == 402
    then some billing
    else if status == 404
    then some model_not_found
    else if status == 408
    then some timeout
    else if status == 413
    then some payload_too_large
    else if status == 429
    then some rate_limit
    else if status == 400
    then some format
    else if is_overloaded_status status
    then some overloaded
    else if is_transient_status status
    then some timeout
    else none

module _ (err : Error) (provider model : String) where
  -- `&FailoverError{Reason: …, Provider: provider, Model: model, Status: …, Wrapped: err}`
  abbrev pub classified : FailoverReason → ℕ → FailoverError
  classified reason status = record {
    reason = reason;
    provider = provider;
    model = model;
    status = status;
    wrapped = err;
  }

module _ (go : GoText) where
  open go use {error_text, to_lower, contains, match_string, find_submatch}

  -- One round of `matchesAny`; `rxp` prefixes `(?i)`, which `match_string` is taken to do.
  unfoldable pub matches : String → ErrorPattern → Bool
  matches msg (rxp r) = match_string r msg
  matches msg (substr s) = not (str_eq s "") && contains msg s

  unfoldable pub matches_any : String → List ErrorPattern → Bool
  matches_any msg [] = false
  matches_any msg (p ∷ ps) = if matches msg p then true else matches_any msg ps

  unfoldable pub is_image_dimension_error : String → Bool
  is_image_dimension_error msg = matches_any msg image_dimension_patterns

  unfoldable pub is_image_size_error : String → Bool
  is_image_size_error msg = matches_any msg image_size_patterns

  -- The loop of `extractHTTPStatus`.
  unfoldable pub first_status : String → List String → ℕ
  first_status msg [] = 0
  first_status msg (p ∷ ps) = elim (find_submatch p msg) [
    | some digits ↦ parse_digits digits
    | none ↦ first_status msg ps
  ]

  unfoldable pub extract_http_status : String → ℕ
  extract_http_status msg = first_status msg http_status_patterns

  unfoldable pub classify_by_message : String → Option FailoverReason
  classify_by_message msg =
      if matches_any msg context_overflow_patterns
      then some context_overflow
      else if matches_any msg payload_too_large_patterns
      then some payload_too_large
      else if matches_any msg thinking_signature_patterns
      then some thinking_signature
      else if matches_any msg billing_patterns
      then some billing
      else if matches_any msg long_context_tier_patterns
      then some long_context_tier
      else if matches_any msg rate_limit_patterns
      then some rate_limit
      else if matches_any msg overloaded_patterns
      then some overloaded
      else if matches_any msg timeout_patterns
      then some timeout
      else if matches_any msg model_not_found_patterns
      then some model_not_found
      else if matches_any msg session_expired_patterns
      then some session_expired
      else if matches_any msg auth_permanent_patterns
      then some auth_permanent
      else if matches_any msg auth_patterns
      then some auth
      else if matches_any msg format_patterns
      then some format
      else none

  module _ (err : Error) (provider model : String) where
    -- The end of `ClassifyError`: the message patterns, and `unknown`.
    unfoldable pub from_message : String → FailoverError
    from_message msg = elim (classify_by_message msg) [
      | some reason ↦ classified err provider model reason 0
      | none ↦ classified err provider model unknown 0
    ]

    -- `ClassifyError` from the status code on.
    unfoldable pub from_status : String → FailoverError
    from_status msg =
        let status = extract_http_status msg in
        elim (if ltb 0 status then classify_by_status status else none) [
          | some reason ↦ classified err provider model reason status
          | none ↦ from_message msg
        ]

    -- `ClassifyError` from `strings.ToLower(err.Error())` on.
    unfoldable pub from_text : String → FailoverError
    from_text msg =
        if is_image_dimension_error msg || is_image_size_error msg
        then classified err provider model format 0
        else from_status msg

    -- `none` is Go's nil. The nil input is not an `Error`.
    unfoldable pub classify_error : Option FailoverError
    classify_error =
        if is_canceled err
        then none
        else if is_deadline err
        then some (classified err provider model timeout 0)
        else elim (find_failover err) [
          | some fe ↦ some fe
          | none ↦ some (from_text (to_lower (error_text err)))
        ]
