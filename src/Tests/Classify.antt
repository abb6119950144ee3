-- ===== src/Tests/Classify.antt =====
-- The classifier with plain searches in place of Go's text library.
use ottie.Prelude.{◌<◌, ◌≡◌, refl, String, false, ◌||◌, none, some, arith, str_eq, if◌then◌else◌}
use ottie.Providers.Reason.{auth}
use ottie.Providers.Errors.{
  Error, plain, wrap, GoText, is_canceled, is_deadline, find_failover, FailoverError,
}
use ottie.Providers.Classify.{
  classify_by_status, extract_http_status, first_status, is_image_dimension_error,
  is_image_size_error, classified, matches_any, matches, parse_digits, add_digits,
}
use ottie.Providers.Classify.Patterns.{image_dimension_patterns, image_size_patterns}

abbrev pub text_of : Error → String
text_of (plain msg) = msg
text_of (wrap msg e) = msg
text_of e = "error"

-- A text contains only itself, no pattern matches, and every pattern finds the status 401 in one text.
abbrev pub whole_texts : GoText
whole_texts = record {
  error_text = text_of;
  to_lower = λ s. s;
  contains = str_eq;
  match_string = λ r s. false;
  find_submatch = λ r s. if str_eq s "status 401" then some "401" else none;
}

abbrev denied : Error
denied = plain "status 401"

no_failover : find_failover denied ≡ none
unfolding find_failover
no_failover = refl

not_canceled : is_canceled denied ≡ false
unfolding is_canceled
not_canceled = refl

not_deadline : is_deadline denied ≡ false
unfolding is_deadline
not_deadline = refl

no_image :
    (is_image_dimension_error whole_texts "status 401"
      || is_image_size_error whole_texts "status 401")
    ≡ false
unfolding is_image_dimension_error is_image_size_error matches_any matches image_dimension_patterns
    image_size_patterns
no_image = refl

status_found : extract_http_status whole_texts "status 401" ≡ 401
unfolding extract_http_status first_status parse_digits add_digits
status_found = refl

status_positive : 0 < extract_http_status whole_texts "status 401"
status_positive = rw status_found (omega arith)

status_known : classify_by_status (extract_http_status whole_texts "status 401") ≡ some auth
unfolding classify_by_status
status_known = rw status_found refl

abbrev denied_error : FailoverError
denied_error = classified denied "openai" "m" auth (extract_http_status whole_texts "status 401")
