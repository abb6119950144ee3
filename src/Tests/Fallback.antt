-- ===== src/Tests/Fallback.antt =====
-- A chain of two candidates, the first of which is refused.
use ottie.Prelude.{ℕ, zero, suc, ◌≡◌, refl, String, true, false, some, [], ◌∷◌}
use ottie.Prelude.Dict.{lookup}
use ottie.Providers.Reason.{model_not_found}
use ottie.Providers.Errors.{FailoverError, as_error, is_canceled, is_deadline, find_failover, plain}
use ottie.Providers.Classify.{classify_error}
use ottie.Providers.Cooldown.{new_cooldown_tracker, is_available, entry_available}
use ottie.Providers.Fallback.{FallbackCandidate, Round, response, failure, execute}
use ottie.Providers.Fallback.Outcomes.{Explained, execute-Explained}
use ottie.Tests.Classify.{whole_texts}

abbrev primary : FallbackCandidate
primary = record { provider = "openai"; model = "a" }

abbrev backup : FallbackCandidate
backup = record { provider = "groq"; model = "b" }

abbrev refused_round : Round String
refused_round = record {
  canceled_before = false;
  check_now = 10;
  remaining_now = 10;
  outcome = failure (plain "status 401");
  elapsed = 3;
  canceled_after = false;
  failure_now = 13;
}

abbrev two_rounds : ℕ → Round String
two_rounds zero = refused_round
two_rounds (suc i) = record refused_round { outcome = response "hello" }

execute-Explained_example :
    let (x, ct) = execute whole_texts two_rounds (primary ∷ backup ∷ []) new_cooldown_tracker in
    Explained whole_texts two_rounds (primary ∷ backup ∷ []) [] new_cooldown_tracker 0 x ct
execute-Explained_example =
    execute-Explained whole_texts two_rounds primary (backup ∷ []) new_cooldown_tracker

abbrev gone : FailoverError
gone = record {
  reason = model_not_found;
  provider = "openai";
  model = "a";
  status = 404;
  wrapped = plain "status 404";
}

abbrev gone_rounds : ℕ → Round String
gone_rounds i = record refused_round { outcome = failure (as_error gone) }

is_open : is_available 10 "openai" new_cooldown_tracker ≡ true
unfolding is_available entry_available new_cooldown_tracker lookup
is_open = refl

is_gone : classify_error whole_texts (as_error gone) "openai" "a" ≡ some gone
unfolding classify_error is_canceled is_deadline find_failover
is_gone = refl
