-- ===== src/Providers/Fallback.antt =====
-- pkg/providers/fallback.go: FallbackChain.Execute and ExecuteImage over a list of candidates.
-- What the world does in the round of candidate `i` is a `Round`: whether the context is canceled
-- before and after the call, the clock at each reading, what the callback `run` returns and how long
-- it takes. The response of a model is of any type `R`.
pub mod Rounds
pub mod Outcomes
pub mod Aborts
use ottie.Prelude.{
  ℕ, suc, ◌+◌, ◌*◌, ◌/◌, String, Bool, true, false, not, ◌||◌, Option, none, some, List, [], ◌∷◌,
  ◌++◌, if◌then◌else◌,
}
use ottie.Providers.Reason.{FailoverReason, rate_limit, format, is_retriable, should_fallback}
use ottie.Providers.Errors.{Error, FailoverError, GoText, as_error}
use ottie.Providers.Classify.{
  classify_error, is_image_dimension_error, is_image_size_error, classified,
}
use ottie.Providers.Cooldown.{
  CooldownTracker, is_available, cooldown_remaining, mark_success, mark_failure,
}

pub record FallbackCandidate : Type 0 where
  pub provider : String
  pub model : String

-- The error of an attempt: "provider %s in cooldown (%s remaining)", or one that `run` returned.
pub data AttemptError : Type 0 where
  in_cooldown : String → ℕ → AttemptError
  attempt_failed : Error → AttemptError

pub record FallbackAttempt : Type 0 where
  pub provider : String
  pub model : String
  pub error : AttemptError
  pub reason : Option FailoverReason
  pub duration : ℕ
  pub skipped : Bool

pub data Outcome (R : Type 0) : Type 0 where
  response : R → Outcome R
  failure : Error → Outcome R

pub record Round (R : Type 0) : Type 0 where
  pub canceled_before : Bool
  pub check_now : ℕ
  pub remaining_now : ℕ
  pub outcome : Outcome R
  pub elapsed : ℕ
  pub canceled_after : Bool
  pub failure_now : ℕ

pub record FallbackResult (R : Type 0) : Type 0 where
  pub response : R
  pub provider : String
  pub model : String
  pub attempts : List FallbackAttempt

-- What `Execute` returns: a result, context.Canceled, an error, or `FallbackExhaustedError`.
pub data Returned (R : Type 0) : Type 0 where
  no_candidates : Returned R
  answered : FallbackResult R → Returned R
  canceled : Returned R
  failed : Error → Returned R
  exhausted : List FallbackAttempt → Returned R

-- One round of the loop returns from `Execute`, or goes on to the next candidate. The attempts that
-- the source appends before it returns an error are dropped with `result`.
pub data Next (R : Type 0) : Type 0 where
  return : Returned R → CooldownTracker → Next R
  continue : List FallbackAttempt → CooldownTracker → Next R

-- remaining.Round(time.Second), for a duration that is not negative
abbrev pub round_second : ℕ → ℕ
round_second d = (d + 500_000_000) / 1_000_000_000 * 1_000_000_000

abbrev pub is_empty {ℓ} : {A : Type ℓ} → List A → Bool
is_empty [] = true
is_empty (x ∷ xs) = false

module _ {R : Type 0} where
  abbrev pub skipped_attempt : Round R → FallbackCandidate → CooldownTracker → FallbackAttempt
  skipped_attempt r c ct = record {
    provider = c.provider;
    model = c.model;
    error =
        in_cooldown c.provider (round_second (cooldown_remaining r.remaining_now c.provider ct));
    reason = some rate_limit;
    duration = 0;
    skipped = true;
  }

  abbrev pub failed_attempt :
      Round R → FallbackCandidate → Error → Option FailoverReason → FallbackAttempt
  failed_attempt r c e reason = record {
    provider = c.provider;
    model = c.model;
    error = attempt_failed e;
    reason = reason;
    duration = r.elapsed;
    skipped = false;
  }

  -- The tail of a round: `MarkFailure`, the attempt, and the test for the last candidate.
  unfoldable pub fail_over :
      Round R
      → FallbackCandidate
      → Bool
      → FailoverError
      → List FallbackAttempt
      → CooldownTracker
      → Next R
  fail_over r c last fe attempts ct =
      let ct' = mark_failure r.failure_now c.provider fe.reason ct in
      let attempts' = attempts ++ (failed_attempt r c (as_error fe) (some fe.reason) ∷ []) in
      if last then return (exhausted attempts') ct' else continue attempts' ct'

  -- What follows `failErr := ClassifyError(…)`.
  unfoldable pub on_classified :
      Round R
      → FallbackCandidate
      → Bool
      → Error
      → Option FailoverError
      → List FallbackAttempt
      → CooldownTracker
      → Next R
  on_classified r c last err none attempts ct = return (failed err) ct
  on_classified r c last err (some fe) attempts ct =
      if not (is_retriable fe.reason)
      then return (failed (as_error fe)) ct
      else if not (should_fallback fe.reason)
      then return (failed (as_error fe)) ct
      else fail_over r c last fe attempts ct

module _ {R : Type 0} (go : GoText) where
  -- What follows the call of `run`.
  unfoldable pub on_outcome :
      Round R
      → FallbackCandidate
      → Bool
      → Outcome R
      → List FallbackAttempt
      → CooldownTracker
      → Next R
  on_outcome r c last (response x) attempts ct =
      return
        (answered
          (record { response = x; provider = c.provider; model = c.model; attempts = attempts }))
        (mark_success c.provider ct)
  on_outcome r c last (failure err) attempts ct =
      if r.canceled_after
      then return canceled ct
      else on_classified r c last err (classify_error go err c.provider c.model) attempts ct

  -- The body of the loop of `Execute`.
  unfoldable pub try_candidate :
      Round R → FallbackCandidate → Bool → List FallbackAttempt → CooldownTracker → Next R
  try_candidate r c last attempts ct =
      if r.canceled_before
      then return canceled ct
      else if not (is_available r.check_now c.provider ct)
      then continue (attempts ++ (skipped_attempt r c ct ∷ [])) ct
      else on_outcome r c last r.outcome attempts ct

  unfoldable pub execute_from :
      (ℕ → Round R)
      → ℕ
      → List FallbackCandidate
      → List FallbackAttempt
      → CooldownTracker
      → Returned R × CooldownTracker
  execute_from rounds i [] attempts ct = (exhausted attempts, ct)
  execute_from rounds i (c ∷ cs) attempts ct =
      elim (try_candidate (rounds i) c (is_empty cs) attempts ct) [
        | return x ct' ↦ (x, ct')
        | continue attempts' ct' ↦ execute_from rounds (suc i) cs attempts' ct'
      ]

  unfoldable pub execute :
      (ℕ → Round R) → List FallbackCandidate → CooldownTracker → Returned R × CooldownTracker
  unfolding execute_from
  execute rounds cs ct = if is_empty cs then (no_candidates, ct) else execute_from rounds 0 cs [] ct

  -- The body of the loop of `ExecuteImage`: no cooldowns, and an image error ends the chain.
  unfoldable pub try_image :
      Round R
      → FallbackCandidate
      → Bool
      → Outcome R
      → List FallbackAttempt
      → CooldownTracker
      → Next R
  try_image r c last (response x) attempts ct =
      return
        (answered
          (record { response = x; provider = c.provider; model = c.model; attempts = attempts }))
        ct
  try_image r c last (failure err) attempts ct =
      let msg = go.to_lower (go.error_text err) in
      let attempts' = attempts ++ (failed_attempt r c err none ∷ []) in
      if r.canceled_after
      then return canceled ct
      else if is_image_dimension_error go msg || is_image_size_error go msg
      then return (failed (as_error (classified err c.provider c.model format 0))) ct
      else if last
      then return (exhausted attempts') ct
      else continue attempts' ct

  unfoldable pub execute_image_from :
      (ℕ → Round R)
      → ℕ
      → List FallbackCandidate
      → List FallbackAttempt
      → CooldownTracker
      → Returned R × CooldownTracker
  execute_image_from rounds i [] attempts ct = (exhausted attempts, ct)
  execute_image_from rounds i (c ∷ cs) attempts ct =
      let r = rounds i in
      elim (if r.canceled_before
        then return canceled ct
        else try_image r c (is_empty cs) r.outcome attempts ct) [
          | return x ct' ↦ (x, ct')
          | continue attempts' ct' ↦ execute_image_from rounds (suc i) cs attempts' ct'
        ]

  unfoldable pub execute_image :
      (ℕ → Round R) → List FallbackCandidate → CooldownTracker → Returned R × CooldownTracker
  unfolding execute_image_from
  execute_image rounds cs ct =
      if is_empty cs then (no_candidates, ct) else execute_image_from rounds 0 cs [] ct
