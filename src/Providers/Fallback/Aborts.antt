-- ===== src/Providers/Fallback/Aborts.antt =====
-- Errors that end the chain although other candidates are left.
use ottie.Prelude.{◌≡◌, refl, ℕ, Bool, true, false, some, List, [], ◌∷◌}
use ottie.Providers.Reason.{model_not_found, is_retriable, should_fallback}
use ottie.Providers.Errors.{Error, FailoverError, GoText, as_error}
use ottie.Providers.Classify.{classify_error}
use ottie.Providers.Cooldown.{CooldownTracker, is_available}
use ottie.Providers.Fallback.{
  FallbackCandidate, Round, failure, failed, return, execute, execute_from, try_candidate,
  on_outcome, on_classified, is_empty,
}

module _ {R : Type 0} (go : GoText) where
  aborts :
      (r : Round R) (c : FallbackCandidate) (last : Bool) (ct : CooldownTracker) (err : Error)
      (fe : FailoverError)
      → r.canceled_before ≡ false
      → is_available r.check_now c.provider ct ≡ true
      → r.outcome ≡ failure err
      → r.canceled_after ≡ false
      → classify_error go err c.provider c.model ≡ some fe
      → is_retriable fe.reason ≡ false
      → try_candidate go r c last [] ct ≡ return (failed (as_error fe)) ct
  unfolding try_candidate on_outcome on_classified
  aborts r c last ct err fe before on out after cl fatal =
      rw (before, on, out, on_outcome, after, cl, on_classified, fatal) refl

  -- Where the first candidate is available and its error classifies as model_not_found, Execute returns
  -- that error, tries no other candidate and marks no failure, although ShouldFallback answers true for
  -- that reason.
  pub model_not_found_stops :
      (rounds : ℕ → Round R) (c : FallbackCandidate) (cs : List FallbackCandidate)
      (ct : CooldownTracker) (err : Error) (fe : FailoverError)
      → (rounds 0).canceled_before ≡ false
      → is_available (rounds 0).check_now c.provider ct ≡ true
      → (rounds 0).outcome ≡ failure err
      → (rounds 0).canceled_after ≡ false
      → classify_error go err c.provider c.model ≡ some fe
      → fe.reason ≡ model_not_found
      → (execute go rounds (c ∷ cs) ct ≡ (failed (as_error fe), ct))
        × (should_fallback fe.reason ≡ true)
  unfolding execute execute_from is_retriable should_fallback
  model_not_found_stops rounds c cs ct err fe before on out after cl m =
      let fatal : is_retriable fe.reason ≡ false = rw m refl in
      (
        rw
            (
              execute,
              aborts (rounds 0) c (is_empty cs) ct err fe before on out after cl fatal,
              execute_from,
            )
            refl,
        rw m refl,
      )
