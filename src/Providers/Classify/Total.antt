-- ===== src/Providers/Classify/Total.antt =====
-- `ClassifyError` always classifies, and its result is stable.
use ottie.Prelude.{
  ◌≡◌, ◌↔◌, refl, String, true, false, ◌||◌, none, some, arith, Bool-cases, inl, inr, ◌<◌,
}
use ottie.Providers.Reason.{FailoverReason}
use ottie.Providers.Errors.{
  Error, canceled, deadline_exceeded, plain, wrap, failover, FailoverError, GoText, as_error,
  is_canceled, is_deadline, find_failover,
}
use ottie.Providers.Classify.{
  classified, classify_error, from_text, from_status, from_message, classify_by_status,
  extract_http_status, is_image_dimension_error, is_image_size_error,
}

-- A wrapped error that the chain search finds is neither canceled nor past its deadline, unless the
-- whole chain is.
find_failover-chain :
    (err : Error) (fe : FailoverError)
    → find_failover err ≡ some fe
    → (is_canceled fe.wrapped ≡ is_canceled err) × (is_deadline fe.wrapped ≡ is_deadline err)
unfolding find_failover is_canceled is_deadline
find_failover-chain canceled fe h = cc
find_failover-chain deadline_exceeded fe h = cc
find_failover-chain (plain m) fe h = cc
find_failover-chain (wrap m e) fe h = find_failover-chain e fe h
find_failover-chain (failover r p m s e) fe h = ground arith

module _ (go : GoText) where
  module _ (err : Error) (p m : String) where
    from_text-wrapped : (msg : String) → (from_text go err p m msg).wrapped ≡ err
    unfolding from_text from_status from_message
    from_text-wrapped msg = ground arith

    -- `ClassifyError` returns nil exactly for an error that is, or wraps, context.Canceled.
    pub classify_error-none : (classify_error go err p m ≡ none) ↔ (is_canceled err ≡ true)
    unfolding classify_error
    classify_error-none = (λ h. ground arith, λ h. rw h refl)

  wrapped_cases :
      (err : Error) (p m : String) (fe : FailoverError)
      → classify_error go err p m ≡ some fe
      → (is_canceled fe.wrapped ≡ false) × (is_deadline fe.wrapped ≡ is_deadline err)
  unfolding classify_error
  wrapped_cases err p m fe h = ground (
    arith,
    find_failover-chain err fe,
    from_text-wrapped err p m (go.to_lower (go.error_text err)),
  )

  -- Classification is stable: classifying a classified error again, for whatever provider and model,
  -- gives an error with the same reason.
  pub classify_again :
      (err : Error) (p m p' m' : String) (fe : FailoverError)
      → classify_error go err p m ≡ some fe
      → (fe' : FailoverError) × (classify_error go (as_error fe) p' m' ≡ some fe')
        × (fe'.reason ≡ fe.reason)
  unfolding classify_error is_canceled is_deadline find_failover
  classify_again err p m p' m' fe h = elim (Bool-cases (is_deadline fe.wrapped)) [
    | inl d ↦ (
      classified (as_error fe) p' m' FailoverReason.timeout 0,
      ground (arith, wrapped_cases err p m fe),
      ground (arith, wrapped_cases err p m fe),
    )
    | inr d ↦ (fe, ground (arith, wrapped_cases err p m fe), refl)
  ]

  -- A status code decides before any message pattern: an error whose text holds a status code that
  -- `classifyByStatus` knows, and no image error, gets that reason and status, whatever patterns match
  -- its text.
  pub status_decides :
      (err : Error) (p m : String) (reason : FailoverReason)
      → is_canceled err ≡ false
      → is_deadline err ≡ false
      → find_failover err ≡ none
      → let msg = go.to_lower (go.error_text err) in
        (is_image_dimension_error go msg || is_image_size_error go msg) ≡ false
        → 0 < extract_http_status go msg
        → classify_by_status (extract_http_status go msg) ≡ some reason
        → classify_error go err p m ≡ some (classified err p m reason (extract_http_status go msg))
  unfolding classify_error from_text from_status
  status_decides err p m reason c d f i s r = ground arith
