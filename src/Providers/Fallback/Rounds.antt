-- ===== src/Providers/Fallback/Rounds.antt =====
-- What one round of the loop of `Execute` does: it passes its candidate, or ends the loop.
use mathlib.Core.List.{map-append}
use mathlib.Core.Path.{subst}
use ottie.Prelude.{
  ℕ, suc, ◌≡◌, ◌⊎◌, inl, inr, refl, sym, Bool, true, false, Option, none, some, List, [], ◌∷◌, ◌++◌,
  map, arith, Bool-cases,
}
use ottie.Providers.Reason.{is_retriable, should_fallback}
use ottie.Providers.Errors.{Error, FailoverError, GoText, as_error}
use ottie.Providers.Classify.{classify_error}
use ottie.Providers.Cooldown.{CooldownTracker, is_available, mark_success, mark_failure}
use ottie.Providers.Fallback.{
  FallbackCandidate, FallbackAttempt, FallbackResult, Outcome, response, failure, Round, Returned,
  no_candidates, answered, canceled, failed, exhausted, return, continue, fail_over, on_classified,
  on_outcome, try_candidate, failed_attempt, skipped_attempt,
}

abbrev pub name_of : FallbackAttempt → FallbackCandidate
name_of a = record { provider = a.provider; model = a.model }

abbrev pub names : List FallbackAttempt → List FallbackCandidate
names = map name_of

names-snoc :
    (tried : List FallbackAttempt) (a : FallbackAttempt)
    → names (tried ++ (a ∷ [])) ≡ names tried ++ (name_of a ∷ [])
names-snoc tried a = map-append name_of tried (a ∷ [])

module _ {R : Type 0} (go : GoText) where
  -- The candidate was skipped in its cooldown, or failed for a reason that fails over, which marks
  -- its provider.
  abbrev pub Passes : Round R → FallbackCandidate → CooldownTracker → CooldownTracker → Type 0
  Passes r c ct ct' =
      (r.canceled_before ≡ false)
      × (((is_available r.check_now c.provider ct ≡ false) × (ct' ≡ ct))
          ⊎ ((err : Error) × (fe : FailoverError) × (is_available r.check_now c.provider ct ≡ true)
              × (r.outcome ≡ failure err)
              × (classify_error go err c.provider c.model ≡ some fe)
              × (is_retriable fe.reason ≡ true)
              × (should_fallback fe.reason ≡ true)
              × (ct' ≡ mark_failure r.failure_now c.provider fe.reason ct)))

  -- A chain of candidates that were passed, from round `i` on.
  pub data PassedAll (rounds : ℕ → Round R)
      : ℕ → List FallbackCandidate → CooldownTracker → CooldownTracker → Type 0 where
    none_passed : {i : ℕ} {ct : CooldownTracker} → PassedAll rounds i [] ct ct
    passed :
        {i : ℕ} {cs : List FallbackCandidate} {ct'' : CooldownTracker} (c : FallbackCandidate)
        (ct ct' : CooldownTracker)
        → Passes (rounds i) c ct ct'
        → PassedAll rounds (suc i) cs ct' ct''
        → PassedAll rounds i (c ∷ cs) ct ct''

  -- What a round that returns says, by what it returns.
  abbrev pub Ends :
      Round R
      → FallbackCandidate
      → List FallbackAttempt
      → CooldownTracker
      → Returned R
      → CooldownTracker
      → Type 0
  Ends r c tried ct no_candidates ct' = ⊥
  Ends r c tried ct (answered res) ct' =
      (r.canceled_before ≡ false)
      × (is_available r.check_now c.provider ct ≡ true)
      × (r.outcome ≡ response res.response)
      × (record { provider = res.provider; model = res.model } ≡ c)
      × (res.attempts ≡ tried)
      × (ct' ≡ mark_success c.provider ct)
  Ends r c tried ct canceled ct' = (r.canceled_before ≡ true) ⊎ (r.canceled_after ≡ true)
  Ends r c tried ct (failed e) ct' =
      (ct' ≡ ct)
      × (err : Error) × (r.outcome ≡ failure err)
      × (((classify_error go err c.provider c.model ≡ none) × (e ≡ err))
          ⊎ ((fe : FailoverError) × (classify_error go err c.provider c.model ≡ some fe)
              × (e ≡ as_error fe)
              × ((is_retriable fe.reason ≡ false) ⊎ (should_fallback fe.reason ≡ false))))
  Ends r c tried ct (exhausted tried') ct' =
      (names tried' ≡ names tried ++ (c ∷ [])) × Passes r c ct ct'

  fail_over-continue :
      (r : Round R) (c : FallbackCandidate) (last : Bool) (fe : FailoverError)
      (tried tried' : List FallbackAttempt) (ct ct' : CooldownTracker)
      → fail_over r c last fe tried ct ≡ continue tried' ct'
      → (names tried' ≡ names tried ++ (c ∷ []))
        × (ct' ≡ mark_failure r.failure_now c.provider fe.reason ct)
  unfolding fail_over
  fail_over-continue r c true fe tried tried' ct ct' h = cc
  fail_over-continue r c false fe tried tried' ct ct' h =
      (cc (names-snoc tried (failed_attempt r c (as_error fe) (some fe.reason))), cc)

  on_classified-continue :
      (r : Round R) (c : FallbackCandidate) (last : Bool) (err : Error) (o : Option FailoverError)
      (tried tried' : List FallbackAttempt) (ct ct' : CooldownTracker)
      → on_classified r c last err o tried ct ≡ continue tried' ct'
      → (fe : FailoverError) × (o ≡ some fe)
        × (is_retriable fe.reason ≡ true)
        × (should_fallback fe.reason ≡ true)
        × (fail_over r c last fe tried ct ≡ continue tried' ct')
  unfolding on_classified
  on_classified-continue r c last err none tried tried' ct ct' h = cc
  on_classified-continue r c last err (some fe) tried tried' ct ct' h =
      (fe, refl, ground arith, ground arith, ground arith)

  on_outcome-continue :
      (r : Round R) (c : FallbackCandidate) (last : Bool) (o : Outcome R)
      (tried tried' : List FallbackAttempt) (ct ct' : CooldownTracker)
      → on_outcome go r c last o tried ct ≡ continue tried' ct'
      → (err : Error) × (o ≡ failure err)
        × (on_classified r c last err (classify_error go err c.provider c.model) tried ct
            ≡ continue tried' ct')
  unfolding on_outcome
  on_outcome-continue r c last (response x) tried tried' ct ct' h = cc
  on_outcome-continue r c last (failure err) tried tried' ct ct' h = (err, refl, ground arith)

  pub continue_lem :
      (r : Round R) (c : FallbackCandidate) (last : Bool) (tried tried' : List FallbackAttempt)
      (ct ct' : CooldownTracker)
      → try_candidate go r c last tried ct ≡ continue tried' ct'
      → (names tried' ≡ names tried ++ (c ∷ [])) × Passes r c ct ct'
  unfolding try_candidate
  continue_lem r c last tried tried' ct ct' h =
      elim (Bool-cases (is_available r.check_now c.provider ct)) [
        | inr off ↦ (
          ground (arith, names-snoc tried (skipped_attempt r c ct)),
          (ground arith, inl (off, ground arith)),
        )
        | inl on ↦
            let (err, out, rest) =
              on_outcome-continue r c last r.outcome tried tried' ct ct' (ground arith) in
            let (fe, cl, ret, fall, over) =
              on_classified-continue r c last err _ tried tried' ct ct' rest in
            let (ns, mark) = fail_over-continue r c last fe tried tried' ct ct' over in
            (ns, (ground arith, inr (err, fe, on, out, cl, ret, fall, mark)))
      ]

  fail_over-return :
      (r : Round R) (c : FallbackCandidate) (last : Bool) (fe : FailoverError)
      (tried : List FallbackAttempt) (ct ct' : CooldownTracker) (x : Returned R)
      → fail_over r c last fe tried ct ≡ return x ct'
      → (tried' : List FallbackAttempt) × (x ≡ exhausted tried')
        × (names tried' ≡ names tried ++ (c ∷ []))
        × (ct' ≡ mark_failure r.failure_now c.provider fe.reason ct)
  unfolding fail_over
  fail_over-return r c false fe tried ct ct' x h = cc
  fail_over-return r c true fe tried ct ct' x h =
      let a = failed_attempt r c (as_error fe) (some fe.reason) in
      (tried ++ (a ∷ []), cc, names-snoc tried a, cc)

  on_classified-return :
      (r : Round R) (c : FallbackCandidate) (last : Bool) (err : Error)
      (tried : List FallbackAttempt) (ct ct' : CooldownTracker) (o : Option FailoverError)
      (x : Returned R)
      → r.canceled_before ≡ false
      → is_available r.check_now c.provider ct ≡ true
      → r.outcome ≡ failure err
      → classify_error go err c.provider c.model ≡ o
      → on_classified r c last err o tried ct ≡ return x ct'
      → Ends r c tried ct x ct'
  unfolding on_classified
  on_classified-return r c last err tried ct ct' none x nb on out cl h =
      let e : failed err ≡ x = cc in
      let f : ct' ≡ ct = cc in subst (λ y. Ends r c tried ct y ct') e (f, err, out, inl (cl, refl))
  on_classified-return r c last err tried ct ct' (some fe) x nb on out cl h =
      elim (Bool-cases (is_retriable fe.reason)) [
        | inr no_retry ↦
            let e : failed (as_error fe) ≡ x = ground arith in
            let f : ct' ≡ ct = ground arith in
            subst (λ y. Ends r c tried ct y ct') e (f, err, out, inr (fe, cl, refl, inl no_retry))
        | inl retry ↦ elim (Bool-cases (should_fallback fe.reason)) [
          | inr no_fall ↦
              let e : failed (as_error fe) ≡ x = ground arith in
              let f : ct' ≡ ct = ground arith in
              subst (λ y. Ends r c tried ct y ct') e (f, err, out, inr (fe, cl, refl, inr no_fall))
          | inl fall ↦
              let (tried', e, ns, mark) =
                fail_over-return r c last fe tried ct ct' x (ground arith) in
              subst (λ y. Ends r c tried ct y ct') (sym e)
                (ns, (nb, inr (err, fe, on, out, cl, retry, fall, mark)))
        ]
      ]

  on_outcome-return :
      (r : Round R) (c : FallbackCandidate) (last : Bool) (tried : List FallbackAttempt)
      (ct ct' : CooldownTracker) (o : Outcome R) (x : Returned R)
      → r.canceled_before ≡ false
      → is_available r.check_now c.provider ct ≡ true
      → r.outcome ≡ o
      → on_outcome go r c last o tried ct ≡ return x ct'
      → Ends r c tried ct x ct'
  unfolding on_outcome
  on_outcome-return r c last tried ct ct' (response y) x nb on out h =
      let res : FallbackResult R = record {
        response = y;
        provider = c.provider;
        model = c.model;
        attempts = tried;
      } in
      let e : answered res ≡ x = cc in
      let f : ct' ≡ mark_success c.provider ct = cc in
      subst (λ z. Ends r c tried ct z ct') e (nb, on, out, refl, refl, f)
  on_outcome-return r c last tried ct ct' (failure err) x nb on out h =
      elim (Bool-cases r.canceled_after) [
        | inl off ↦
            let e : canceled ≡ x = ground arith in subst (λ z. Ends r c tried ct z ct') e (inr off)
        | inr off ↦ on_classified-return r c last err tried ct ct' _ x nb on out refl (ground arith)
      ]

  pub return_lem :
      (r : Round R) (c : FallbackCandidate) (last : Bool) (tried : List FallbackAttempt)
      (ct ct' : CooldownTracker) (x : Returned R)
      → try_candidate go r c last tried ct ≡ return x ct'
      → Ends r c tried ct x ct'
  unfolding try_candidate
  return_lem r c last tried ct ct' x h = elim (Bool-cases r.canceled_before) [
    | inl off ↦
        let e : canceled ≡ x = ground arith in subst (λ z. Ends r c tried ct z ct') e (inl off)
    | inr nb ↦ elim (Bool-cases (is_available r.check_now c.provider ct)) [
      | inr off ↦ absurd (ground arith)
      | inl on ↦ on_outcome-return r c last tried ct ct' r.outcome x nb on refl (ground arith)
    ]
  ]
