-- ===== src/Providers/Fallback/Outcomes.antt =====
-- How `Execute` ends: what each way of returning says of the candidates that were tried.
use mathlib.Core.List.{append_assoc, append-nil}
use ottie.Prelude.{ℕ, suc, ◌+◌, ◌≡◌, refl, sym, ap, ◌∙◌, List, [], ◌∷◌, ◌++◌, length, arith}
use ottie.Providers.Errors.{GoText}
use ottie.Providers.Cooldown.{CooldownTracker}
use ottie.Providers.Fallback.{
  FallbackCandidate, FallbackAttempt, Round, Returned, exhausted, Next, return, continue, is_empty,
  try_candidate, execute_from, execute,
}
use ottie.Providers.Fallback.Rounds.{
  names, Passes, PassedAll, none_passed, passed, Ends, continue_lem, return_lem,
}

module _ {R : Type 0} (go : GoText) where
  -- How `Execute` came to its result: it passed a list of candidates, skipped in their cooldown or
  -- failed over, and then either the next one ended the loop, or none was left.
  pub data Explained (rounds : ℕ → Round R) (cs : List FallbackCandidate)
      (tried : List FallbackAttempt) (ct : CooldownTracker) (i : ℕ) (x : Returned R)
      (ct' : CooldownTracker) : Type 0 where
    ended :
        (before : List FallbackCandidate) (c : FallbackCandidate) (after : List FallbackCandidate)
        (tried' : List FallbackAttempt) (ct'' : CooldownTracker)
        → cs ≡ before ++ (c ∷ after)
        → PassedAll go rounds i before ct ct''
        → names tried' ≡ names tried ++ before
        → Ends go (rounds (i + length before)) c tried' ct'' x ct'
        → Explained rounds cs tried ct i x ct'
    ran_out :
        (tried' : List FallbackAttempt)
        → PassedAll go rounds i cs ct ct'
        → names tried' ≡ names tried ++ cs
        → x ≡ exhausted tried'
        → Explained rounds cs tried ct i x ct'

  later :
      (rounds : ℕ → Round R) (c : FallbackCandidate) (cs : List FallbackCandidate)
      (tried tried' : List FallbackAttempt) (ct ct' ct'' : CooldownTracker) (i : ℕ) (x : Returned R)
      → names tried' ≡ names tried ++ (c ∷ [])
      → Passes go (rounds i) c ct ct'
      → Explained rounds cs tried' ct' (suc i) x ct''
      → Explained rounds (c ∷ cs) tried ct i x ct''
  later rounds c cs tried tried' ct ct' ct'' i x ns p (ended before d after done st e all ms end) =
      ended (c ∷ before) d after done st (ap (λ l. c ∷ l) e) (passed c ct ct' p all)
        (ms ∙ ap (λ l. l ++ before) ns ∙ append_assoc (names tried) (c ∷ []) before)
        (let k : i + suc (length before) ≡ suc i + length before = omega arith in rw k end)
  later rounds c cs tried tried' ct ct' ct'' i x ns p (ran_out done all ms e) =
      ran_out done (passed c ct ct' p all)
        (ms ∙ ap (λ l. l ++ cs) ns ∙ append_assoc (names tried) (c ∷ []) cs) e

  execute_from-Explained :
      (rounds : ℕ → Round R) (i : ℕ) (cs : List FallbackCandidate) (tried : List FallbackAttempt)
      (ct : CooldownTracker)
      → let (x, ct') = execute_from go rounds i cs tried ct in Explained rounds cs tried ct i x ct'
  unfolding execute_from
  execute_from-Explained rounds i [] tried ct = ran_out tried none_passed (sym (append-nil _)) refl
  execute_from-Explained rounds i (c ∷ cs) tried ct =
      step (try_candidate go (rounds i) c (is_empty cs) tried ct) refl
        (execute_from-Explained rounds (suc i) cs)
    where
      step :
          (n : Next R)
          → try_candidate go (rounds i) c (is_empty cs) tried ct ≡ n
          → ((tried' : List FallbackAttempt) (ct' : CooldownTracker)
              → let (x, ct'') = execute_from go rounds (suc i) cs tried' ct' in
                Explained rounds cs tried' ct' (suc i) x ct'')
          → let (x, ct') = execute_from go rounds i (c ∷ cs) tried ct in
            Explained rounds (c ∷ cs) tried ct i x ct'
      step (return x ct') e ih =
          rw (e, execute_from)
            (ended [] c cs tried ct refl none_passed (sym (append-nil _)) (
              let k : i + 0 ≡ i = omega arith in
              rw k (return_lem go (rounds i) c (is_empty cs) tried ct ct' x e)))
      step (continue tried' ct') e ih =
          rw (e, execute_from)
            (let (ns, p) = continue_lem go (rounds i) c (is_empty cs) tried tried' ct ct' e in
              later rounds c cs tried tried' ct ct' _ i _ ns p (ih tried' ct'))

  -- `Execute` on a list of candidates that is not empty tries them in order. It passes each candidate
  -- whose provider is in cooldown, with no call, and each whose call fails for a reason that fails over,
  -- which marks that provider's failure. It ends at the first other candidate: with the response of an
  -- available provider, which is then marked good; with the classified error, or the original one where
  -- the classifier gives none, and the cooldowns untouched; or with a cancellation. Where no candidate is
  -- left it is exhausted. The attempts of a result name the candidates passed, and those of an exhausted
  -- chain name every candidate, in order.
  pub execute-Explained :
      (rounds : ℕ → Round R) (c : FallbackCandidate) (cs : List FallbackCandidate)
      (ct : CooldownTracker)
      → let (x, ct') = execute go rounds (c ∷ cs) ct in Explained rounds (c ∷ cs) [] ct 0 x ct'
  unfolding execute
  execute-Explained rounds c cs ct = execute_from-Explained rounds 0 (c ∷ cs) [] ct
