-- ===== src/Providers/Cooldown/Counts.antt =====
-- The error counters, and what a call leaves alone.
use ottie.Prelude.{
  ℕ, ◌+◌, ◌-◌, ◌≡◌, ◌≢◌, refl, ap, ◌∙◌, String, true, some, arith, ltb, ◌==◌, if◌then◌else◌,
  Option-cases, inl, inr, List, [], ◌∷◌, not, ◌&&◌,
}
use ottie.Prelude.Dict.{lookup, insert, lookup-insert, lookup-insert_self, lookup-insert_ne}
use ottie.Providers.Reason.{
  FailoverReason, FailoverReason-discrete, auth, auth_permanent, rate_limit, billing, timeout,
  context_overflow, payload_too_large, format, overloaded, model_not_found, session_expired,
  thinking_signature, long_context_tier, unknown,
}
use ottie.Providers.Cooldown.{
  CooldownTracker, CooldownEntry, is_available, cooldown_remaining, mark_failure, mark_success,
  add_failure, expire_window, get_or_create, reset_entry, error_count, failure_count,
  entry_available, entry_remaining, entry_failures, count_failure, new_cooldown_tracker,
}

-- The sum of a counter over all reasons.
abbrev pub total : (FailoverReason → ℕ) → ℕ
total c =
    c auth
    + c auth_permanent
    + c rate_limit
    + c billing
    + c timeout
    + c context_overflow
    + c payload_too_large
    + c format
    + c overloaded
    + c model_not_found
    + c session_expired
    + c thinking_signature
    + c long_context_tier
    + c unknown

total-count_failure :
    (r : FailoverReason) (c : FailoverReason → ℕ) → total (count_failure r c) ≡ total c + 1
unfolding count_failure FailoverReason-discrete
total-count_failure auth c = omega arith
total-count_failure _ c = omega arith

-- The error count of an entry is the sum of its counts by reason.
abbrev pub IsCounted : CooldownEntry → Type 0
IsCounted e = e.error_count ≡ total e.failure_counts

expire_window-IsCounted :
    (w now : ℕ) (e : CooldownEntry) → IsCounted e → IsCounted (expire_window w now e)
unfolding expire_window
expire_window-IsCounted w now e h = ground arith

add_failure-IsCounted :
    (now : ℕ) (r : FailoverReason) (e : CooldownEntry)
    → IsCounted e
    → IsCounted (add_failure now r e)
unfolding add_failure
add_failure-IsCounted now r e h = ground (arith, total-count_failure r e.failure_counts)

-- Every entry of the tracker is counted.
pub record IsConsistent (ct : CooldownTracker) : Type 0 where
  pub at_provider : (p : String) (e : CooldownEntry) → lookup p ct.entries ≡ some e → IsCounted e

or_new-IsCounted :
    (p : String) (ct : CooldownTracker) → IsConsistent ct → IsCounted (get_or_create ct p)
unfolding get_or_create
or_new-IsCounted p ct h = elim (Option-cases (lookup p ct.entries)) [
  | inl e ↦ rw e refl
  | inr (x, e) ↦ rw e (h.at_provider p x e)
]

insert-IsConsistent :
    (p : String) (e : CooldownEntry) (ct : CooldownTracker)
    → IsCounted e
    → IsConsistent ct
    → IsConsistent (record ct { entries = insert p e ct.entries })
insert-IsConsistent p e ct new h = record {
  at_provider = λ q x. simp lookup-insert (λ k. ground (arith, h.at_provider q x));
}

pub mark_failure-IsConsistent :
    (now : ℕ) (p : String) (r : FailoverReason) (ct : CooldownTracker)
    → IsConsistent ct
    → IsConsistent (mark_failure now p r ct)
unfolding mark_failure
mark_failure-IsConsistent now p r ct h =
    let e = expire_window ct.failure_window now (get_or_create ct p) in
    insert-IsConsistent p (add_failure now r e) ct
      (add_failure-IsCounted now r e
        (expire_window-IsCounted ct.failure_window now _ (or_new-IsCounted p ct h)))
      h

pub mark_success-IsConsistent :
    (p : String) (ct : CooldownTracker) → IsConsistent ct → IsConsistent (mark_success p ct)
unfolding mark_success reset_entry
mark_success-IsConsistent p ct h = elim (Option-cases (lookup p ct.entries)) [
  | inl e ↦ rw (e, mark_success) h
  | inr (x, e) ↦ rw (e, mark_success) (insert-IsConsistent p (reset_entry x) ct refl h)
]

-- The calls that change a tracker.
pub data Call : Type 0 where
  failure : ℕ → String → FailoverReason → Call
  success : String → Call

unfoldable pub run_call : Call → CooldownTracker → CooldownTracker
run_call (failure now p r) ct = mark_failure now p r ct
run_call (success p) ct = mark_success p ct

unfoldable pub run_calls : List Call → CooldownTracker → CooldownTracker
run_calls [] ct = ct
run_calls (c ∷ cs) ct = run_calls cs (run_call c ct)

run_calls-IsConsistent :
    (cs : List Call) (ct : CooldownTracker) → IsConsistent ct → IsConsistent (run_calls cs ct)
unfolding run_calls run_call
run_calls-IsConsistent [] ct h = h
run_calls-IsConsistent (failure now p r ∷ cs) ct h =
    run_calls-IsConsistent cs _ (mark_failure-IsConsistent now p r ct h)
run_calls-IsConsistent (success p ∷ cs) ct h =
    run_calls-IsConsistent cs _ (mark_success-IsConsistent p ct h)

-- After any calls on a new tracker, the error count that `ErrorCount` reports for a provider is the
-- sum of the counts that `FailureCount` reports for it over the fourteen reasons.
pub error_count-total :
    (cs : List Call) (p : String)
    → let ct = run_calls cs new_cooldown_tracker in
      error_count p ct ≡ total (λ r. failure_count p r ct)
unfolding error_count failure_count new_cooldown_tracker lookup
error_count-total cs p =
    let ct = run_calls cs new_cooldown_tracker in
    let all =
      run_calls-IsConsistent cs new_cooldown_tracker (record { at_provider = λ q e k. cc }) in
    elim (Option-cases (lookup p ct.entries)) [
      | inl e ↦ rw e refl
      | inr (x, e) ↦ rw e (all.at_provider p x e)
    ]

failure_count_at :
    (now : ℕ) (r : FailoverReason) (w : ℕ) (e : CooldownEntry)
    → (add_failure now r (expire_window w now e)).error_count
      ≡ (if not (e.last_failure == 0) && ltb w (now - e.last_failure) then 1 else e.error_count + 1)
unfolding add_failure expire_window
failure_count_at now r w e = ground arith

get_or_create-error_count :
    (p : String) (ct : CooldownTracker) → (get_or_create ct p).error_count ≡ error_count p ct
unfolding get_or_create error_count
get_or_create-error_count p ct = elim (Option-cases (lookup p ct.entries)) [
  | inl e ↦ rw e refl
  | inr (x, e) ↦ rw e refl
]

-- A failure after more than the failure window since the last one starts the error count again at
-- one, any other failure adds one to it.
pub error_count-mark_failure :
    (now : ℕ) (p : String) (r : FailoverReason) (ct : CooldownTracker)
    → let last = (get_or_create ct p).last_failure in
      error_count p (mark_failure now p r ct)
      ≡ (if not (last == 0) && ltb ct.failure_window (now - last) then 1 else error_count p ct + 1)
unfolding error_count mark_failure
error_count-mark_failure now p r ct =
    let e = get_or_create ct p in
    rw (lookup-insert_self p (add_failure now r (expire_window ct.failure_window now e)) ct.entries)
      (failure_count_at now r ct.failure_window e
        ∙ ap
            (λ n.
              if not (e.last_failure == 0) && ltb ct.failure_window (now - e.last_failure)
              then 1
              else n + 1)
            (get_or_create-error_count p ct))

-- A success clears the provider: its error count and every count by reason are zero, and it is
-- available at every time, with nothing left to wait.
pub mark_success-clears :
    (t : ℕ) (p : String) (r : FailoverReason) (ct : CooldownTracker)
    → let ct' = mark_success p ct in
      (error_count p ct' ≡ 0)
      × (failure_count p r ct' ≡ 0)
      × (is_available t p ct' ≡ true)
      × (cooldown_remaining t p ct' ≡ 0)
unfolding error_count failure_count is_available cooldown_remaining mark_success reset_entry
    entry_available entry_remaining
mark_success-clears t p r ct = elim (Option-cases (lookup p ct.entries)) [
  | inl e ↦ rw (e, mark_success) (rw e (refl, refl, refl, refl))
  | inr (x, e) ↦
      rw (e, mark_success)
        (rw (lookup-insert_self p (reset_entry x) ct.entries) (refl, refl, refl, refl))
]

lookup-mark_failure_ne :
    (now : ℕ) (p q : String) (r : FailoverReason) (ct : CooldownTracker)
    → p ≢ q
    → lookup q (mark_failure now p r ct).entries ≡ lookup q ct.entries
unfolding mark_failure
lookup-mark_failure_ne now p q r ct ne = lookup-insert_ne p q _ ct.entries ne

lookup-mark_success_ne :
    (p q : String) (ct : CooldownTracker)
    → p ≢ q
    → lookup q (mark_success p ct).entries ≡ lookup q ct.entries
unfolding mark_success
lookup-mark_success_ne p q ct ne = elim (Option-cases (lookup p ct.entries)) [
  | inl e ↦ rw (e, mark_success) refl
  | inr (x, e) ↦ rw (e, mark_success) (lookup-insert_ne p q (reset_entry x) ct.entries ne)
]

-- Providers are independent: a failure or a success of one leaves the availability, the remaining
-- wait and the counts of every other provider as they were.
pub calls_independent :
    (now t : ℕ) (p q : String) (r s : FailoverReason) (ct : CooldownTracker)
    → p ≢ q
    → let f = mark_failure now p r ct in
      let g = mark_success p ct in
      (is_available t q f ≡ is_available t q ct)
      × (is_available t q g ≡ is_available t q ct)
      × (cooldown_remaining t q f ≡ cooldown_remaining t q ct)
      × (cooldown_remaining t q g ≡ cooldown_remaining t q ct)
      × (failure_count q s f ≡ failure_count q s ct)
      × (failure_count q s g ≡ failure_count q s ct)
unfolding is_available cooldown_remaining failure_count
calls_independent now t p q r s ct ne =
    let f = lookup-mark_failure_ne now p q r ct ne in
    let g = lookup-mark_success_ne p q ct ne in
    (
      ap (entry_available t) f,
      ap (entry_available t) g,
      ap (entry_remaining t) f,
      ap (entry_remaining t) g,
      ap (entry_failures s) f,
      ap (entry_failures s) g,
    )
