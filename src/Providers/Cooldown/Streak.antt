-- ===== src/Providers/Cooldown/Streak.antt =====
-- A streak of failures of one provider, for one reason, after a success.
use ottie.Prelude.{
  ℕ, suc, ◌+◌, ◌-◌, ◌≤◌, ◌≡◌, ◌==◌, ◌&&◌, refl, sym, ap, ◌∙◌, String, Bool, true, false, not,
  Option, none, some, List, [], ◌∷◌, arith, length, leb, ltb, if◌then◌else◌, Bool-cases, inl, inr,
}
use ottie.Prelude.Dict.{lookup, insert, lookup-insert_self}
use ottie.Providers.Reason.{FailoverReason, FailoverReason-discrete, billing, is_billing}
use ottie.Providers.Cooldown.{
  CooldownTracker, CooldownEntry, is_available, mark_failure, mark_success, reset_entry,
  add_failure, count_failure, expire_window, get_or_create, or_new, entry_available,
}
use ottie.Providers.Cooldown.Bounds.{
  standard_table, billing_table, standard_cooldown-table, billing_cooldown-table,
}

-- The documented cooldown after so many failures for a reason.
abbrev pub documented_cooldown : FailoverReason → ℕ → ℕ
documented_cooldown r n = if is_billing r then billing_table n else standard_table n

-- The failures at the given times, the first of them first.
unfoldable pub mark_failures : String → FailoverReason → List ℕ → CooldownTracker → CooldownTracker
mark_failures p r [] ct = ct
mark_failures p r (t ∷ ts) ct = mark_failures p r ts (mark_failure t p r ct)

-- No time is later than the one before it by more than the window, from `last` on.
abbrev pub IsClose : ℕ → ℕ → List ℕ → Type 0
IsClose window last [] = Unit
IsClose window last (t ∷ ts) = (t - last ≤ window) × IsClose window t ts

abbrev pub final : ℕ → List ℕ → ℕ
final last [] = last
final last (t ∷ ts) = final t ts

-- The entry after `n` failures for a reason, and no other, since the last success.
record Streak (r : FailoverReason) (n : ℕ) (e : CooldownEntry) : Type 0 where
  errors : e.error_count ≡ n
  failures : e.failure_counts r ≡ n
  no_end : is_billing r ≡ true → e.cooldown_end ≡ 0
  no_disable : is_billing r ≡ false → e.disabled_until ≡ 0

count_failure_self : (r : FailoverReason) (c : FailoverReason → ℕ) → count_failure r c r ≡ c r + 1
unfolding count_failure FailoverReason-discrete
count_failure_self billing c = refl
count_failure_self _ c = refl

billing_only : (r : FailoverReason) → is_billing r ≡ true → r ≡ billing
unfolding is_billing
billing_only billing h = refl
billing_only _ h = cc

-- What `mark_success` makes of a tracker in which the lookup of the provider gave this.
abbrev succeeded : String → CooldownTracker → Option CooldownEntry → CooldownTracker
succeeded p ct none = ct
succeeded p ct (some e) = record ct { entries = insert p (reset_entry e) ct.entries }

mark_success_lem :
    (p : String) (ct : CooldownTracker) (o : Option CooldownEntry)
    → lookup p ct.entries ≡ o
    → mark_success p ct ≡ succeeded p ct o
unfolding mark_success
mark_success_lem p ct none f = rw (f, mark_success) refl
mark_success_lem p ct (some e) f = rw (f, mark_success) refl

success_window :
    (p : String) (ct : CooldownTracker) → (mark_success p ct).failure_window ≡ ct.failure_window
success_window p ct = by_entry (lookup p ct.entries) refl
  where
    by_entry :
        (o : Option CooldownEntry)
        → lookup p ct.entries ≡ o
        → (mark_success p ct).failure_window ≡ ct.failure_window
    by_entry none f = rw (mark_success_lem p ct none f) refl
    by_entry (some e) f = rw (mark_success_lem p ct (some e) f) refl

module _ (r : FailoverReason) where
  last_failure_lem : (now : ℕ) (e : CooldownEntry) → (add_failure now r e).last_failure ≡ now
  unfolding add_failure
  last_failure_lem now e = elim (Bool-cases (is_billing r)) [
    | inl y ↦ rw y refl
    | inr y ↦ rw y refl
  ]

  -- A failure after `n` others of the streak, once an expired window has been reset.
  add_failure-Streak :
      (now n : ℕ) (e : CooldownEntry) → Streak r n e → Streak r (suc n) (add_failure now r e)
  unfolding add_failure
  add_failure-Streak now n e s = by_reason (is_billing r) refl
    where
      by_reason : (b : Bool) → is_billing r ≡ b → Streak r (suc n) (add_failure now r e)
      by_reason true y = record {
        errors = rw y (ground (arith, s.errors));
        failures = rw y (ground (arith, count_failure_self r e.failure_counts, s.failures));
        no_end = λ h. rw y (s.no_end y);
        no_disable = λ h. cc (y, h);
      }
      by_reason false y = record {
        errors = rw y (ground (arith, s.errors));
        failures = rw y (ground (arith, count_failure_self r e.failure_counts, s.failures));
        no_end = λ h. cc (y, h);
        no_disable = λ h. rw y (s.no_disable y);
      }

  -- The entry is blocked exactly for the documented cooldown.
  blocked_exactly :
      (now t n : ℕ) (e : CooldownEntry)
      → Streak r n e
      → entry_available t (some (add_failure now r e)) ≡ leb (now + documented_cooldown r (suc n)) t
  unfolding entry_available add_failure
  blocked_exactly now t n e s = by_reason (is_billing r) refl
    where
      by_reason :
          (b : Bool)
          → is_billing r ≡ b
          → entry_available t (some (add_failure now r e))
            ≡ leb (now + documented_cooldown r (suc n)) t
      by_reason true y =
          let same : r ≡ billing = billing_only r y in
          let counts : count_failure r e.failure_counts billing ≡ suc n =
            ap (λ x. count_failure r e.failure_counts x) (sym same)
            ∙ count_failure_self r e.failure_counts
            ∙ (let h = s.failures in omega (arith, h)) in
          rw y (rw counts (rw billing_cooldown-table (rw (s.no_end y) (ground arith))))
      by_reason false y =
          let count : e.error_count + 1 ≡ suc n = (let h = s.errors in omega (arith, h)) in
          rw y (rw count (rw standard_cooldown-table (rw (s.no_disable y) (ground arith))))

  kept-Streak :
      (window now n : ℕ) (e : CooldownEntry)
      → now - e.last_failure ≤ window
      → Streak r n e
      → Streak r n (expire_window window now e)
  unfolding expire_window
  kept-Streak window now n e near s =
      let close : ltb window (now - e.last_failure) ≡ false = ground arith in
      rw close (elim (Bool-cases (not (e.last_failure == 0))) [ inl y ↦ rw y s | inr y ↦ rw y s ])

  -- The start of a streak, whenever it is.
  first-Streak :
      (window now : ℕ) (e : CooldownEntry) → Streak r 0 e → Streak r 0 (expire_window window now e)
  unfolding expire_window
  first-Streak window now e s =
      elim (Bool-cases (not (e.last_failure == 0) && ltb window (now - e.last_failure))) [
        | inl y ↦ rw y (record {
          errors = refl;
          failures = refl;
          no_end = s.no_end;
          no_disable = s.no_disable;
        })
        | inr y ↦ rw y s
      ]

  success-Streak :
      (p : String) (ct : CooldownTracker) → Streak r 0 (get_or_create (mark_success p ct) p)
  unfolding get_or_create reset_entry
  success-Streak p ct = by_entry (lookup p ct.entries) refl
    where
      by_entry :
          (o : Option CooldownEntry)
          → lookup p ct.entries ≡ o
          → Streak r 0 (or_new (lookup p (mark_success p ct).entries))
      by_entry none f = rw (mark_success_lem p ct none f) (
          rw f
            (record { errors = refl; failures = refl; no_end = λ h. refl; no_disable = λ h. refl }))
      by_entry (some e) f = rw (mark_success_lem p ct (some e) f) (
          rw (lookup-insert_self p (reset_entry e) ct.entries)
            (record { errors = refl; failures = refl; no_end = λ h. refl; no_disable = λ h. refl }))

  marked :
      (now : ℕ) (p : String) (ct : CooldownTracker)
      → lookup p (mark_failure now p r ct).entries
        ≡ some (add_failure now r (expire_window ct.failure_window now (get_or_create ct p)))
  unfolding mark_failure
  marked now p ct = lookup-insert_self p _ ct.entries

  same_window :
      (now : ℕ) (p : String) (ct : CooldownTracker)
      → (mark_failure now p r ct).failure_window ≡ ct.failure_window
  unfolding mark_failure
  same_window now p ct = refl

  next-Streak :
      (now u n : ℕ) (p : String) (ct : CooldownTracker)
      → u - now ≤ ct.failure_window
      → Streak r n (expire_window ct.failure_window now (get_or_create ct p))
      → let ct' = mark_failure now p r ct in
        Streak r (suc n) (expire_window ct'.failure_window u (get_or_create ct' p))
  unfolding get_or_create
  next-Streak now u n p ct near s =
      let e = expire_window ct.failure_window now (get_or_create ct p) in
      rw (marked now p ct) (
        rw (same_window now p ct) (
          kept-Streak ct.failure_window u (suc n) (add_failure now r e)
            (rw (last_failure_lem now e) near) (add_failure-Streak now n e s)))

  run_blocks :
      (p : String) (t : ℕ) (ts : List ℕ) (now n : ℕ) (ct : CooldownTracker)
      → Streak r n (expire_window ct.failure_window now (get_or_create ct p))
      → IsClose ct.failure_window now ts
      → is_available t p (mark_failures p r ts (mark_failure now p r ct))
        ≡ leb (final now ts + documented_cooldown r (suc n + length ts)) t
  unfolding mark_failures is_available
  run_blocks p t [] now n ct s close =
      let same : suc n + 0 ≡ suc n = omega arith in
      rw (marked now p ct) (rw same (blocked_exactly now t n _ s))
  run_blocks p t (u ∷ us) now n ct s close =
      let same : suc n + suc (length us) ≡ suc (suc n) + length us = omega arith in
      rw same (
        run_blocks p t us u (suc n) (mark_failure now p r ct) (next-Streak now u n p ct close.0 s)
          (rw (same_window now p ct) close.1))

-- After a success of a provider, whatever was recorded before, and then failures for one reason, no two of them
-- further apart than the failure window, the provider is available again exactly from the last failure's time plus
-- the cooldown that the comments document for that many failures.
pub streak_blocks :
    (p : String) (r : FailoverReason) (ct : CooldownTracker) (first : ℕ) (times : List ℕ) (t : ℕ)
    → IsClose ct.failure_window first times
    → is_available t p (mark_failures p r (first ∷ times) (mark_success p ct))
      ≡ leb (final first times + documented_cooldown r (length (first ∷ times))) t
unfolding mark_failures
streak_blocks p r ct first times t close =
    let ct' = mark_success p ct in
    let same = success_window p ct in
    let start =
      first-Streak r ct'.failure_window first (get_or_create ct' p) (success-Streak r p ct) in
    let count : suc 0 + length times ≡ suc (length times) = omega arith in
    let ends = run_blocks r p t times first 0 ct' start (rw same close) in
    ends ∙ ap (λ n. leb (final first times + documented_cooldown r n) t) count
