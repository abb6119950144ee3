-- ===== src/Infra/Debounce/Delivery.antt =====
-- What a flush delivers: after its timer, and ahead of it.
use ottie.Prelude.{
  ◌≡◌, inl, inr, refl, ap, ◌∙◌, String, true, false, Option, none, some, List, ◌∷◌, arith, str_eq,
  eq_iff, eq_refl, any,
}
use ottie.Prelude.Dict.{lookup, lookup-insert, lookup-delete}
use ottie.Infra.Debounce.{
  timer_key, Entry, Debouncer, set_entry, submit, start_flush, fire, flush_entry, flush, Event,
  submits, fires, flushes, step, run,
}
use ottie.Infra.Debounce.Pending.{run-IsPending}

module _ {M : Type 0} where
  -- A pending message is delivered, once, when its timer fires and the flush then takes the lock, or by the flush
  -- that has already started.
  pub fire_and_flush :
      (es : List (Event M)) (key : String) (e : Entry M)
      → lookup key (run M es).entries ≡ some e
      → ((run M (flushes key ∷ fires e.0 ∷ es)).called ≡ (key, e.1) ∷ (run M es).called)
        × (lookup key (run M (flushes key ∷ fires e.0 ∷ es)).entries ≡ none)
  unfolding run step fire flush flush_entry start_flush
  fire_and_flush es key e f = by_timer (timer_key e.0 (run M es).armed) refl
    where
      d : Debouncer M
      d = run M es

      Delivered : Debouncer M → Type 0
      Delivered d' = (d'.called ≡ (key, e.1) ∷ d.called) × (lookup key d'.entries ≡ none)

      flushed :
          (b : Debouncer M)
          → any (λ k. str_eq k key) b.flushing ≡ true
          → b.entries ≡ d.entries
          → b.called ≡ d.called
          → Delivered (flush M key b)
      flushed b started same calls = rw started (
          rw (same, f)
            (ap (λ c. (key, e.1) ∷ c) calls, lookup-delete key key _ ∙ rw (eq_refl key) refl))

      by_timer :
          (o : Option String)
          → timer_key e.0 d.armed ≡ o
          → Delivered (flush M key (start_flush M e.0 o d))
      by_timer none t = elim ((run-IsPending es).covered key e f) [
        | inl c ↦ absurd (ground (arith, c, t))
        | inr c ↦ flushed d c refl refl
      ]
      by_timer (some k) t = elim ((run-IsPending es).covered key e f) [
        | inl c ↦
            let same : k ≡ key = cc (c, t) in
            flushed (start_flush M e.0 (some k) d) (ground (arith, eq_iff k key, same)) refl refl
        | inr c ↦ flushed (start_flush M e.0 (some k) d) (ground (arith, c)) refl refl
      ]

  -- Where a flush of a key has started and not yet taken the lock, and the debouncer is not stopped, a message
  -- that is submitted meanwhile is delivered by that flush, while the message's own timer has not fired.
  pub early_flush :
      (es : List (Event M)) (key : String) (msg : M)
      → any (λ k. str_eq k key) (run M es).flushing ≡ true
      → (run M es).stopped ≡ false
      → ((run M (flushes key ∷ submits key msg ∷ es)).called ≡ (key, msg) ∷ (run M es).called)
        × (timer_key (run M es).next_timer (run M (flushes key ∷ submits key msg ∷ es)).armed
            ≡ some key)
  unfolding run step submit set_entry flush flush_entry timer_key
  early_flush es key msg started open' =
      let d = run M es in
      rw open' (
        rw started (
          rw (lookup-insert key key (d.next_timer, msg) d.entries) (rw (eq_refl key) refl),
          rw (lookup-insert key key (d.next_timer, msg) d.entries)
              (rw (eq_refl key) (ground arith)),
        ))
