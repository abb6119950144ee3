-- ===== src/Infra/Debounce/Pending.antt =====
-- A pending message is the latest one of its key, and some timer or started flush will deliver it.
use ottie.Prelude.{
  ℕ, ◌<◌, ◌≡◌, ◌⊎◌, inl, inr, refl, sym, ap, ◌∙◌, String, Bool, true, false, Option, none, some,
  List, [], ◌∷◌, arith, str_eq, eq_iff, any, ◌==◌, if◌then◌else◌, Bool-cases,
}
use ottie.Prelude.Dict.{lookup, lookup-delete}
use ottie.Infra.Debounce.{
  timer_key, take_one, Entry, Debouncer, new_debouncer, stop_timer, set_entry, submit, stop,
  start_flush, fire, flush_entry, flush, Event, submits, fires, flushes, stops, step, run,
}
use ottie.Infra.Debounce.Changes.{timer_key-disarm, any-take_one, inserted, deleted}

module _ {M : Type 0} where
  -- The message that was submitted last for a key.
  abbrev pub latest : String → List (Event M) → Option M
  latest key [] = none
  latest key (submits k msg ∷ es) = if str_eq key k then some msg else latest key es
  latest key (fires id ∷ es) = latest key es
  latest key (flushes k ∷ es) = latest key es
  latest key (stops ∷ es) = latest key es

  -- Some timer that has not fired, or a flush that has started, will flush the key of this timer.
  abbrev pub IsCovered : Debouncer M → String → ℕ → Type 0
  IsCovered d key id =
      (timer_key id d.armed ≡ some key) ⊎ (any (λ k. str_eq k key) d.flushing ≡ true)

  pub record IsPending (es : List (Event M)) (d : Debouncer M) : Type 0 where
    pub below : (key : String) (e : Entry M) → lookup key d.entries ≡ some e → e.0 < d.next_timer
    pub own :
        (k j : String) (e f : Entry M)
        → lookup k d.entries ≡ some e
        → lookup j d.entries ≡ some f
        → e.0 ≡ f.0
        → k ≡ j
    pub covered : (key : String) (e : Entry M) → lookup key d.entries ≡ some e → IsCovered d key e.0
    pub newest :
        (key : String) (e : Entry M) → lookup key d.entries ≡ some e → latest key es ≡ some e.1
    pub empty : d.stopped ≡ true → (key : String) → lookup key d.entries ≡ none

  -- The timer of another key's entry is not the one that was stopped.
  still_armed :
      (es : List (Event M)) (d : Debouncer M) (key other : String) (e : Entry M)
      (o : Option (Entry M))
      → IsPending es d
      → lookup key d.entries ≡ o
      → lookup other d.entries ≡ some e
      → str_eq other key ≡ false
      → timer_key e.0 (stop_timer M o d.armed) ≡ timer_key e.0 d.armed
  unfolding stop_timer
  still_armed es d key other e none h own f ne = refl
  still_armed es d key other e (some x) h own f ne =
      timer_key-disarm e.0 x.0 d.armed ∙ elim (Bool-cases (e.0 == x.0)) [
        | inl y ↦
            let same = h.own other key e x f own (ground arith) in
            absurd (ground (arith, eq_iff other key, same))
        | inr y ↦ rw y refl
      ]

  submit-IsPending :
      (es : List (Event M)) (d : Debouncer M) (key : String) (msg : M)
      → IsPending es d
      → d.stopped ≡ false
      → IsPending (submits key msg ∷ es) (set_entry M key msg d)
  unfolding set_entry timer_key
  submit-IsPending es d key msg h open' = record {
    below = λ k e f. elim (inserted key k _ e d.entries f) [
      | inl (s, x) ↦ ground (arith, x)
      | inr (ne, g) ↦ let lt = h.below k e g in omega (arith, lt)
    ];
    own = λ k j e f g i same. elim (inserted key k _ e d.entries g) [
      | inl (s, x) ↦ elim (inserted key j _ f d.entries i) [
        | inl (t, y) ↦ s ∙ sym t
        | inr (nj, y) ↦ let lt = h.below j f y in absurd (ground (arith, lt, same, x))
      ]
      | inr (nk, x) ↦ elim (inserted key j _ f d.entries i) [
        | inl (t, y) ↦ let lt = h.below k e x in absurd (ground (arith, lt, same, y))
        | inr (nj, y) ↦ h.own k j e f x y same
      ]
    ];
    covered = λ k e f. elim (inserted key k _ e d.entries f) [
      | inl (s, x) ↦ inl (ground (arith, x, s))
      | inr (ne, g) ↦ old k e ne g (h.covered k e g)
    ];
    newest = λ k e f. elim (inserted key k _ e d.entries f) [
      | inl (s, x) ↦ ground (arith, x, s, eq_iff k key)
      | inr (ne, g) ↦ rw ne (h.newest k e g)
    ];
    empty = λ s. absurd (ground (arith, s, open'));
  }
    where
      old :
          (k : String) (e : Entry M)
          → str_eq k key ≡ false
          → lookup k d.entries ≡ some e
          → IsCovered d k e.0
          → IsCovered (set_entry M key msg d) k e.0
      old k e ne g (inr c) = inr c
      old k e ne g (inl c) =
          let lt = h.below k e g in
          let same = still_armed es d key k e (lookup key d.entries) h refl g ne in
          inl (ground (arith, lt, same, c))

  fire-IsPending :
      (es : List (Event M)) (d : Debouncer M) (id : ℕ) (o : Option String)
      → timer_key id d.armed ≡ o
      → IsPending es d
      → IsPending (fires id ∷ es) (start_flush M id o d)
  unfolding start_flush
  fire-IsPending es d id none t h = record {
    below = h.below;
    own = h.own;
    covered = h.covered;
    newest = h.newest;
    empty = h.empty;
  }
  fire-IsPending es d id (some key) t h = record {
    below = h.below;
    own = h.own;
    covered = λ k e f. moved k e f (h.covered k e f);
    newest = h.newest;
    empty = h.empty;
  }
    where
      moved :
          (k : String) (e : Entry M)
          → lookup k d.entries ≡ some e
          → IsCovered d k e.0
          → IsCovered (start_flush M id (some key) d) k e.0
      moved k e f (inr c) = inr (ground (arith, c))
      moved k e f (inl c) = elim (Bool-cases (e.0 == id)) [
        | inl y ↦
            let one : e.0 ≡ id = ground arith in
            let mine = sym t ∙ ap (λ i. timer_key i d.armed) (sym one) ∙ c in
            inr (ground (arith, eq_iff key k, mine))
        | inr y ↦ inl (timer_key-disarm e.0 id d.armed ∙ rw y c)
      ]

  -- Taking a started flush of a key leaves the timers of the other keys covered.
  still-IsCovered :
      (d : Debouncer M) (key k : String) (e : Entry M)
      → str_eq key k ≡ false
      → IsCovered d k e.0
      → IsCovered (record d { flushing = take_one key d.flushing }) k e.0
  still-IsCovered d key k e ne (inl c) = inl c
  still-IsCovered d key k e ne (inr c) = inr (any-take_one key k d.flushing ne ∙ c)

  flush-IsPending :
      (es : List (Event M)) (d : Debouncer M) (key : String) (o : Option (Entry M))
      → lookup key d.entries ≡ o
      → IsPending es d
      → IsPending
          (flushes key ∷ es)
          (flush_entry M key o (record d { flushing = take_one key d.flushing }))
  unfolding flush_entry
  flush-IsPending es d key none g h = record {
    below = h.below;
    own = h.own;
    covered =
        λ k e f. still-IsCovered d key k e (ground (arith, eq_iff key k, g, f)) (h.covered k e f);
    newest = h.newest;
    empty = h.empty;
  }
  flush-IsPending es d key (some x) g h = record {
    below = λ k e f. h.below k e (deleted key k e d.entries f).1;
    own = λ k j e y f i.
        h.own k j e y (deleted key k e d.entries f).1 (deleted key j y d.entries i).1;
    covered = λ k e f.
        let (ne, f') = deleted key k e d.entries f in
        still-IsCovered d key k e (ground (arith, eq_iff key k, eq_iff k key, ne))
          (h.covered k e f');
    newest = λ k e f. h.newest k e (deleted key k e d.entries f).1;
    empty = λ s k. rw (lookup-delete key k d.entries) (ground (arith, h.empty s k));
  }

  step-IsPending :
      (e : Event M) (es : List (Event M)) (d : Debouncer M)
      → IsPending es d
      → IsPending (e ∷ es) (step M e d)
  unfolding step submit fire flush stop lookup
  step-IsPending (submits key msg) es d h = by_flag d.stopped refl
    where
      by_flag :
          (b : Bool)
          → d.stopped ≡ b
          → IsPending (submits key msg ∷ es) (if b then d else set_entry M key msg d)
      by_flag false e = submit-IsPending es d key msg h e
      by_flag true e = record {
        below = h.below;
        own = h.own;
        covered = h.covered;
        newest = λ k x f. absurd (ground (arith, h.empty e k, f));
        empty = h.empty;
      }
  step-IsPending (fires id) es d h = fire-IsPending es d id (timer_key id d.armed) refl h
  step-IsPending (flushes key) es d h = by_flag (any (λ k. str_eq k key) d.flushing)
    where
      by_flag :
          (b : Bool)
          → IsPending (flushes key ∷ es) (
              if b
              then flush_entry M key
                  (lookup key d.entries)
                  (record d { flushing = take_one key d.flushing })
              else d)
      by_flag true = flush-IsPending es d key (lookup key d.entries) refl h
      by_flag false = record {
        below = h.below;
        own = h.own;
        covered = h.covered;
        newest = h.newest;
        empty = h.empty;
      }
  step-IsPending stops es d h = record {
    below = λ k e f. absurd (cc f);
    own = λ k j e x f i. absurd (cc f);
    covered = λ k e f. absurd (cc f);
    newest = λ k e f. absurd (cc f);
    empty = λ s k. refl;
  }

  -- After any events, each pending message is the one that was submitted last for its key, and a timer that has
  -- not fired, or a flush that has started, is there to deliver it.
  pub run-IsPending : (es : List (Event M)) → IsPending es (run M es)
  unfolding run new_debouncer lookup
  run-IsPending [] = record {
    below = λ k e f. absurd (cc f);
    own = λ k j e x f i. absurd (cc f);
    covered = λ k e f. absurd (cc f);
    newest = λ k e f. absurd (cc f);
    empty = λ s k. refl;
  }
  run-IsPending (e ∷ es) = step-IsPending e es (run M es) (run-IsPending es)
