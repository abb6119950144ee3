-- ===== src/ExecManifest/Turns/Cells.antt =====
-- What Load, LoadOrStore and Add do to the turns in flight.
use ottie.Prelude.{
  ℕ, suc, ◌+◌, ◌≤◌, ◌<◌, ◌≡◌, ◌⊎◌, inl, inr, refl, sym, ap, ◌∙◌, String, false, Option, none, some,
  List, ◌∷◌, ◌++◌, arith, str_eq, eq_iff, eq_refl, Bool-cases, ◌==◌,
}
use ottie.Prelude.Dict.{lookup, insert, lookup-insert}
use ottie.ExecManifest.Rows.{TraceRow, has_turn}
use ottie.ExecManifest.Turns.{
  Counters, Turn, seeding, seeded, holding, pending, loaded, load_counter, set_cell, stored_cell,
  load_or_store, add_one,
}
use ottie.ExecManifest.Turns.Fresh.{
  Differs, IsOpen, IsFresh, All-map, All-without, Apart-without, drop-IsFresh, join-IsFresh,
}

pub load-IsFresh :
    (cs : Counters) (rows : List TraceRow) (turns : List Turn) (session : String)
    → IsFresh cs rows turns
    → IsFresh cs rows (load_counter session cs ∷ turns)
unfolding load_counter
load-IsFresh cs rows turns session h = by_cell (lookup session cs.index) refl
  where
    by_cell :
        (o : Option ℕ) → lookup session cs.index ≡ o → IsFresh cs rows (loaded session o ∷ turns)
    by_cell none e = join-IsFresh cs rows turns (seeding session) tt tt h
    by_cell (some a) e = join-IsFresh cs rows turns (holding session a) tt e h

-- A new cell that no session has changes nothing.
spare-IsFresh :
    (cs : Counters) (rows : List TraceRow) (turns : List Turn) (seed : ℕ)
    → IsFresh cs rows turns
    → IsFresh (record cs { cells = set_cell cs.next seed cs.cells; next = suc cs.next }) rows turns
spare-IsFresh cs rows turns seed h = record {
  old = λ s a e. let lt = h.old s a e in omega (arith, lt);
  own = h.own;
  above = λ s a n e lt. h.above s a n e (let lt' = h.old s a e in ground (arith, lt, lt'));
  open' = All-map _ _ turns kept h.open';
  apart = h.apart;
}
  where
    kept :
        (t : Turn)
        → IsOpen cs rows t
        → IsOpen (record cs { cells = set_cell cs.next seed cs.cells; next = suc cs.next }) rows t
    kept (seeding s) o = tt
    kept (seeded s n) o = o
    kept (holding s a) o = o
    kept (pending s n) (a, e, le, free) =
        (a, e, (let lt = h.old s a e in ground (arith, lt, le)), free)

-- A session without a cell gets a new one, with a seed above which none of its turns is recorded.
new-IsFresh :
    (cs : Counters) (rows : List TraceRow) (turns : List Turn) (session : String) (seed : ℕ)
    → lookup session cs.index ≡ none
    → ((n : ℕ) → seed < n → has_turn session n rows ≡ false)
    → IsFresh cs rows turns
    → IsFresh (stored_cell session seed none cs).1 rows turns
new-IsFresh cs rows turns session seed new free h = record {
  old = λ s a e. elim (found s a e) [
    | inl (same, at) ↦ omega (arith, at)
    | inr (ne, f) ↦ let lt = h.old s a f in omega (arith, lt)
  ];
  own = λ s s' a e e'. elim (found s a e) [
    | inl (same, at) ↦ elim (found s' a e') [
      | inl (same', at') ↦ same ∙ sym same'
      | inr (ne', f') ↦ let lt = h.old s' a f' in absurd (omega (arith, at, lt))
    ]
    | inr (ne, f) ↦ elim (found s' a e') [
      | inl (same', at') ↦ let lt = h.old s a f in absurd (omega (arith, at', lt))
      | inr (ne', f') ↦ h.own s s' a f f'
    ]
  ];
  above = λ s a n e lt. elim (found s a e) [
    | inl (same, at) ↦ rw same (free n (ground (arith, lt, at)))
    | inr (ne, f) ↦ h.above s a n f (let lt' = h.old s a f in ground (arith, lt, lt'))
  ];
  open' = All-map _ _ turns kept h.open';
  apart = h.apart;
}
  where
    found :
        (s : String) (a : ℕ)
        → lookup s (insert session cs.next cs.index) ≡ some a
        → ((s ≡ session) × (a ≡ cs.next))
          ⊎ ((str_eq s session ≡ false) × (lookup s cs.index ≡ some a))
    found s a e = elim (Bool-cases (str_eq s session)) [
      | inl y ↦
          let at = sym (lookup-insert session s cs.next cs.index) ∙ e in
          inl (ground (arith, eq_iff s session), ground (arith, at, y))
      | inr y ↦ inr (y, ground (arith, lookup-insert session s cs.next cs.index, e, y))
    ]

    other : (s : String) (a : ℕ) → lookup s cs.index ≡ some a → str_eq s session ≡ false
    other s a e = elim (Bool-cases (str_eq s session)) [
      | inl y ↦
          let same : s ≡ session = ground (arith, eq_iff s session) in
          absurd (cc (sym e ∙ ap (λ k. lookup k cs.index) same ∙ new))
      | inr y ↦ y
    ]

    still :
        (s : String) (a : ℕ)
        → lookup s cs.index ≡ some a
        → lookup s (insert session cs.next cs.index) ≡ some a
    still s a e = lookup-insert session s cs.next cs.index ∙ rw (other s a e) e

    kept : (t : Turn) → IsOpen cs rows t → IsOpen (stored_cell session seed none cs).1 rows t
    kept (seeding s) o = tt
    kept (seeded s n) o = λ e. o (elim (Bool-cases (str_eq s session)) [
      | inl y ↦ absurd (ground (arith, lookup-insert session s cs.next cs.index, e, y))
      | inr y ↦ ground (arith, lookup-insert session s cs.next cs.index, e, y)
    ])
    kept (holding s a) o = still s a o
    kept (pending s n) (a, e, le, free') =
        (a, still s a e, (let lt = h.old s a e in ground (arith, lt, le)), free')

-- LoadOrStore: the turn holds the session's cell, whether it was there or not.
pub store-IsFresh :
    (cs : Counters) (rows : List TraceRow) (before after : List Turn) (session : String) (n : ℕ)
    → IsFresh cs rows (before ++ (seeded session n ∷ after))
    → let (a, cs') = load_or_store session n cs in
      IsFresh cs' rows (holding session a ∷ (before ++ after))
unfolding load_or_store
store-IsFresh cs rows before after session n h = by_cell (lookup session cs.index) refl
  where
    rest : IsFresh cs rows (before ++ after)
    rest = drop-IsFresh cs rows before after (seeded session n) h

    by_cell :
        (o : Option ℕ)
        → lookup session cs.index ≡ o
        → let (a, cs') = stored_cell session n o cs in
          IsFresh cs' rows (holding session a ∷ (before ++ after))
    by_cell (some a) e =
        join-IsFresh _ rows (before ++ after) (holding session a) tt e
          (spare-IsFresh cs rows (before ++ after) n rest)
    by_cell none e =
        let (current, others) =
          All-without (IsOpen cs rows) before (seeded session n) after h.open' in
        join-IsFresh _ rows (before ++ after) (holding session cs.next) tt
          (lookup-insert session session cs.next cs.index ∙ rw (eq_refl session) refl)
          (new-IsFresh cs rows (before ++ after) session n e (current e) rest)

-- Add: the number is new.
pub add-IsFresh :
    (cs : Counters) (rows : List TraceRow) (before after : List Turn) (session : String) (a : ℕ)
    → IsFresh cs rows (before ++ (holding session a ∷ after))
    → let (n, cs') = add_one a cs in IsFresh cs' rows (pending session n ∷ (before ++ after))
unfolding add_one
add-IsFresh cs rows before after session a h =
    let (mine, others) = All-without (IsOpen cs rows) before (holding session a) after h.open' in
    let (differ, apart) = Apart-without before (holding session a) after h.apart in
    record {
      old = h.old;
      own = h.own;
      above = λ s b n e lt. h.above s b n e (grown b n lt);
      open' = (
        (a, mine, ground arith, h.above session a (cs.cells a + 1) mine (omega arith)),
        All-map _ _ (before ++ after) kept others,
      );
      apart = (All-map _ _ (before ++ after) (less mine) others, apart);
    }
  where
    grown : (b n : ℕ) → set_cell a (cs.cells a + 1) cs.cells b < n → cs.cells b < n
    grown b n lt = elim (Bool-cases (b == a)) [
      | inl y ↦ let same : b ≡ a = ground (arith, y) in rw same (ground (arith, lt, same))
      | inr y ↦ ground (arith, lt, y)
    ]

    kept :
        (t : Turn)
        → IsOpen cs rows t
        → IsOpen (record cs { cells = set_cell a (cs.cells a + 1) cs.cells }) rows t
    kept (seeding s) o = tt
    kept (seeded s n) o = o
    kept (holding s b) o = o
    kept (pending s n) (b, e, le, free) = (
      b,
      e,
      elim (Bool-cases (b == a)) [
        | inl y ↦
            let same : b ≡ a = ground (arith, y) in
            let le' : n ≤ cs.cells a = rw same at le in rw y (omega (arith, le'))
        | inr y ↦ rw y le
      ],
      free,
    )

    less :
        lookup session cs.index ≡ some a
        → (t : Turn) → IsOpen cs rows t
        → Differs (pending session (cs.cells a + 1)) t
    less mine (seeding s) o = tt
    less mine (seeded s n) o = tt
    less mine (holding s b) o = tt
    less mine (pending s n) (b, e, le, free) = λ same eq.
        let both = sym mine ∙ ap (λ k. lookup k cs.index) same ∙ e in
        let one : a ≡ b = cc both in absurd (omega (arith, eq, ap cs.cells one, le))
