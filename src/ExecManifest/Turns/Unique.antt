-- ===== src/ExecManifest/Turns/Unique.antt =====
-- Turns that run at the same time never record one number twice.
use ottie.Prelude.{
  ℕ, ◌≡◌, ◌≢◌, ◌⊎◌, inl, inr, refl, sym, ap, ◌∙◌, String, Bool, true, false, Option, none, some,
  List, [], ◌∷◌, ◌++◌, arith, str_eq, if◌then◌else◌,
}
use ottie.Prelude.Dict.{lookup}
use ottie.Prelude.Int.{pos, to_ℕ}
use ottie.Ledger.Rows.{SqlError}
use ottie.Ledger.Ops.{Call, Delivery, received, refused, abandoned, choose_id}
use ottie.ExecManifest.Rows.{Codec, Manifest, ProviderCall, TraceRow, Engine, has_trace, has_turn}
use ottie.ExecManifest.Store.{
  ManifestError, trace_already_recorded, wrap_begin, trace_row, refused_field,
}
use ottie.ExecManifest.Ops.{
  WriteOp, begin_op, record_op, Store, begin, record_provider_call, enqueue, deliver, handle_op,
  do_begin, start_begin, insert_begun, after_insert,
}
use ottie.ExecManifest.Reads.{Faults, unless, max_turn, select_max_turn, guarded_read}
use ottie.ExecManifest.Effects.{begun_row, do_begin_lem, do_record_call_lem}
use ottie.ExecManifest.Turns.{
  Counters, Turn, seeding, seeded, pending, no_counters, seed_of, World, TurnStep, TurnRun, loads,
  seeds, stores, adds, begins, gives_up, records_call, idle, and_then,
}
use ottie.ExecManifest.Turns.Fresh.{
  IsFresh, IsOpen, above_max, All-without, drop-IsFresh, join-IsFresh,
}
use ottie.ExecManifest.Turns.Cells.{load-IsFresh, store-IsFresh, add-IsFresh}
use ottie.ExecManifest.Turns.Recorded.{record-IsFresh}

module _ (codec : Codec) (sq : Engine) where
  open codec use {Versions}
  open sq use {Db, traces, calls}

  abbrev pub WorldIsFresh : World codec sq → Type 0
  WorldIsFresh w = IsFresh w.counters (traces w.store.db) w.turns

  -- A call leaves the database, or what the writer made of it.
  enqueue_db :
      (closed : Bool) (d : Delivery) (call : Call) (op : WriteOp codec sq) (s : Store codec sq)
      → let s' = (enqueue codec sq closed d call op s).1 in
        (s'.db ≡ s.db) ⊎ (s'.db ≡ (handle_op codec sq call op s.db).1)
  unfolding enqueue deliver
  enqueue_db true d call op s = inl refl
  enqueue_db false received call op s = inr refl
  enqueue_db false refused call op s = inl refl
  enqueue_db false abandoned call op s = inr refl

  -- A lookup that succeeds is of the rows there are.
  seeded_lem :
      (faults : Faults) (session : String) (s : Store codec sq) (k : ℕ)
      → max_turn codec sq faults session s ≡ inl k
      → k ≡ select_max_turn session (traces s.db)
  unfolding max_turn guarded_read
  seeded_lem faults session s k h = by_cases (str_eq session "") s.closed faults.on_traces h
    where
      by_cases :
          (empty closed : Bool) (fault : Option String)
          → (if empty
              then inr ManifestError.session_id_required
              else guarded_read closed (unless fault (select_max_turn session (traces s.db))))
            ≡ inl k
          → k ≡ select_max_turn session (traces s.db)
      by_cases true closed fault e = cc
      by_cases false true fault e = cc
      by_cases false false (some x) e = cc
      by_cases false false none e = cc

  seeds-IsFresh :
      (faults : Faults) (session : String) (k : ℕ) (before after : List Turn) (w : World codec sq)
      → max_turn codec sq faults session w.store ≡ inl k
      → IsFresh w.counters (traces w.store.db) (before ++ (seeding session ∷ after))
      → IsFresh w.counters
          (traces w.store.db)
          (seeded session (seed_of (max_turn codec sq faults session w.store)) ∷ (before ++ after))
  unfolding seed_of
  seeds-IsFresh faults session k before after w e h =
      let rows = traces w.store.db in
      let largest = seeded_lem faults session w.store k e in
      rw e (
        join-IsFresh w.counters rows (before ++ after) (seeded session k) tt
          (λ new n lt. above_max session n rows (omega (arith, largest, lt)))
          (drop-IsFresh w.counters rows before after (seeding session) h))

  begun-IsFresh :
      (call : Call) (m : Manifest Versions) (turn : ℕ) (before after : List Turn)
      (counters : Counters) (db : Db)
      → m.turn ≡ pos turn
      → IsFresh counters (traces db) (before ++ (pending m.session_id turn ∷ after))
      → IsFresh counters (traces (do_begin codec sq call m db).1) (before ++ after)
  unfolding begun_row trace_row
  begun-IsFresh call m turn before after counters db t h = elim (do_begin_lem codec sq call m db) [
    | inl (e, r, (ts, cs)) ↦
        rw ts (drop-IsFresh counters (traces db) before after (pending m.session_id turn) h)
    | inr (id, ok, e, (r, free, free_turn, ts, cs)) ↦ rw ts (
        record-IsFresh counters (traces db) before after m.session_id turn
          (begun_row codec sq call m id) refl (ap to_ℕ t) h)
  ]

  same_traces :
      (call : Call) (c : ProviderCall) (db : Db)
      → traces (handle_op codec sq call (record_op c) db).1 ≡ traces db
  unfolding handle_op
  same_traces call c db = elim (do_record_call_lem codec sq call c db) [
    | inl (e, r, (ts, cs)) ↦ ts
    | inr (ok, (r, there, free, ts, cs)) ↦ ts
  ]

  step-WorldIsFresh :
      (w u : World codec sq) → TurnStep codec sq w u → WorldIsFresh w → WorldIsFresh u
  unfolding begin record_provider_call handle_op
  step-WorldIsFresh w _ (loads session) h = load-IsFresh w.counters _ w.turns session h
  step-WorldIsFresh w _ (seeds faults session k before after p e) h =
      seeds-IsFresh faults session k before after w e (rw (sym p) h)
  step-WorldIsFresh w _ (stores session n before after p) h =
      store-IsFresh w.counters _ before after session n (rw (sym p) h)
  step-WorldIsFresh w _ (adds session a before after p) h =
      add-IsFresh w.counters _ before after session a (rw (sym p) h)
  step-WorldIsFresh w _ (begins d call m turn before after p t) h =
      elim (enqueue_db w.store.closed d call (begin_op m) w.store) [
        | inl same ↦
            rw same
              (drop-IsFresh w.counters _ before after (pending m.session_id turn) (rw (sym p) h))
        | inr same ↦
            rw same (begun-IsFresh call m turn before after w.counters w.store.db t (rw (sym p) h))
      ]
  step-WorldIsFresh w _ (gives_up p before after e) h =
      drop-IsFresh w.counters _ before after p (rw (sym e) h)
  step-WorldIsFresh w _ (records_call d call c) h =
      elim (enqueue_db w.store.closed d call (record_op c) w.store) [
        | inl same ↦ rw same h
        | inr same ↦ rw same (rw (same_traces call c w.store.db) h)
      ]

  run-WorldIsFresh : (w u : World codec sq) → TurnRun codec sq w u → WorldIsFresh w → WorldIsFresh u
  run-WorldIsFresh w _ idle h = h
  run-WorldIsFresh w u (and_then {v} run step) h =
      step-WorldIsFresh v u step (run-WorldIsFresh w v run h)

  -- The engine names a clash only where there is one: an INSERT into traces whose error Begin takes for
  -- "already recorded" has an identifier or a turn that a row has.
  abbrev pub NamesClashes : Type 0
  NamesClashes =
      (r : TraceRow) (db : Db) (e x : SqlError)
      → (sq.insert_trace r db).0 ≡ some e
      → wrap_begin e.code e ≡ trace_already_recorded x
      → (has_trace r.trace_id (traces db) ≡ true)
        ⊎ (has_turn r.session_id r.turn (traces db) ≡ true)

  field_error :
      (m : Manifest Versions) (x : SqlError) → refused_field m ≢ some (trace_already_recorded x)
  unfolding refused_field
  field_error m x h = ground arith

  insert_error :
      (call : Call) (m : Manifest Versions) (id : String) (db : Db) (x : SqlError)
      → NamesClashes
      → has_trace id (traces db) ≡ false
      → has_turn m.session_id (to_ℕ m.turn) (traces db) ≡ false
      → (insert_begun codec sq m call.now (some id) db).0.err ≢ some (trace_already_recorded x)
  unfolding insert_begun after_insert trace_row
  insert_error call m id db x names free free_turn h = by_cases (sq.insert_trace row db) refl h
    where
      row : TraceRow
      row = trace_row codec id call.now (to_ℕ m.turn) m

      by_cases :
          (y : Option SqlError × Db)
          → sq.insert_trace row db ≡ y
          → (after_insert codec sq (λ e. wrap_begin e.code e) id y).0.err
            ≢ some (trace_already_recorded x)
      by_cases (none, db') e h = cc
      by_cases (some z, db') e h = elim (names row db z x (ap (λ y. y.0) e) (cc h)) [
        | inl t ↦ ground arith
        | inr t ↦ ground arith
      ]

  begin_error :
      (call : Call) (m : Manifest Versions) (id : String) (db : Db) (x : SqlError)
      → NamesClashes
      → choose_id m.trace_id "trc-" call.random ≡ some id
      → has_trace id (traces db) ≡ false
      → has_turn m.session_id (to_ℕ m.turn) (traces db) ≡ false
      → (do_begin codec sq call m db).0.err ≢ some (trace_already_recorded x)
  unfolding do_begin start_begin
  begin_error call m id db x names chosen free free_turn h = by_field (refused_field m) refl h
    where
      by_id :
          (o : Option String)
          → o ≡ some id
          → (insert_begun codec sq m call.now o db).0.err ≢ some (trace_already_recorded x)
      by_id o e = rw e (insert_error call m id db x names free free_turn)

      by_field :
          (o : Option ManifestError)
          → refused_field m ≡ o
          → (start_begin codec sq o call m db).0.err ≢ some (trace_already_recorded x)
      by_field (some e) f h = field_error m x (f ∙ h)
      by_field none f h = by_id (choose_id m.trace_id "trc-" call.random) chosen h

  -- After a restart with any store, however the accesses of turns then interleave, with lookups that succeed,
  -- and whichever of them record or give up, a turn that has its number and is not recorded
  -- has a number that is not recorded in its session, and its Begin, on an engine that names only clashes
  -- there are and with an identifier that no row has, does not fail as "already recorded".
  pub begin_never_clashes :
      (s : Store codec sq) (w : World codec sq) (call : Call) (m : Manifest Versions) (turn : ℕ)
      (id : String) (before after : List Turn) (x : SqlError)
      → NamesClashes
      → TurnRun codec sq (record { store = s; counters = no_counters; turns = [] }) w
      → w.turns ≡ before ++ (pending m.session_id turn ∷ after)
      → m.turn ≡ pos turn
      → choose_id m.trace_id "trc-" call.random ≡ some id
      → has_trace id (traces w.store.db) ≡ false
      → (has_turn m.session_id turn (traces w.store.db) ≡ false)
        × ((begin codec sq received call m w.store).0.1 ≢ some (trace_already_recorded x))
  unfolding begin enqueue deliver handle_op lookup
  begin_never_clashes s w call m turn id before after x names run p t chosen free =
      let fresh = run-WorldIsFresh _ w run (record {
        old = λ k a e. cc;
        own = λ k k' a e e'. cc;
        above = λ k a n e lt. cc;
        open' = tt;
        apart = tt;
      }) in
      let (mine, rest) =
        All-without (IsOpen w.counters (traces w.store.db)) before (pending m.session_id turn) after
          (rw (sym p) fresh.open') in
      let free_turn = mine.3 in
      (
        free_turn,
        delivered w.store.closed
            (begin_error call m id w.store.db x names chosen free (rw t free_turn)),
      )
    where
      delivered :
          (closed : Bool)
          → (do_begin codec sq call m w.store.db).0.err ≢ some (trace_already_recorded x)
          → (enqueue codec sq closed received call (begin_op m) w.store).0.1
            ≢ some (trace_already_recorded x)
      delivered true ne h = cc
      delivered false ne h = ne h
