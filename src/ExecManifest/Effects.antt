-- ===== src/ExecManifest/Effects.antt =====
-- What each operation of the writer does to the two tables.
use ottie.Prelude.{
  ◌≡◌, ◌⊎◌, inl, inr, refl, sym, ap, ◌∙◌, String, true, false, Option, none, some, [], ◌∷◌, ◌++◌,
}
use ottie.Prelude.Int.{to_ℕ}
use ottie.Ledger.Rows.{SqlError}
use ottie.Ledger.Ops.{choose_id, Call}
use ottie.ExecManifest.Rows.{
  Codec, Manifest, ProviderCall, TraceRow, CallRow, Engine, has_trace, has_turn, has_call,
}
use ottie.ExecManifest.Store.{
  ManifestError, generate_id, WriteResult, failed_with, written, wrap_begin, wrap_record_call,
  refused_field, refused_call_field, trace_row, call_row,
}
use ottie.ExecManifest.Ops.{
  WriteOp, begin_op, record_op, after_insert, insert_begun, start_begin, do_begin,
  start_record_call, do_record_call, handle_op,
}

module _ (codec : Codec) (sq : Engine) where
  open codec use {Versions}
  open sq use {Db, traces, calls}

  abbrev pub SameRows : Db → Db → Type 0
  SameRows db db' = (traces db' ≡ traces db) × (calls db' ≡ calls db)

  -- The operation failed, and both tables are as they were.
  abbrev pub Refused : WriteResult → Db → Db → Type 0
  Refused res db db' = (e : ManifestError) × (res ≡ failed_with e) × SameRows db db'

  -- The operation wrote one row to traces, under an identifier and a turn that were free.
  abbrev pub Begun : TraceRow → WriteResult → Db → Db → Type 0
  Begun r res db db' =
      (res ≡ written r.trace_id)
      × (has_trace r.trace_id (traces db) ≡ false)
      × (has_turn r.session_id r.turn (traces db) ≡ false)
      × (traces db' ≡ traces db ++ (r ∷ []))
      × (calls db' ≡ calls db)

  -- The operation wrote one row to trace_provider_requests, for a trace that is there.
  abbrev pub Recorded : CallRow → WriteResult → Db → Db → Type 0
  Recorded c res db db' =
      (res ≡ written "")
      × (has_trace c.trace_id (traces db) ≡ true)
      × (has_call c.trace_id c.call_seq (calls db) ≡ false)
      × (traces db' ≡ traces db)
      × (calls db' ≡ calls db ++ (c ∷ []))

  unfoldable pub begun_row : Call → Manifest Versions → String → TraceRow
  unfolding trace_row
  begun_row call m id = trace_row codec id call.now (to_ℕ m.turn) m

  insert_trace_lem :
      (wrap : SqlError → ManifestError) (r : TraceRow) (db : Db)
      → let (res, db') = after_insert codec sq wrap r.trace_id (sq.insert_trace r db) in
        Refused res db db' ⊎ Begun r res db db'
  unfolding after_insert
  insert_trace_lem wrap r db = split (sq.insert_trace r db) refl
    where
      split :
          (x : Option SqlError × Db)
          → sq.insert_trace r db ≡ x
          → let (res, db') = after_insert codec sq wrap r.trace_id x in
            Refused res db db' ⊎ Begun r res db db'
      split (some e, db') h = inl (
        wrap e,
        refl,
        rw (sym (ap (λ x. x.1) h)) (sq.insert_trace_failed r db e (ap (λ x. x.0) h)),
      )
      split (none, db') h =
          let (ts, cs, free, free_turn) = sq.insert_trace_done r db (ap (λ x. x.0) h) in
          let (ts', cs') = sq.checkpoint_rows db' in
          let db-eq = ap (λ x. x.1) h in
          inr (refl, free, free_turn, ts' ∙ rw (sym db-eq) ts, cs' ∙ rw (sym db-eq) cs)

  insert_call_lem :
      (wrap : SqlError → ManifestError) (c : CallRow) (db : Db)
      → let (res, db') = after_insert codec sq wrap "" (sq.insert_call c db) in
        Refused res db db' ⊎ Recorded c res db db'
  unfolding after_insert
  insert_call_lem wrap c db = split (sq.insert_call c db) refl
    where
      split :
          (x : Option SqlError × Db)
          → sq.insert_call c db ≡ x
          → let (res, db') = after_insert codec sq wrap "" x in
            Refused res db db' ⊎ Recorded c res db db'
      split (some e, db') h = inl (
        wrap e,
        refl,
        rw (sym (ap (λ x. x.1) h)) (sq.insert_call_failed c db e (ap (λ x. x.0) h)),
      )
      split (none, db') h =
          let (ts, cs, there, free) = sq.insert_call_done c db (ap (λ x. x.0) h) in
          let (ts', cs') = sq.checkpoint_rows db' in
          let db-eq = ap (λ x. x.1) h in
          inr (refl, there, free, ts' ∙ rw (sym db-eq) ts, cs' ∙ rw (sym db-eq) cs)

  insert_begun_lem :
      (call : Call) (m : Manifest Versions) (o : Option String) (db : Db)
      → let (res, db') = insert_begun codec sq m call.now o db in
        Refused res db db'
        ⊎ ((id : String) × (o ≡ some id) × Begun (begun_row call m id) res db db')
  unfolding insert_begun begun_row
  insert_begun_lem call m none db = inl (generate_id, refl, (refl, refl))
  insert_begun_lem call m (some id) db =
      elim (insert_trace_lem (λ e. wrap_begin e.code e) (begun_row call m id) db) [
        | inl x ↦ inl x
        | inr x ↦ inr (id, refl, x)
      ]

  start_begin_lem :
      (call : Call) (m : Manifest Versions) (o : Option ManifestError) (db : Db)
      → let (res, db') = start_begin codec sq o call m db in
        Refused res db db'
        ⊎ ((id : String) × (o ≡ none)
            × (choose_id m.trace_id "trc-" call.random ≡ some id)
            × Begun (begun_row call m id) res db db')
  unfolding start_begin
  start_begin_lem call m (some e) db = inl (e, refl, (refl, refl))
  start_begin_lem call m none db =
      elim (insert_begun_lem call m (choose_id m.trace_id "trc-" call.random) db) [
        | inl x ↦ inl x
        | inr (id, e, x) ↦ inr (id, refl, e, x)
      ]

  -- Begin either fails and writes nothing, or every field is accepted and it writes exactly one row, under
  -- the identifier that it returns, which no row had, for a turn that the session had no row of.
  pub do_begin_lem :
      (call : Call) (m : Manifest Versions) (db : Db)
      → let (res, db') = do_begin codec sq call m db in
        Refused res db db'
        ⊎ ((id : String) × (refused_field m ≡ none)
            × (choose_id m.trace_id "trc-" call.random ≡ some id)
            × Begun (begun_row call m id) res db db')
  unfolding do_begin
  do_begin_lem call m db = start_begin_lem call m (refused_field m) db

  start_record_call_lem :
      (call : Call) (c : ProviderCall) (o : Option ManifestError) (db : Db)
      → let (res, db') = start_record_call codec sq o call c db in
        Refused res db db'
        ⊎ ((o ≡ none) × Recorded (call_row call.now (to_ℕ c.call_seq) c) res db db')
  unfolding start_record_call
  start_record_call_lem call c (some e) db = inl (e, refl, (refl, refl))
  start_record_call_lem call c none db =
      elim (insert_call_lem (λ e. wrap_record_call e.code e) (call_row call.now (to_ℕ c.call_seq) c)
        db) [ inl x ↦ inl x | inr x ↦ inr (refl, x) ]

  -- RecordProviderCall either fails and writes nothing, or every field is accepted and it writes exactly one
  -- row, for a trace that is there and had no call of that number.
  pub do_record_call_lem :
      (call : Call) (c : ProviderCall) (db : Db)
      → let (res, db') = do_record_call codec sq call c db in
        Refused res db db'
        ⊎ ((refused_call_field c ≡ none)
            × Recorded (call_row call.now (to_ℕ c.call_seq) c) res db db')
  unfolding do_record_call
  do_record_call_lem call c db = start_record_call_lem call c (refused_call_field c) db

  -- Every operation of the writer refuses, adds one trace, or adds one call.
  pub handle_op_lem :
      (call : Call) (op : WriteOp codec sq) (db : Db)
      → let (res, db') = handle_op codec sq call op db in
        Refused res db db'
        ⊎ (((r : TraceRow) × Begun r res db db') ⊎ ((c : CallRow) × Recorded c res db db'))
  unfolding handle_op
  handle_op_lem call (begin_op m) db = elim (do_begin_lem call m db) [
    | inl x ↦ inl x
    | inr (id, ok, e, x) ↦ inr (inl (begun_row call m id, x))
  ]
  handle_op_lem call (record_op c) db = elim (do_record_call_lem call c db) [
    | inl x ↦ inl x
    | inr (ok, x) ↦ inr (inr (call_row call.now (to_ℕ c.call_seq) c, x))
  ]
