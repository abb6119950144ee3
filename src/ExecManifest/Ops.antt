-- ===== src/ExecManifest/Ops.antt =====
-- execmanifest.go: doBegin, doRecordCall, handleOp, and Begin, RecordProviderCall and Close over them.
use ottie.Prelude.{ℕ, String, Bool, true, false, Option, none, some}
use ottie.Prelude.Int.{to_ℕ}
use ottie.Ledger.Rows.{SqlError}
use ottie.Ledger.Ops.{choose_id, Call, Delivery, received, refused, abandoned}
use ottie.ExecManifest.Rows.{Codec, Manifest, ProviderCall, Engine}
use ottie.ExecManifest.Store.{
  ManifestError, generate_id, store_closed, context_done, WriteResult, failed_with, written,
  wrap_begin, wrap_record_call, refused_field, refused_call_field, trace_row, call_row,
}

module _ (codec : Codec) (sq : Engine) where
  open codec use {Versions}
  open sq use {Db}

  pub data WriteOp : Type 0 where
    begin_op : Manifest Versions → WriteOp
    record_op : ProviderCall → WriteOp

  -- The end of a write: the error of the INSERT, or a checkpoint, whose failure is only logged.
  unfoldable pub after_insert :
      (SqlError → ManifestError) → String → Option SqlError × Db → WriteResult × Db
  after_insert wrap id (some e, db) = (failed_with (wrap e), db)
  after_insert wrap id (none, db) = (written id, (sq.checkpoint db).1)

  -- `doBegin` from the choice of the identifier on.
  unfoldable pub insert_begun : Manifest Versions → ℕ → Option String → Db → WriteResult × Db
  unfolding after_insert trace_row
  insert_begun m now none db = (failed_with generate_id, db)
  insert_begun m now (some id) db =
      after_insert (λ e. wrap_begin e.code e) id
        (sq.insert_trace (trace_row codec id now (to_ℕ m.turn) m) db)

  unfoldable pub start_begin :
      Option ManifestError → Call → Manifest Versions → Db → WriteResult × Db
  unfolding insert_begun
  start_begin (some e) call m db = (failed_with e, db)
  start_begin none call m db = insert_begun m call.now (choose_id m.trace_id "trc-" call.random) db

  unfoldable pub do_begin : Call → Manifest Versions → Db → WriteResult × Db
  unfolding start_begin
  do_begin call m db = start_begin (refused_field m) call m db

  unfoldable pub start_record_call :
      Option ManifestError → Call → ProviderCall → Db → WriteResult × Db
  unfolding after_insert call_row
  start_record_call (some e) call c db = (failed_with e, db)
  start_record_call none call c db =
      after_insert (λ e. wrap_record_call e.code e) ""
        (sq.insert_call (call_row call.now (to_ℕ c.call_seq) c) db)

  unfoldable pub do_record_call : Call → ProviderCall → Db → WriteResult × Db
  unfolding start_record_call
  do_record_call call c db = start_record_call (refused_call_field c) call c db

  unfoldable pub handle_op : Call → WriteOp → Db → WriteResult × Db
  unfolding do_begin do_record_call
  handle_op call (begin_op m) db = do_begin call m db
  handle_op call (record_op c) db = do_record_call call c db

  -- The handle: the database, and `closedFlag`.
  pub record Store : Type 0 where
    pub db : Db
    pub closed : Bool

  -- What the caller of `enqueue` sees of a result.
  unfoldable pub deliver :
      Delivery → WriteResult × Db → Store → (String × Option ManifestError) × Store
  deliver received (r, db') s = ((r.id, r.err), record s { db = db' })
  deliver abandoned (r, db') s = (("", some context_done), record s { db = db' })
  deliver refused (r, db') s = (("", some context_done), s)

  unfoldable pub enqueue :
      Bool → Delivery → Call → WriteOp → Store → (String × Option ManifestError) × Store
  unfolding deliver handle_op
  enqueue true d call op s = (("", some store_closed), s)
  enqueue false d call op s = deliver d (handle_op call op s.db) s

  unfoldable pub begin :
      Delivery → Call → Manifest Versions → Store → (String × Option ManifestError) × Store
  unfolding enqueue
  begin d call m s = enqueue s.closed d call (begin_op m) s

  unfoldable pub record_provider_call :
      Delivery → Call → ProviderCall → Store → Option ManifestError × Store
  unfolding enqueue
  record_provider_call d call c s =
      let (r, s') = enqueue s.closed d call (record_op c) s in (r.1, s')

  -- `Close`, by which time the writer has handled what was queued.
  unfoldable pub close : Store → Store
  close s = record s { closed = true }
