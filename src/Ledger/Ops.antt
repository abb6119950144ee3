-- ===== src/Ledger/Ops.antt =====
-- actionlog.go: doPrepare, doCommit, doAbort, handleOp, and the public Prepare, Commit, Abort and
-- Close over them. A random identifier is an argument, `none` where rand.Read fails; so is the time.
use ottie.Prelude.{
  ℕ, String, Bool, true, false, Option, none, some, [], ◌∷◌, ◌==◌, str_eq, if◌then◌else◌,
}
use Prim.Native.String.{◌++◌}
use ottie.Ledger.Text.{bytes, contains_any}
use ottie.Ledger.Rows.{
  Intent, Commit, Abort, marshal_fails, ids_column, CommitRow, committed, aborted, SqlError, Sqlite,
  sqlite_constraint_foreign_key, sqlite_constraint_unique,
}

pub data LedgerError : Type 0 where
  trace_id_required tool_name_required args_hash_required principal_required : LedgerError
  effect_class_required intent_id_required generate_id marshal_external_ids : LedgerError
  insert_failed already_finalized intent_not_found : SqlError → LedgerError
  ledger_closed context_done : LedgerError

-- `writeResult`: the identifier and the error.
pub record WriteResult : Type 0 where
  pub id : String
  pub err : Option LedgerError

abbrev pub failed_with : LedgerError → WriteResult
failed_with e = record { id = ""; err = some e }

abbrev pub written : String → WriteResult
written id = record { id = id; err = none }

-- The substring fallback of `wrapFinalizationError`.
unfoldable pub wrap_by_text : SqlError → LedgerError
wrap_by_text e =
    if contains_any e.text
      (bytes "UNIQUE constraint failed" ∷ bytes "constraint failed: action_commits.intent_id" ∷ [])
    then already_finalized e
    else if contains_any e.text (bytes "FOREIGN KEY constraint failed" ∷ [])
    then intent_not_found e
    else insert_failed e

unfoldable pub wrap_by_code : Option ℕ → SqlError → LedgerError
unfolding wrap_by_text
wrap_by_code none e = wrap_by_text e
wrap_by_code (some code) e =
    if code == sqlite_constraint_unique
    then already_finalized e
    else if code == sqlite_constraint_foreign_key
    then intent_not_found e
    else wrap_by_text e

unfoldable pub wrap_finalization_error : SqlError → LedgerError
unfolding wrap_by_code
wrap_finalization_error e = wrap_by_code e.code e

-- The caller's identifier, or a prefix and the random one.
unfoldable pub choose_id : String → String → Option String → Option String
choose_id given prefix none = if str_eq given "" then none else some given
choose_id given prefix (some generated) =
    if str_eq given "" then some (prefix ++ generated) else some given

-- The first required field that is empty.
unfoldable pub missing_field : Intent → Option LedgerError
missing_field in' =
    if str_eq in'.trace_id ""
    then some trace_id_required
    else if str_eq in'.tool_name ""
    then some tool_name_required
    else if str_eq in'.args_hash ""
    then some args_hash_required
    else if str_eq in'.principal ""
    then some principal_required
    else if str_eq in'.effect_class ""
    then some effect_class_required
    else none

-- The row's `completed_at` and `prepared_at` are l.nowFn().UnixMilli().
pub record Call : Type 0 where
  pub random : Option String
  pub now : ℕ

pub data WriteOp : Type 0 where
  prepare : Intent → WriteOp
  commit : Commit → WriteOp
  abort : Abort → WriteOp

module _ (sq : Sqlite) where
  open sq use {Db, insert_intent, insert_commit, checkpoint}

  -- The end of a write: the error of the INSERT, or a checkpoint, whose failure is only logged.
  unfoldable pub after_insert :
      (SqlError → LedgerError) → String → Option SqlError → Db → WriteResult × Db
  after_insert wrap id (some e) db = (failed_with (wrap e), db)
  after_insert wrap id none db = (written id, (checkpoint db).1)

  -- `doPrepare` from the choice of the identifier on.
  unfoldable pub insert_prepared : Intent → ℕ → Option String → Db → WriteResult × Db
  unfolding after_insert
  insert_prepared i now none db = (failed_with generate_id, db)
  insert_prepared i now (some id) db =
      let (e, db') =
        insert_intent (record { intent = record i { intent_id = id }; prepared_at = now }) db in
      after_insert insert_failed id e db'

  unfoldable pub start_prepare : Option LedgerError → Call → Intent → Db → WriteResult × Db
  unfolding insert_prepared
  start_prepare (some e) call i db = (failed_with e, db)
  start_prepare none call i db =
      insert_prepared i call.now (choose_id i.intent_id "int-" call.random) db

  unfoldable pub do_prepare : Call → Intent → Db → WriteResult × Db
  unfolding start_prepare
  do_prepare call i db = start_prepare (missing_field i) call i db

  unfoldable pub insert_final : CommitRow → Option String → Db → WriteResult × Db
  unfolding after_insert
  insert_final row none db = (failed_with generate_id, db)
  insert_final row (some id) db =
      let (e, db') = insert_commit (record row { commit_id = id }) db in
      after_insert wrap_finalization_error id e db'

  unfoldable pub do_commit : Call → Commit → Db → WriteResult × Db
  unfolding insert_final
  do_commit call c db =
      if str_eq c.intent_id ""
      then (failed_with intent_id_required, db)
      else if marshal_fails c.external_ids
      then (failed_with marshal_external_ids, db)
      else insert_final
          (record {
            commit_id = c.commit_id;
            intent_id = c.intent_id;
            status = committed;
            external_ids = ids_column c.external_ids;
            result_hash = some c.result_hash;
            error_message = none;
            completed_at = call.now;
          })
          (choose_id c.commit_id "cmt-" call.random) db

  unfoldable pub do_abort : Call → Abort → Db → WriteResult × Db
  unfolding insert_final
  do_abort call a db =
      if str_eq a.intent_id ""
      then (failed_with intent_id_required, db)
      else insert_final
          (record {
            commit_id = a.commit_id;
            intent_id = a.intent_id;
            status = aborted;
            external_ids = none;
            result_hash = none;
            error_message = some a.error_message;
            completed_at = call.now;
          })
          (choose_id a.commit_id "cmt-" call.random) db

  unfoldable pub handle_op : Call → WriteOp → Db → WriteResult × Db
  handle_op call (prepare i) db = do_prepare call i db
  handle_op call (commit c) db = do_commit call c db
  handle_op call (abort a) db = do_abort call a db

-- How the context of a call meets the writer: the reply is received; the context is done before the
-- writer takes the operation; or it is done while the caller waits for the reply.
pub data Delivery : Type 0 where
  received refused abandoned : Delivery

module _ (sq : Sqlite) where
  open sq use {Db}

  -- The handle: the database, and `closedFlag`.
  pub record Ledger : Type 0 where
    pub db : Db
    pub closed : Bool

  -- What the caller of `enqueue` sees of a result: its identifier and its error.
  unfoldable pub deliver :
      Delivery → WriteResult × Db → Ledger → (String × Option LedgerError) × Ledger
  deliver received (r, db') l = ((r.id, r.err), record l { db = db' })
  deliver abandoned (r, db') l = (("", some context_done), record l { db = db' })
  deliver refused (r, db') l = (("", some context_done), l)

  -- `enqueue` under the read lock, by `closedFlag`, the writer's `handleOp`, and the reply.
  unfoldable pub enqueue :
      Bool → Delivery → Call → WriteOp → Ledger → (String × Option LedgerError) × Ledger
  unfolding deliver
  enqueue true d call op l = (("", some ledger_closed), l)
  enqueue false d call op l = deliver d (handle_op sq call op l.db) l

  unfoldable pub submit :
      Delivery → Call → WriteOp → Ledger → (String × Option LedgerError) × Ledger
  unfolding enqueue
  submit d call op l = enqueue l.closed d call op l

  -- `Close`, by which time the writer has handled what was queued.
  unfoldable pub close : Ledger → Ledger
  close l = record l { closed = true }
