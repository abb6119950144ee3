-- ===== src/Ledger/Effects.antt =====
-- What each operation of the writer does to the two tables.
use ottie.Prelude.{
  ◌≡◌, ◌⊎◌, inl, inr, refl, ◌∙◌, String, true, false, Option, none, some, [], ◌∷◌, ◌++◌, str_eq,
  Bool-cases,
}
use ottie.Ledger.Rows.{
  marshal_fails, ids_column, Intent, Commit, Abort, IntentRow, CommitRow, SqlError, Sqlite,
  has_intent, has_commit, committed, aborted,
}
use ottie.Ledger.Ops.{
  marshal_external_ids, LedgerError, generate_id, intent_id_required, insert_failed, WriteResult,
  Call, WriteOp, prepare, commit, abort, after_insert, insert_prepared, start_prepare, do_prepare,
  insert_final, do_commit, do_abort, handle_op, wrap_finalization_error, missing_field, choose_id,
}

abbrev pub intent_row : Call → Intent → String → IntentRow
intent_row call i id = record { intent = record i { intent_id = id }; prepared_at = call.now }

abbrev pub commit_row : Call → Commit → String → CommitRow
commit_row call c id = record {
  commit_id = id;
  intent_id = c.intent_id;
  status = committed;
  external_ids = ids_column c.external_ids;
  result_hash = some c.result_hash;
  error_message = none;
  completed_at = call.now;
}

abbrev pub abort_row : Call → Abort → String → CommitRow
abort_row call a id = record {
  commit_id = id;
  intent_id = a.intent_id;
  status = aborted;
  external_ids = none;
  result_hash = none;
  error_message = some a.error_message;
  completed_at = call.now;
}

module _ (sq : Sqlite) where
  open sq use {Db, intents, commits, insert_intent, insert_commit}

  abbrev pub SameRows : Db → Db → Type 0
  SameRows db db' = (intents db' ≡ intents db) × (commits db' ≡ commits db)

  -- The operation failed, and both tables are as they were.
  abbrev pub Refused : WriteResult → Db → Db → Type 0
  Refused res db db' = (e : LedgerError) × (res.err ≡ some e) × (SameRows db db')

  -- The operation wrote one new row to action_intents, under an identifier that was free.
  abbrev pub Inserted : IntentRow → WriteResult → Db → Db → Type 0
  Inserted r res db db' =
      (res.err ≡ none)
      × (res.id ≡ r.intent.intent_id)
      × (has_intent r.intent.intent_id (intents db) ≡ false)
      × (intents db' ≡ intents db ++ (r ∷ []))
      × (commits db' ≡ commits db)

  -- The operation wrote one new row to action_commits, for an intent that is there and had none.
  abbrev pub Finalized : CommitRow → WriteResult → Db → Db → Type 0
  Finalized c res db db' =
      (res.err ≡ none)
      × (res.id ≡ c.commit_id)
      × (has_intent c.intent_id (intents db) ≡ true)
      × (has_commit c.intent_id (commits db) ≡ false)
      × (intents db' ≡ intents db)
      × (commits db' ≡ commits db ++ (c ∷ []))

  insert_prepared_lem :
      (i : Intent) (call : Call) (o : Option String) (db : Db)
      → let (res, db') = insert_prepared sq i call.now o db in
        Refused res db db' ⊎ ((o ≡ some res.id) × (Inserted (intent_row call i res.id) res db db'))
  unfolding insert_prepared after_insert
  insert_prepared_lem i call none db = inl (generate_id, refl, (refl, refl))
  insert_prepared_lem i call (some id) db = split (insert_intent (intent_row call i id) db).0 refl
    where
      split :
          (o : Option SqlError)
          → (insert_intent (intent_row call i id) db).0 ≡ o
          → let (res, db') = insert_prepared sq i call.now (some id) db in
            Refused res db db'
            ⊎ (some id ≡ some res.id × (Inserted (intent_row call i res.id) res db db'))
      split none e =
          let (ins, coms, free) = sq.insert_intent_done (intent_row call i id) db e in
          let (ins', coms') = sq.checkpoint_rows (insert_intent (intent_row call i id) db).1 in
          rw (e, after_insert) (inr (refl, (refl, refl, free, ins' ∙ ins, coms' ∙ coms)))
      split (some x) e =
          rw (e, after_insert)
            (inl (insert_failed x, refl, sq.insert_intent_failed (intent_row call i id) db x e))

  start_prepare_lem :
      (call : Call) (i : Intent) (db : Db) (o : Option LedgerError)
      → let (res, db') = start_prepare sq o call i db in
        Refused res db db' ⊎ ((o ≡ none) × (Inserted (intent_row call i res.id) res db db'))
  unfolding start_prepare
  start_prepare_lem call i db (some e) = inl (e, refl, (refl, refl))
  start_prepare_lem call i db none =
      elim (insert_prepared_lem i call (choose_id i.intent_id "int-" call.random) db) [
        | inl r ↦ inl r
        | inr w ↦ inr (refl, w.1)
      ]

  -- Prepare either fails and writes nothing, or every required field is there and it writes exactly
  -- one intent row, under the identifier that it returns, which no row had before.
  pub do_prepare_lem :
      (call : Call) (i : Intent) (db : Db)
      → let (res, db') = do_prepare sq call i db in
        Refused res db db'
        ⊎ ((missing_field i ≡ none) × (Inserted (intent_row call i res.id) res db db'))
  unfolding do_prepare
  do_prepare_lem call i db = start_prepare_lem call i db (missing_field i)

  insert_final_lem :
      (row : CommitRow) (o : Option String) (db : Db)
      → let (res, db') = insert_final sq row o db in
        Refused res db db' ⊎ Finalized (record row { commit_id = res.id }) res db db'
  unfolding insert_final after_insert
  insert_final_lem row none db = inl (generate_id, refl, (refl, refl))
  insert_final_lem row (some id) db = split (insert_commit row' db).0 refl
    where
      row' : CommitRow
      row' = record row { commit_id = id }

      split :
          (o : Option SqlError)
          → (insert_commit row' db).0 ≡ o
          → let (res, db') = insert_final sq row (some id) db in
            Refused res db db' ⊎ Finalized (record row { commit_id = res.id }) res db db'
      split none e =
          let (ins, coms, there, free) = sq.insert_commit_done row' db e in
          let (ins', coms') = sq.checkpoint_rows (insert_commit row' db).1 in
          rw (e, after_insert) (inr (refl, refl, there, free, ins' ∙ ins, coms' ∙ coms))
      split (some x) e =
          rw (e, after_insert)
            (inl (wrap_finalization_error x, refl, sq.insert_commit_failed row' db x e))

  pub do_commit_lem :
      (call : Call) (c : Commit) (db : Db)
      → let (res, db') = do_commit sq call c db in
        Refused res db db' ⊎ Finalized (commit_row call c res.id) res db db'
  unfolding do_commit
  do_commit_lem call c db = elim (Bool-cases (str_eq c.intent_id "")) [
    | inl e ↦ rw e (inl (intent_id_required, refl, (refl, refl)))
    | inr e ↦ rw e (elim (Bool-cases (marshal_fails c.external_ids)) [
      | inl f ↦ rw f (inl (marshal_external_ids, refl, (refl, refl)))
      | inr f ↦ rw f (
          insert_final_lem (commit_row call c c.commit_id)
            (choose_id c.commit_id "cmt-" call.random) db)
    ])
  ]

  pub do_abort_lem :
      (call : Call) (a : Abort) (db : Db)
      → let (res, db') = do_abort sq call a db in
        Refused res db db' ⊎ Finalized (abort_row call a res.id) res db db'
  unfolding do_abort
  do_abort_lem call a db = elim (Bool-cases (str_eq a.intent_id "")) [
    | inl e ↦ rw e (inl (intent_id_required, refl, (refl, refl)))
    | inr e ↦ rw e (
        insert_final_lem (abort_row call a a.commit_id) (choose_id a.commit_id "cmt-" call.random)
          db)
  ]

  -- An operation of the writer fails and leaves both tables as they were, or it adds exactly one row:
  -- Prepare an intent row under an identifier that was free, with every required field given; Commit
  -- a committed row and Abort an aborted row, each for an intent that is there and that had no such
  -- row. The result carries the identifier of that row.
  pub handle_op_effect :
      (call : Call) (op : WriteOp) (db : Db)
      → let (res, db') = handle_op sq call op db in
        Refused res db db' ⊎ elim op [
          | prepare i ↦ (missing_field i ≡ none) × (Inserted (intent_row call i res.id) res db db')
          | commit c ↦ Finalized (commit_row call c res.id) res db db'
          | abort a ↦ Finalized (abort_row call a res.id) res db db'
        ]
  unfolding handle_op
  handle_op_effect call (prepare i) db = do_prepare_lem call i db
  handle_op_effect call (commit c) db = do_commit_lem call c db
  handle_op_effect call (abort a) db = do_abort_lem call a db
