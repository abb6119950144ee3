-- ===== src/Ledger/Replies.antt =====
-- What a caller learns from a reply without an error.
use ottie.Prelude.{◌≡◌, inl, inr, refl, String, Bool, true, false, none, arith}
use ottie.Ledger.Rows.{Sqlite, Intent, Commit, Abort, committed, aborted}
use ottie.Ledger.Ops.{
  Call, WriteOp, prepare, commit, abort, handle_op, Delivery, received, refused, abandoned, Ledger,
  submit, enqueue, deliver,
}
use ottie.Ledger.Effects.{handle_op_effect}
use ottie.Ledger.Phases.{
  prepared, finalized, view, IsSound, Inserted-prepared, Finalized-final, Inserted-keeps,
}

module _ (sq : Sqlite) where
  open sq use {Db}

  -- A reply without an error comes from the writer.
  enqueue-done :
      (b : Bool) (d : Delivery) (call : Call) (op : WriteOp) (l : Ledger sq)
      → (enqueue sq b d call op l).0.1 ≡ none
      → let (res, db') = handle_op sq call op l.db in
        (res.err ≡ none) × (enqueue sq b d call op l ≡ ((res.id, res.err), record l { db = db' }))
  unfolding enqueue deliver
  enqueue-done true d call op l h = cc
  enqueue-done false received call op l h = (h, refl)
  enqueue-done false refused call op l h = cc
  enqueue-done false abandoned call op l h = cc

  handle-prepared :
      (call : Call) (i : Intent) (db : Db)
      → IsSound sq db
      → (handle_op sq call (prepare i) db).0.err ≡ none
      → let (res, db') = handle_op sq call (prepare i) db in
        IsSound sq db' × (view sq db' res.id ≡ prepared)
  handle-prepared call i db h ok = elim (handle_op_effect sq call (prepare i) db) [
    | inl r ↦ absurd (ground (arith, r.1, ok))
    | inr w ↦ ((Inserted-keeps sq _ _ db _ w.1 h).0, Inserted-prepared sq _ _ db _ w.1 h)
  ]

  handle-committed :
      (call : Call) (c : Commit) (db : Db)
      → (handle_op sq call (commit c) db).0.err ≡ none
      → view sq (handle_op sq call (commit c) db).1 c.intent_id ≡ finalized committed
  handle-committed call c db ok = elim (handle_op_effect sq call (commit c) db) [
    | inl r ↦ absurd (ground (arith, r.1, ok))
    | inr w ↦ Finalized-final sq _ _ db _ w
  ]

  handle-aborted :
      (call : Call) (a : Abort) (db : Db)
      → (handle_op sq call (abort a) db).0.err ≡ none
      → view sq (handle_op sq call (abort a) db).1 a.intent_id ≡ finalized aborted
  handle-aborted call a db ok = elim (handle_op_effect sq call (abort a) db) [
    | inl r ↦ absurd (ground (arith, r.1, ok))
    | inr w ↦ Finalized-final sq _ _ db _ w
  ]

  -- What a reply with the identifier `id` promises of the database, by its operation.
  abbrev pub Durable : WriteOp → String → Db → Type 0
  Durable (prepare i) id db = IsSound sq db × (view sq db id ≡ prepared)
  Durable (commit c) id db = view sq db c.intent_id ≡ finalized committed
  Durable (abort a) id db = view sq db a.intent_id ≡ finalized aborted

  -- A reply without an error is durable: after Prepare the identifier that it returned is prepared and
  -- the tables are sound; after Commit the intent is finalized as committed, after Abort as aborted.
  pub reply-Durable :
      (d : Delivery) (call : Call) (op : WriteOp) (l : Ledger sq)
      → IsSound sq l.db
      → (submit sq d call op l).0.1 ≡ none
      → let ((id, e), l') = submit sq d call op l in Durable op id l'.db
  unfolding submit
  reply-Durable d call (prepare i) l h ok =
      let (none_err, e) = enqueue-done l.closed d call (prepare i) l ok in
      rw e (handle-prepared call i l.db h none_err)
  reply-Durable d call (commit c) l h ok =
      let (none_err, e) = enqueue-done l.closed d call (commit c) l ok in
      rw e (handle-committed call c l.db none_err)
  reply-Durable d call (abort a) l h ok =
      let (none_err, e) = enqueue-done l.closed d call (abort a) l ok in
      rw e (handle-aborted call a l.db none_err)
