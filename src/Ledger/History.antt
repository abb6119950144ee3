-- ===== src/Ledger/History.antt =====
-- Whole histories of a ledger: every call refines the phases, and a finalized intent stays so.
use ottie.Prelude.{
  ◌≡◌, inl, inr, refl, sym, ap, ◌∙◌, String, Bool, true, false, Option, some, List, [], ◌∷◌, arith,
  str_eq, Bool-cases, eq_iff,
}
use ottie.Ledger.Rows.{Sqlite, Status}
use ottie.Ledger.Ops.{
  Call, WriteOp, prepare, commit, abort, handle_op, Delivery, received, refused, abandoned, Ledger,
  submit, enqueue, deliver, close, LedgerError, ledger_closed,
}
use ottie.Ledger.Effects.{handle_op_effect}
use ottie.Ledger.Phases.{
  finalized, View, LedgerStep, stays, prepares, finalizes, view, IsSound, SameRows-keeps,
  Inserted-keeps, Finalized-keeps,
}

module _ (sq : Sqlite) where
  open sq use {Db}

  handle_op-keeps :
      (call : Call) (op : WriteOp) (db : Db)
      → IsSound sq db
      → let db' = (handle_op sq call op db).1 in
        IsSound sq db' × LedgerStep (view sq db) (view sq db')
  handle_op-keeps call (prepare i) db h = elim (handle_op_effect sq call (prepare i) db) [
    | inl r ↦ SameRows-keeps sq db _ r.2 h
    | inr w ↦ Inserted-keeps sq _ _ db _ w.1 h
  ]
  handle_op-keeps call (commit c) db h = elim (handle_op_effect sq call (commit c) db) [
    | inl r ↦ SameRows-keeps sq db _ r.2 h
    | inr w ↦ Finalized-keeps sq _ _ db _ w h
  ]
  handle_op-keeps call (abort a) db h = elim (handle_op_effect sq call (abort a) db) [
    | inl r ↦ SameRows-keeps sq db _ r.2 h
    | inr w ↦ Finalized-keeps sq _ _ db _ w h
  ]

  deliver-keeps :
      (d : Delivery) (call : Call) (op : WriteOp) (l : Ledger sq)
      → IsSound sq l.db
      → let l' = (deliver sq d (handle_op sq call op l.db) l).1 in
        IsSound sq l'.db × LedgerStep (view sq l.db) (view sq l'.db)
  unfolding deliver
  deliver-keeps received call op l h = handle_op-keeps call op l.db h
  deliver-keeps refused call op l h = (h, stays (λ j. refl))
  deliver-keeps abandoned call op l h = handle_op-keeps call op l.db h

  enqueue-keeps :
      (b : Bool) (d : Delivery) (call : Call) (op : WriteOp) (l : Ledger sq)
      → IsSound sq l.db
      → let l' = (enqueue sq b d call op l).1 in
        IsSound sq l'.db × LedgerStep (view sq l.db) (view sq l'.db)
  unfolding enqueue
  enqueue-keeps true d call op l h = (h, stays (λ j. refl))
  enqueue-keeps false d call op l h = deliver-keeps d call op l h

  -- Every call of Prepare, Commit or Abort, whatever its result, keeps the tables sound, and changes the
  -- phases of the intents by at most one step: one absent identifier is prepared, or one prepared
  -- identifier is finalized, and no other phase changes.
  pub submit-refines :
      (d : Delivery) (call : Call) (op : WriteOp) (l : Ledger sq)
      → IsSound sq l.db
      → let l' = (submit sq d call op l).1 in
        IsSound sq l'.db × LedgerStep (view sq l.db) (view sq l'.db)
  unfolding submit
  submit-refines d call op l h = enqueue-keeps l.closed d call op l h

  -- What happens to a ledger.
  pub data Event : Type 0 where
    submitted : Delivery → Call → WriteOp → Event
    closing : Event

  unfoldable pub run : List Event → Ledger sq → Ledger sq
  unfolding close
  run [] l = l
  run (submitted d call op ∷ es) l = run es (submit sq d call op l).1
  run (closing ∷ es) l = run es (close sq l)

  step-final :
      (v v' : View) (id : String) (s : Status)
      → LedgerStep v v'
      → v id ≡ finalized s
      → v' id ≡ finalized s
  step-final v v' id s (stays same) e = same id ∙ e
  step-final v v' id s (prepares j a p same) e = elim (Bool-cases (str_eq j id)) [
    | inl y ↦ absurd (ground (arith, ap v ((eq_iff j id).0 y)))
    | inr n ↦ same id (λ x. ground (arith, eq_iff j id)) ∙ e
  ]
  step-final v v' id s (finalizes j t a p same) e = elim (Bool-cases (str_eq j id)) [
    | inl y ↦ absurd (ground (arith, ap v ((eq_iff j id).0 y)))
    | inr n ↦ same id (λ x. ground (arith, eq_iff j id)) ∙ e
  ]

  -- Exactly one outcome: from a sound ledger the tables stay sound over any history of calls and closes
  -- (identifiers unique in both tables, every commit row with its intent), and an intent that was once
  -- committed, or aborted, has that same outcome ever after.
  pub run_final :
      (es : List Event) (l : Ledger sq) (id : String) (s : Status)
      → IsSound sq l.db
      → view sq l.db id ≡ finalized s
      → IsSound sq (run es l).db × (view sq (run es l).db id ≡ finalized s)
  unfolding run
  run_final [] l id s h e = (h, e)
  run_final (submitted d call op ∷ es) l id s h e =
      let (h', st) = submit-refines d call op l h in
      run_final es (submit sq d call op l).1 id s h' (step-final _ _ id s st e)
  run_final (closing ∷ es) l id s h e = run_final es (close sq l) id s h e

  enqueue_closed :
      (b : Bool) (d : Delivery) (call : Call) (op : WriteOp) (l : Ledger sq)
      → b ≡ true
      → enqueue sq b d call op l ≡ (("", some ledger_closed), l)
  unfolding enqueue
  enqueue_closed true d call op l e = refl
  enqueue_closed false d call op l e = cc

  run_closed : (es : List Event) (l : Ledger sq) → l.closed ≡ true → run es l ≡ l
  unfolding run submit close
  run_closed [] l c = refl
  run_closed (submitted d call op ∷ es) l c =
      let e =
        ap (λ (x : (String × Option LedgerError) × Ledger sq). x.1)
          (enqueue_closed l.closed d call op l c) in
      ap (run es) e ∙ run_closed es l c
  run_closed (closing ∷ es) l c =
      run_closed es (close sq l) refl ∙ ap (λ b. record l { closed = b }) (sym c)

  -- Once Close has run, no history of calls and closes changes the ledger, and every call after it
  -- returns the closed error and no identifier.
  pub close_rejects :
      (es : List Event) (d : Delivery) (call : Call) (op : WriteOp) (l : Ledger sq)
      → let l' = run es (close sq l) in
        (l' ≡ close sq l) × ((submit sq d call op l').0 ≡ ("", some ledger_closed))
  unfolding close submit
  close_rejects es d call op l =
      let e = run_closed es (close sq l) refl in
      (
        e,
        ap (λ (x : (String × Option LedgerError) × Ledger sq). x.0)
            (enqueue_closed _ d call op _ (ap (λ (m : Ledger sq). m.closed) e)),
      )
