-- ===== src/Acs/Dispatch/Ahead.antt =====
-- The write-ahead order, and what a dispatch leaves in the ledger.
use ottie.Prelude.{
  ◌≡◌, ◌≢◌, inl, inr, refl, String, Bool, true, false, Option, none, some, [], ◌∷◌, arith,
  Bool-cases, if◌then◌else◌,
}
use ottie.Ledger.Rows.{Sqlite, Intent, Commit, Abort, committed, aborted}
use ottie.Ledger.Ops.{LedgerError, ledger_closed, Call, WriteOp, prepare, commit, abort, Delivery}
use ottie.Ledger.Phases.{prepared, finalized, view, IsSound}
use ottie.Ledger.Replies.{reply-Durable, Durable}
use ottie.Acs.Tool.{Tool, ToolResult}
use ottie.Acs.Bundle.{
  AcsError, Bundle, prepare_action, commit_action, abort_action, gate, normalize_closed_err,
}
use ottie.Acs.Dispatch.Paths.{dispatch_paths}
use ottie.Acs.Dispatch.{
  DispatchRequest, Env, Dispatched, run_unwrapped, or_broken, finalize, after_prepare, dispatch,
  has_failed,
}

normalize-none : (e : Option LedgerError) → normalize_closed_err e ≡ none → e ≡ none
unfolding normalize_closed_err
normalize-none none h = refl
normalize-none (some ledger_closed) h = cc
normalize-none (some x) h = cc

module _ (sq : Sqlite) where
  -- A call that passes the gate without an error is durable.
  gate-Durable :
      (closed : Bool) (d : Delivery) (call : Call) (op : WriteOp) (b : Bundle sq)
      → IsSound sq b.ledger.db
      → (gate sq closed d call op b).0.1 ≡ none
      → let ((id, e), b') = gate sq closed d call op b in Durable sq op id b'.ledger.db
  unfolding gate
  gate-Durable true d call op b h ok = cc
  gate-Durable false d call op b h ok = reply-Durable sq d call op b.ledger h (normalize-none _ ok)

  prepare_durable :
      (d : Delivery) (call : Call) (i : Intent) (b : Bundle sq)
      → IsSound sq b.ledger.db
      → (prepare_action sq d call i b).0.1 ≡ none
      → let ((id, e), b') = prepare_action sq d call i b in
        IsSound sq b'.ledger.db × (view sq b'.ledger.db id ≡ prepared)
  unfolding prepare_action
  prepare_durable d call i b h ok = gate-Durable b.closed_flag d call (prepare i) b h ok

  commit_durable :
      (d : Delivery) (call : Call) (c : Commit) (b : Bundle sq)
      → IsSound sq b.ledger.db
      → (commit_action sq d call c b).0 ≡ none
      → view sq (commit_action sq d call c b).1.ledger.db c.intent_id ≡ finalized committed
  unfolding commit_action
  commit_durable d call c b h ok = gate-Durable b.closed_flag d call (commit c) b h ok

  abort_durable :
      (d : Delivery) (call : Call) (a : Abort) (b : Bundle sq)
      → IsSound sq b.ledger.db
      → (abort_action sq d call a b).0 ≡ none
      → view sq (abort_action sq d call a b).1.ledger.db a.intent_id ≡ finalized aborted
  unfolding abort_action
  abort_durable d call a b h ok = gate-Durable b.closed_flag d call (abort a) b h ok

  module _ (env : Env sq) where
    -- The tool ran at a bundle whose ledger holds the intent, prepared and not finalized.
    abbrev pub RanAhead : Dispatched sq → Type 0
    RanAhead x =
        (b : Bundle sq) × (x.runs ≡ b ∷ []) × (view sq b.ledger.db x.outcome.intent_id ≡ prepared)

    -- Where the finalization gave no error, the intent has the outcome that the result reports.
    abbrev pub Recorded : Dispatched sq → Type 0
    Recorded x =
        view sq x.bundle.ledger.db x.outcome.intent_id
        ≡ finalized (if x.outcome.committed then committed else aborted)

    finalize-id :
        (id : String) (r : ToolResult) (b : Bundle sq) → (finalize sq env id r b).0.intent_id ≡ id
    unfolding finalize
    finalize-id id r b = ground arith

    finalize-Recorded :
        (id : String) (r : ToolResult) (b : Bundle sq)
        → IsSound sq b.ledger.db
        → (finalize sq env id r b).0.finalize_err ≡ none
        → let (out, b') = finalize sq env id r b in
          view sq b'.ledger.db id ≡ finalized (if out.committed then committed else aborted)
    unfolding finalize
    finalize-Recorded id r b h ok = elim (Bool-cases (has_failed r)) [
      | inl f ↦ rw f (abort_durable _ _ _ b h (rw f at ok))
      | inr f ↦ let done = (rw f at ok) in rw f (rw done (commit_durable _ _ _ b h done))
    ]

    run_unwrapped-id : (b : Bundle sq) → (run_unwrapped sq env b).outcome.intent_id ≡ ""
    unfolding run_unwrapped
    run_unwrapped-id b = refl

    after_prepare-Ahead :
        (t : Tool) (id : String) (e : Option AcsError) (b : Bundle sq)
        → (after_prepare sq env t (id, e) b).outcome.intent_id ≢ ""
        → (e ≡ none → view sq b.ledger.db id ≡ prepared)
        → RanAhead (after_prepare sq env t (id, e) b)
    unfolding after_prepare
    after_prepare-Ahead t id (some e) b ne h = absurd (ne (run_unwrapped-id b))
    after_prepare-Ahead t id none b ne h =
        (b, refl, rw (finalize-id id (or_broken sq env t (env.run b).0) (env.run b).1) (h refl))

    after_prepare-Recorded :
        (t : Tool) (id : String) (e : Option AcsError) (b : Bundle sq)
        → (after_prepare sq env t (id, e) b).outcome.intent_id ≢ ""
        → (after_prepare sq env t (id, e) b).outcome.finalize_err ≡ none
        → (e ≡ none → IsSound sq (env.run b).1.ledger.db)
        → Recorded (after_prepare sq env t (id, e) b)
    unfolding after_prepare
    after_prepare-Recorded t id (some e) b ne ok h = absurd (ne (run_unwrapped-id b))
    after_prepare-Recorded t id none b ne ok h =
        let r = or_broken sq env t (env.run b).0 in
        let b' = (env.run b).1 in rw (finalize-id id r b') (finalize-Recorded id r b' (h refl) ok)

    -- The write-ahead rule: whenever a dispatch reports an intent identifier, the tool was run once, at a
    -- moment when the ledger held that intent's row, prepared and not yet finalized.
    pub dispatch-RanAhead :
        (req : DispatchRequest) (b : Bundle sq)
        → IsSound sq b.ledger.db
        → (dispatch sq env req b).outcome.intent_id ≢ ""
        → RanAhead (dispatch sq env req b)
    dispatch-RanAhead req b h =
        dispatch_paths sq env b (λ x. x.outcome.intent_id ≢ "" → RanAhead x)
          (λ ne. absurd (ne (run_unwrapped-id b)))
          (λ t i ne.
            let ((id, e), b') = prepare_action sq env.prepare_delivery env.prepare_call i b in
            after_prepare-Ahead t id e b' ne
              (λ ok. (prepare_durable env.prepare_delivery env.prepare_call i b h ok).1))
          req

    -- The outcome is recorded: if a dispatch reports an intent identifier and no finalization error,
    -- and the tool and what runs beside it keep the tables sound, then at its end that intent is
    -- finalized, as committed if the dispatch reports it committed and as aborted otherwise.
    pub dispatch-Recorded :
        (req : DispatchRequest) (b : Bundle sq)
        → ((b : Bundle sq) → IsSound sq b.ledger.db → IsSound sq (env.run b).1.ledger.db)
        → IsSound sq b.ledger.db
        → (dispatch sq env req b).outcome.intent_id ≢ ""
        → (dispatch sq env req b).outcome.finalize_err ≡ none
        → Recorded (dispatch sq env req b)
    dispatch-Recorded req b keeps h =
        dispatch_paths sq env b
          (λ x. x.outcome.intent_id ≢ "" → x.outcome.finalize_err ≡ none → Recorded x)
          (λ ne ok. absurd (ne (run_unwrapped-id b)))
          (λ t i ne ok.
            let ((id, e), b') = prepare_action sq env.prepare_delivery env.prepare_call i b in
            after_prepare-Recorded t id e b' ne ok (λ fine.
              keeps b' (prepare_durable env.prepare_delivery env.prepare_call i b h fine).0))
          req
