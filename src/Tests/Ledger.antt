-- ===== src/Tests/Ledger.antt =====
-- The ledger over the test engine: one intent is prepared and committed.
use ottie.Prelude.{inl, ◌≡◌, ◌↔◌, ◌⊎◌, refl, true, false, none, some, List, [], ◌∷◌, keep_if}
use ottie.Ledger.Text.{bytes, contains}
use ottie.Ledger.Rows.{ids, no_ids, Intent, Commit, committed, has_intent}
use ottie.Ledger.Ops.{
  Call, prepare, commit, abort, handle_op, received, Ledger, submit, already_finalized, do_commit,
  do_prepare, choose_id, missing_field, insert_final, after_insert,
}
use ottie.Ledger.Effects.{Refused, Finalized, handle_op_effect, commit_row}
use ottie.Ledger.Phases.{finalized, prepared, view, IsSound, LedgerStep}
use ottie.Ledger.History.{Event, submitted, closing, run, submit-refines, run_final}
use ottie.Ledger.Replies.{Durable, reply-Durable}
use ottie.Ledger.Recovery.{
  Ordered, at_time, is_orphan, no_faults, no_faults_lem, orphan_rows, recover_orphans,
  recover_orphans-exact,
}
use ottie.Ledger.Errors.{duplicate_commit_id_misreported}
use ottie.Tests.Engine.{engine, no_rows, no_rows-IsSound, primary_key_error}

abbrev pub at_one : Call
at_one = record { random = some "aa"; now = 1 }

abbrev pub swap_intent : Intent
swap_intent = record {
  intent_id = "i1";
  trace_id = "t1";
  tool_name = "swap";
  args_hash = "h";
  principal = "user";
  effect_class = "writes_wallet";
}

abbrev pub swap_commit : Commit
swap_commit = record {
  commit_id = "";
  intent_id = "i1";
  external_ids = ids "{}";
  result_hash = "r";
}

abbrev pub new_ledger : Ledger engine
new_ledger = record { db = no_rows; closed = false }

abbrev pub prepared_ledger : Ledger engine
prepared_ledger = (submit engine received at_one (prepare swap_intent) new_ledger).1

prepared_ledger-IsSound : IsSound engine prepared_ledger.db
prepared_ledger-IsSound =
    (submit-refines engine received at_one (prepare swap_intent) new_ledger no_rows-IsSound).0

submit-refines_example :
    let l' = (submit engine received at_one (prepare swap_intent) new_ledger).1 in
    IsSound engine l'.db × LedgerStep (view engine no_rows) (view engine l'.db)
submit-refines_example =
    submit-refines engine received at_one (prepare swap_intent) new_ledger no_rows-IsSound

abbrev committed_ledger : Ledger engine
committed_ledger = (submit engine received at_one (commit swap_commit) prepared_ledger).1

committed_ledger-IsSound : IsSound engine committed_ledger.db
committed_ledger-IsSound =
    (submit-refines engine received at_one (commit swap_commit) prepared_ledger
      prepared_ledger-IsSound).0

is_committed : view engine committed_ledger.db "i1" ≡ finalized committed
unfolding submit handle_op do_commit choose_id do_prepare missing_field
is_committed = refl

abbrev later_events : List (Event engine)
later_events =
    submitted received at_one
      (abort (record { commit_id = ""; intent_id = "i1"; error_message = "no" }))
    ∷ closing
    ∷ []

run_final_example :
    IsSound engine (run engine later_events committed_ledger).db
    × (view engine (run engine later_events committed_ledger).db "i1" ≡ finalized committed)
run_final_example =
    run_final engine later_events committed_ledger "i1" committed committed_ledger-IsSound
      is_committed

handle_op_effect_example :
    let (res, db') = handle_op engine at_one (commit swap_commit) prepared_ledger.db in
    Refused engine res prepared_ledger.db db'
    ⊎ Finalized engine (commit_row at_one swap_commit res.id) res prepared_ledger.db db'
handle_op_effect_example = handle_op_effect engine at_one (commit swap_commit) prepared_ledger.db

prepare_replies : (submit engine received at_one (prepare swap_intent) new_ledger).0.1 ≡ none
unfolding submit handle_op do_prepare missing_field choose_id
prepare_replies = refl

reply-Durable_example :
    let ((id, e), l') = submit engine received at_one (prepare swap_intent) new_ledger in
    Durable engine (prepare swap_intent) id l'.db
reply-Durable_example =
    reply-Durable engine received at_one (prepare swap_intent) new_ledger no_rows-IsSound
      prepare_replies

all_scanned :
    recover_orphans engine no_faults prepared_ledger.db
    ≡ inl (orphan_rows engine prepared_ledger.db)
all_scanned = no_faults_lem engine prepared_ledger.db

recover_orphans-exact_example :
    (recover_orphans engine no_faults prepared_ledger.db
      ≡ inl (orphan_rows engine prepared_ledger.db))
    × ((has_intent "i1" (orphan_rows engine prepared_ledger.db) ≡ true)
        ↔ (view engine prepared_ledger.db "i1" ≡ prepared))
    × Ordered (orphan_rows engine prepared_ledger.db)
    × (at_time 1 (orphan_rows engine prepared_ledger.db)
        ≡ at_time 1 (keep_if (is_orphan engine prepared_ledger.db) prepared_ledger.db.ints))
recover_orphans-exact_example =
    recover_orphans-exact engine no_faults prepared_ledger.db "i1" 1
      (orphan_rows engine prepared_ledger.db) all_scanned

-- A second commit under the identifier of the first.
abbrev second_prepared : Ledger engine
second_prepared =
    (submit engine received at_one (prepare (record swap_intent { intent_id = "i2" }))
      (submit engine received at_one (commit (record swap_commit { commit_id = "c1" }))
        prepared_ledger).1).1

abbrev reused_commit : Commit
reused_commit = record {
  commit_id = "c1";
  intent_id = "i2";
  external_ids = no_ids;
  result_hash = "r";
}

second_is_prepared : view engine second_prepared.db "i2" ≡ prepared
unfolding submit handle_op do_commit choose_id do_prepare missing_field insert_final after_insert
second_is_prepared = refl

reused_fails :
    (engine.insert_commit (commit_row at_one reused_commit "c1") second_prepared.db).0
    ≡ some primary_key_error
unfolding submit handle_op do_commit choose_id do_prepare missing_field insert_final after_insert
reused_fails = refl

key_text : contains primary_key_error.text (bytes "UNIQUE constraint failed") ≡ true
unfolding contains
key_text = refl

duplicate_commit_id_misreported_example :
    let (res, db') = do_commit engine at_one reused_commit second_prepared.db in
    (res.err ≡ some (already_finalized primary_key_error)) × (view engine db' "i2" ≡ prepared)
duplicate_commit_id_misreported_example =
    duplicate_commit_id_misreported engine at_one reused_commit second_prepared.db primary_key_error
      (λ h. cc) (λ h. cc) second_is_prepared refl reused_fails refl key_text
