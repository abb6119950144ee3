-- ===== src/Tests/Acs.antt =====
-- Dispatches over the test engine: one that commits, and one on a closed bundle.
use ottie.Prelude.{◌≡◌, ◌≢◌, refl, true, false, none, some, []}
use ottie.Ledger.Ops.{
  received, submit, handle_op, do_prepare, do_commit, choose_id, missing_field, insert_final,
  after_insert,
}
use ottie.Acs.Tool.{Tool, ToolResult, classifies, class_of, is_side_effecting}
use ottie.Acs.Bundle.{
  Bundle, bundle_closed, gate, prepare_action, commit_action, normalize_closed_err,
}
use ottie.Acs.Dispatch.{
  DispatchRequest, Env, dispatch, dispatch_tool, dispatch_hashed, after_prepare, finalize,
  or_broken, intent_of, has_failed,
}
use ottie.Acs.Dispatch.Once.{RanOnce, dispatch-RanOnce}
use ottie.Acs.Dispatch.Ahead.{RanAhead, Recorded, dispatch-RanAhead, dispatch-Recorded}
use ottie.Tests.Engine.{engine, no_rows, no_rows-IsSound}
use ottie.Tests.Ledger.{at_one}

abbrev swap_tool : Tool
swap_tool = record { name = "swap"; classifier = classifies "writes_wallet"; is_async = false }

abbrev swap_request : DispatchRequest
swap_request = record { trace_id = "t1"; tool = some swap_tool; principal = "user" }

abbrev swapped : ToolResult
swapped = record {
  for_llm = "swapped";
  for_user = "";
  silent = false;
  is_error = false;
  async = false;
  err = none;
  media = [];
}

abbrev quiet : Env engine
quiet = record {
  args_hash = some "h";
  hash_result = λ r. "r";
  nil_text = λ name. name;
  prepare_delivery = received;
  prepare_call = at_one;
  final_delivery = received;
  final_call = at_one;
  run = λ b. (some swapped, b);
}

abbrev open_bundle : Bundle engine
open_bundle = record { ledger = record { db = no_rows; closed = false }; closed_flag = false }

abbrev closed_bundle : Bundle engine
closed_bundle = record { ledger = record { db = no_rows; closed = true }; closed_flag = true }

intent_id_given : (dispatch engine quiet swap_request open_bundle).outcome.intent_id ≡ "int-aa"
unfolding dispatch dispatch_tool dispatch_hashed after_prepare finalize or_broken has_failed
    class_of is_side_effecting prepare_action commit_action gate normalize_closed_err submit
    handle_op do_prepare do_commit choose_id missing_field insert_final after_insert
intent_id_given = refl

no_final_error : (dispatch engine quiet swap_request open_bundle).outcome.finalize_err ≡ none
unfolding dispatch dispatch_tool dispatch_hashed after_prepare finalize or_broken has_failed
    class_of is_side_effecting prepare_action commit_action gate normalize_closed_err submit
    handle_op do_prepare do_commit choose_id missing_field insert_final after_insert
no_final_error = refl

intent_id_nonempty : (dispatch engine quiet swap_request open_bundle).outcome.intent_id ≢ ""
intent_id_nonempty = rw intent_id_given (λ h. cc)

dispatch-RanAhead_example : RanAhead engine quiet (dispatch engine quiet swap_request open_bundle)
dispatch-RanAhead_example =
    dispatch-RanAhead engine quiet swap_request open_bundle no_rows-IsSound intent_id_nonempty

dispatch-Recorded_example : Recorded engine quiet (dispatch engine quiet swap_request open_bundle)
dispatch-Recorded_example =
    dispatch-Recorded engine quiet swap_request open_bundle (λ b h. h) no_rows-IsSound
      intent_id_nonempty no_final_error

dispatch-RanOnce_example : RanOnce engine quiet (dispatch engine quiet swap_request open_bundle)
dispatch-RanOnce_example = dispatch-RanOnce engine quiet swap_request open_bundle

swap_is_side_effecting : is_side_effecting (class_of swap_tool) ≡ true
unfolding is_side_effecting class_of
swap_is_side_effecting = refl

prepare_fails :
    (prepare_action engine received at_one (intent_of swap_request swap_tool "h") closed_bundle).0.1
    ≡ some bundle_closed
unfolding prepare_action gate
prepare_fails = refl
