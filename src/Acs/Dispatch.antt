-- ===== src/Acs/Dispatch.antt =====
-- pkg/acs/dispatch.go: Prepare, run the tool, Commit or Abort.
pub mod Paths
pub mod Once
pub mod Ahead
use ottie.Prelude.{
  String, Bool, true, false, not, ◌||◌, Option, none, some, List, [], ◌∷◌, str_eq, if◌then◌else◌,
}
use ottie.Ledger.Rows.{no_ids, Intent, Commit, Abort, Sqlite}
use ottie.Ledger.Ops.{Call, Delivery}
use ottie.Acs.Tool.{Tool, ToolResult, class_of, is_side_effecting}
use ottie.Acs.Bundle.{AcsError, Bundle, prepare_action, commit_action, abort_action}

pub record DispatchRequest : Type 0 where
  pub trace_id : String
  pub tool : Option Tool
  pub principal : String

pub record DispatchResult : Type 0 where
  pub result : Option ToolResult
  pub intent_id : String
  pub committed : Bool
  pub finalize_err : Option AcsError

abbrev pub unwrapped : Option ToolResult → DispatchResult
unwrapped r = record { result = r; intent_id = ""; committed = false; finalize_err = none }

abbrev pub is_some {ℓ} : {A : Type ℓ} → Option A → Bool
is_some none = false
is_some (some a) = true

-- `result.IsError || result.Err != nil`
unfoldable pub has_failed : ToolResult → Bool
has_failed r = r.is_error || is_some r.err

-- The text of the abort row.
abbrev pub error_text : ToolResult → Option String → String
error_text r (some e) = e
error_text r none = if not (str_eq r.for_llm "") then r.for_llm else "tool returned error"

abbrev pub intent_of : DispatchRequest → Tool → String → Intent
intent_of req t hash = record {
  intent_id = "";
  trace_id = req.trace_id;
  tool_name = t.name;
  args_hash = hash;
  principal = if str_eq req.principal "" then "unknown" else req.principal;
  effect_class = class_of t;
}

module _ (sq : Sqlite) where
  -- What the world does in one dispatch: the hash of the arguments (`none` if it fails) and of a
  -- result, the text of the error for a nil result, how the two ledger calls go, and the tool itself,
  -- which may leave the bundle in any state, since other calls and a Close may run beside it.
  pub record Env : Type 0 where
    pub args_hash : Option String
    pub hash_result : ToolResult → String
    pub nil_text : String → String
    pub prepare_delivery : Delivery
    pub prepare_call : Call
    pub final_delivery : Delivery
    pub final_call : Call
    pub run : Bundle sq → Option ToolResult × Bundle sq

  -- What a dispatch leaves: its result, the bundle, and the bundles at which the tool was run.
  pub record Dispatched : Type 0 where
    pub outcome : DispatchResult
    pub bundle : Bundle sq
    pub runs : List (Bundle sq)

  -- `return &DispatchResult{Result: run(ctx)}`
  unfoldable pub run_unwrapped : Env → Bundle sq → Dispatched
  run_unwrapped env b =
      let (r, b') = env.run b in record { outcome = unwrapped r; bundle = b'; runs = b ∷ [] }

  -- The result in place of a nil one.
  unfoldable pub or_broken : Env → Tool → Option ToolResult → ToolResult
  or_broken env t (some r) = r
  or_broken env t none = record {
    for_llm = env.nil_text t.name;
    for_user = "";
    silent = false;
    is_error = true;
    async = false;
    err = some (env.nil_text t.name);
    media = [];
  }

  -- From the result of the tool on: Abort or Commit.
  unfoldable pub finalize : Env → String → ToolResult → Bundle sq → DispatchResult × Bundle sq
  finalize env id r b =
      if has_failed r
      then (let (e, b') =
            abort_action sq env.final_delivery env.final_call
              (record { commit_id = ""; intent_id = id; error_message = error_text r r.err }) b in
          (record { result = some r; intent_id = id; committed = false; finalize_err = e }, b'))
      else (let (e, b') =
            commit_action sq env.final_delivery env.final_call
              (record {
                commit_id = "";
                intent_id = id;
                external_ids = no_ids;
                result_hash = env.hash_result r;
              })
              b in
          (
            record {
              result = some r;
              intent_id = id;
              committed = not (is_some e);
              finalize_err = e;
            },
            b',
          ))

  -- From the reply of PrepareAction on; where it failed the tool runs all the same.
  unfoldable pub after_prepare : Env → Tool → String × Option AcsError → Bundle sq → Dispatched
  unfolding run_unwrapped or_broken
  after_prepare env t (id, some e) b = run_unwrapped env b
  after_prepare env t (id, none) b =
      let (r, b') = env.run b in
      let (out, b'') = finalize env id (or_broken env t r) b' in
      record { outcome = out; bundle = b''; runs = b ∷ [] }

  -- From `HashArgsForLedger` on.
  unfoldable pub dispatch_hashed :
      Env → DispatchRequest → Tool → Option String → Bundle sq → Dispatched
  unfolding after_prepare
  dispatch_hashed env req t none b = run_unwrapped env b
  dispatch_hashed env req t (some hash) b =
      let (reply, b') =
        prepare_action sq env.prepare_delivery env.prepare_call (intent_of req t hash) b in
      after_prepare env t reply b'

  -- `Dispatch` on a bundle that is not nil, by the request's tool. (On a nil bundle it runs the tool
  -- and touches no ledger.)
  unfoldable pub dispatch_tool : Env → DispatchRequest → Option Tool → Bundle sq → Dispatched
  unfolding dispatch_hashed
  dispatch_tool env req none b = run_unwrapped env b
  dispatch_tool env req (some t) b =
      if str_eq req.trace_id ""
      then run_unwrapped env b
      else if not (is_side_effecting (class_of t))
      then run_unwrapped env b
      else if t.is_async
      then run_unwrapped env b
      else dispatch_hashed env req t env.args_hash b

  unfoldable pub dispatch : Env → DispatchRequest → Bundle sq → Dispatched
  unfolding dispatch_tool
  dispatch env req b = dispatch_tool env req req.tool b
