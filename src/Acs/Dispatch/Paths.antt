-- ===== src/Acs/Dispatch/Paths.antt =====
-- The paths of `Dispatch`: the tool is run with no wrapping, or after PrepareAction has replied.
use ottie.Prelude.{String, not, Option, none, some, str_eq, inl, inr, Bool-cases}
use ottie.Ledger.Rows.{Sqlite, Intent}
use ottie.Acs.Tool.{Tool, class_of, is_side_effecting}
use ottie.Acs.Bundle.{Bundle, prepare_action}
use ottie.Acs.Dispatch.{
  DispatchRequest, Env, Dispatched, run_unwrapped, after_prepare, dispatch_hashed, dispatch_tool,
  dispatch, intent_of,
}

module _ {κ} (sq : Sqlite) (env : Env sq) (b : Bundle sq) (P : Dispatched sq → Type κ)
    (bypass : P (run_unwrapped sq env b))
    (wrapped : (t : Tool) (i : Intent)
      → let (reply, b') = prepare_action sq env.prepare_delivery env.prepare_call i b in
        P (after_prepare sq env t reply b')) where
  hashed_paths :
      (req : DispatchRequest) (t : Tool) (h : Option String) → P (dispatch_hashed sq env req t h b)
  unfolding dispatch_hashed
  hashed_paths req t none = bypass
  hashed_paths req t (some hash) = wrapped t (intent_of req t hash)

  tool_paths : (req : DispatchRequest) (o : Option Tool) → P (dispatch_tool sq env req o b)
  unfolding dispatch_tool
  tool_paths req none = bypass
  tool_paths req (some t) = elim (Bool-cases (str_eq req.trace_id "")) [
    | inl e ↦ rw e bypass
    | inr e ↦ rw e (elim (Bool-cases (not (is_side_effecting (class_of t)))) [
      | inl f ↦ rw f bypass
      | inr f ↦ rw f (elim (Bool-cases t.is_async) [
        | inl g ↦ simp g bypass
        | inr g ↦ simp g (hashed_paths req t env.args_hash)
      ])
    ])
  ]

  -- What holds on both paths holds of every dispatch.
  pub dispatch_paths : (req : DispatchRequest) → P (dispatch sq env req b)
  unfolding dispatch
  dispatch_paths req = tool_paths req req.tool
