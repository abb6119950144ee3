-- ===== src/Acs/Dispatch/Once.antt =====
-- The tool is run exactly once, on every path of `Dispatch`.
use ottie.Prelude.{◌≡◌, ◌⊎◌, inl, inr, refl, String, Option, none, some, [], ◌∷◌, arith}
use ottie.Ledger.Rows.{Sqlite}
use ottie.Acs.Tool.{Tool, ToolResult}
use ottie.Acs.Bundle.{AcsError, Bundle, prepare_action}
use ottie.Acs.Dispatch.Paths.{dispatch_paths}
use ottie.Acs.Dispatch.{
  DispatchRequest, Env, Dispatched, run_unwrapped, or_broken, finalize, after_prepare, dispatch,
}

module _ (sq : Sqlite) (env : Env sq) where
  -- The tool ran once, and its result is passed on; a nil result may be replaced by an error.
  abbrev pub RanOnce : Dispatched sq → Type 0
  RanOnce x =
      (b : Bundle sq) × (x.runs ≡ b ∷ [])
      × ((x.outcome.result ≡ (env.run b).0)
          ⊎ (((env.run b).0 ≡ none)
              × (t : Tool) × (x.outcome.result ≡ some (or_broken sq env t none))))

  run_unwrapped-RanOnce : (b : Bundle sq) → RanOnce (run_unwrapped sq env b)
  unfolding run_unwrapped
  run_unwrapped-RanOnce b = (b, refl, inl refl)

  finalize-result :
      (id : String) (r : ToolResult) (b : Bundle sq) → (finalize sq env id r b).0.result ≡ some r
  unfolding finalize
  finalize-result id r b = ground arith

  or_broken-result :
      (t : Tool) (o : Option ToolResult)
      → (some (or_broken sq env t o) ≡ o)
        ⊎ ((o ≡ none) × (u : Tool) × (some (or_broken sq env t o) ≡ some (or_broken sq env u none)))
  unfolding or_broken
  or_broken-result t none = inr (refl, t, refl)
  or_broken-result t (some r) = inl refl

  after_prepare-RanOnce :
      (t : Tool) (id : String) (e : Option AcsError) (b : Bundle sq)
      → RanOnce (after_prepare sq env t (id, e) b)
  unfolding after_prepare
  after_prepare-RanOnce t id (some e) b = run_unwrapped-RanOnce b
  after_prepare-RanOnce t id none b = (
    b,
    refl,
    rw (finalize-result id (or_broken sq env t (env.run b).0) (env.run b).1)
        (or_broken-result t (env.run b).0),
  )

  -- Whatever the request, the ledger and the tool do, `Dispatch` runs the tool exactly once and returns
  -- its result, except that a nil result may be replaced by an error that names the tool.
  pub dispatch-RanOnce : (req : DispatchRequest) (b : Bundle sq) → RanOnce (dispatch sq env req b)
  dispatch-RanOnce req b =
      dispatch_paths sq env b RanOnce (run_unwrapped-RanOnce b)
        (λ t i.
          let (reply, b') = prepare_action sq env.prepare_delivery env.prepare_call i b in
          after_prepare-RanOnce t reply.0 reply.1 b')
        req
