-- ===== src/Acs/Bundle.antt =====
-- pkg/acs/acs.go: the bundle's gate in front of the ledger. The manifest store is not modelled.
use ottie.Prelude.{String, Bool, true, false, Option, none, some, if◌then◌else◌}
use ottie.Ledger.Rows.{Intent, Commit, Abort, Sqlite}
use ottie.Ledger.Ops.{
  LedgerError, ledger_closed, Call, WriteOp, prepare, commit, abort, Delivery, Ledger, submit,
  close,
}

pub data AcsError : Type 0 where
  bundle_closed : AcsError
  of_ledger : LedgerError → AcsError

-- normalizeClosedErr
unfoldable pub normalize_closed_err : Option LedgerError → Option AcsError
normalize_closed_err none = none
normalize_closed_err (some ledger_closed) = some bundle_closed
normalize_closed_err (some e) = some (of_ledger e)

module _ (sq : Sqlite) where
  pub record Bundle : Type 0 where
    pub ledger : Ledger sq
    pub closed_flag : Bool

  -- A call through `isClosed`, by the flag.
  unfoldable pub gate :
      Bool → Delivery → Call → WriteOp → Bundle → (String × Option AcsError) × Bundle
  gate true d call op b = (("", some bundle_closed), b)
  gate false d call op b =
      let ((id, e), l) = submit sq d call op b.ledger in
      ((id, normalize_closed_err e), record b { ledger = l })

  unfoldable pub prepare_action :
      Delivery → Call → Intent → Bundle → (String × Option AcsError) × Bundle
  unfolding gate
  prepare_action d call i b = gate b.closed_flag d call (prepare i) b

  unfoldable pub commit_action : Delivery → Call → Commit → Bundle → Option AcsError × Bundle
  unfolding gate
  commit_action d call c b = let ((id, e), b') = gate b.closed_flag d call (commit c) b in (e, b')

  unfoldable pub abort_action : Delivery → Call → Abort → Bundle → Option AcsError × Bundle
  unfolding gate
  abort_action d call a b = let ((id, e), b') = gate b.closed_flag d call (abort a) b in (e, b')

  unfoldable pub close_bundle : Bundle → Bundle
  close_bundle b =
      if b.closed_flag then b else record { ledger = close sq b.ledger; closed_flag = true }
