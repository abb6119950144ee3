-- ===== src/Tests/Principal.antt =====
-- A user grants one agent a wallet transaction.
use Prim.Native.String.{◌++◌}
use ottie.Prelude.{
  ℕ, ◌≤◌, ◌≡◌, ◌≢◌, ◌↔◌, inl, refl, String, true, false, Option, none, some, [], ◌∷◌,
}
use ottie.Prelude.Int.{pos}
use ottie.Principal.Context
use ottie.Principal.Context.{
  Capability, cap_read_only, cap_writes_chain, cap_writes_wallet, effect_name, PrincipalContext,
  new_read_only, label, serialize_principal_label,
}
use ottie.Principal.Upgrade.{
  SignedConsent, ConsentVerifier, upgrade_to, validate_upgrade, granted, grant_if, ask_verifier,
  is_expired,
}
use ottie.Principal.Upgrade.Consent.{Consents, SameIdentity, upgrade_iff}
use ottie.Principal.Upgrade.Confusion.{validate_upgrade-confused}
use ottie.Principal.Tool.{
  ToolResult, Decoder, Execute, from, run_untyped, run_guarded, guard_dispatch, is_zero, has_cap,
  covers, capability_ladder_pos, ladder_pos_from, untyped_from, known_cap, execute_decoded, finish,
  ran,
}
use ottie.Principal.Tool.Ladder.{rank}
use ottie.Principal.Tool.Dispatch.{recast, run_untyped-upgrade_to, run_untyped-empty}

abbrev reader : PrincipalContext cap_read_only
reader = record {
  agent_id = "main";
  user_scope = "ann";
  account_scope = "0x1";
  channel_scope = "cli";
}

abbrev payer : PrincipalContext cap_writes_wallet
payer = record {
  agent_id = "main";
  user_scope = "ann";
  account_scope = "0x1";
  channel_scope = "cli";
}

abbrev consent : SignedConsent
consent = record {
  principal_label = "agent=main;user=ann;account=0x1;channel=cli";
  effect_class = "writes_wallet";
  args_hash = "h";
  expires_at = pos 100;
  signature = 1 ∷ [];
}

abbrev accepts : SignedConsent → Option String
accepts c = none

upgrade_iff_example :
    (upgrade_to cap_writes_wallet 5 reader consent (some accepts) ≡ granted payer) ↔ (
      Consents 5 reader consent (some accepts) (effect_name cap_writes_wallet)
      × SameIdentity reader payer)
upgrade_iff_example = upgrade_iff cap_writes_wallet 5 reader consent (some accepts) payer

is_granted : upgrade_to cap_writes_wallet 5 reader consent (some accepts) ≡ granted payer
unfolding upgrade_to validate_upgrade grant_if ask_verifier is_expired effect_name
    serialize_principal_label
is_granted = refl

abbrev done : ToolResult
done = record { for_llm = "sent"; for_user = ""; silent = false; is_error = false }

abbrev send : Execute cap_writes_chain ℕ
send p n = inl done

abbrev amount : Decoder String ℕ
amount raw = inl 7

sends : run_untyped cap_writes_chain send amount (from cap_writes_wallet payer) "{}" ≡ ran done
unfolding run_untyped run_guarded guard_dispatch is_zero has_cap covers capability_ladder_pos
    ladder_pos_from from untyped_from known_cap execute_decoded finish effect_name
sends = refl

run_untyped-upgrade_to_example :
    Consents 5 reader consent (some accepts) (effect_name cap_writes_wallet)
    × (rank cap_writes_chain ≤ rank cap_writes_wallet)
    × (t : ℕ) × (amount "{}" ≡ inl t)
    × (send (recast cap_writes_chain reader) t ≡ inl done)
run_untyped-upgrade_to_example =
    run_untyped-upgrade_to cap_writes_chain send amount cap_writes_wallet 5 reader consent
      (some accepts) payer "{}" done is_granted sends

abbrev nobody : PrincipalContext cap_writes_chain
nobody = record { agent_id = ""; user_scope = ""; account_scope = ""; channel_scope = "" }

nobody_zero : Context.is_zero nobody ≡ true
unfolding Context.is_zero
nobody_zero = refl

run_untyped-empty_example :
    run_untyped cap_writes_chain send amount (from cap_writes_chain nobody) "{}" ≡ ran done
run_untyped-empty_example =
    run_untyped-empty cap_writes_chain send amount nobody "{}" 7 done nobody_zero refl refl

validate_upgrade-confused_example :
    (new_read_only ("a" ++ ";user=") "b" "" "cli" ≢ new_read_only "a" (";user=" ++ "b") "" "cli")
    × (label (new_read_only ("a" ++ ";user=") "b" "" "cli")
        ≡ label (new_read_only "a" (";user=" ++ "b") "" "cli"))
    × ((now : ℕ) (c : SignedConsent) (v : ConsentVerifier) (effect : String)
        → validate_upgrade now (new_read_only ("a" ++ ";user=") "b" "" "cli") c v effect
          ≡ validate_upgrade now (new_read_only "a" (";user=" ++ "b") "" "cli") c v effect)
validate_upgrade-confused_example = validate_upgrade-confused "a" "b" "" "cli"
