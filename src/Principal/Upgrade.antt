-- ===== src/Principal/Upgrade.antt =====
-- principal.go: a signed consent turns a read-only principal into one with a higher capability.
pub mod Consent
pub mod Confusion
use ottie.Prelude.{
  ℕ, String, Bool, true, false, not, ◌&&◌, Option, none, some, List, [], ◌∷◌, str_eq, leb, ◌==◌,
  if◌then◌else◌,
}
use ottie.Prelude.Int.{ℤ, pos, negsuc}
use ottie.Principal.Context.{
  Capability, cap_read_only, cap_writes_local, cap_writes_state, cap_writes_chain,
  cap_writes_wallet, effect_name, PrincipalContext, serialize_principal_label,
}

-- `signature` is the bytes, `expires_at` a Unix time in seconds.
pub record SignedConsent : Type 0 where
  pub principal_label : String
  pub effect_class : String
  pub args_hash : String
  pub expires_at : ℤ
  pub signature : List ℕ

-- `ConsentVerifier`: nil, or what Verify returns on each consent. Its error is a text.
abbrev pub ConsentVerifier : Type 0
ConsentVerifier = Option (SignedConsent → Option String)

pub data ConsentError : Type 0 where
  consent_required consent_expired wrong_label wrong_effect no_verifier : ConsentError
  verifier_refused : String → ConsentError

-- consent.ExpiresAt != 0 && nowFn().Unix() >= consent.ExpiresAt, at a time from 1970 on
unfoldable pub is_expired : ℕ → ℤ → Bool
is_expired now (pos t) = not (t == 0) && leb t now
is_expired now (negsuc t) = true

abbrev pub is_unsigned : List ℕ → Bool
is_unsigned [] = true
is_unsigned (b ∷ bs) = false

-- The end of `validateUpgrade`.
unfoldable pub ask_verifier : ConsentVerifier → SignedConsent → Option ConsentError
ask_verifier none consent = some no_verifier
ask_verifier (some verify) consent = elim (verify consent) [
  | none ↦ none
  | some e ↦ some (verifier_refused e)
]

unfoldable pub validate_upgrade :
    ℕ
    → PrincipalContext cap_read_only
    → SignedConsent
    → ConsentVerifier
    → String
    → Option ConsentError
unfolding ask_verifier
validate_upgrade now p consent verifier expected_effect =
    let label = serialize_principal_label p.agent_id p.user_scope p.account_scope p.channel_scope in
    if is_unsigned consent.signature
    then some consent_required
    else if is_expired now consent.expires_at
    then some consent_expired
    else if not (str_eq consent.principal_label label)
    then some wrong_label
    else if not (str_eq consent.effect_class expected_effect)
    then some wrong_effect
    else ask_verifier verifier consent

pub data Upgraded (c : Capability) : Type 0 where
  granted : PrincipalContext c → Upgraded c
  denied : ConsentError → Upgraded c

-- The common body of the four gates.
unfoldable pub grant_if :
    (c : Capability) → PrincipalContext cap_read_only → Option ConsentError → Upgraded c
grant_if c p (some e) = denied e
grant_if c p none = granted (record {
  agent_id = p.agent_id;
  user_scope = p.user_scope;
  account_scope = p.account_scope;
  channel_scope = p.channel_scope;
})

unfoldable pub upgrade_to :
    (c : Capability)
    → ℕ
    → PrincipalContext cap_read_only
    → SignedConsent
    → ConsentVerifier
    → Upgraded c
unfolding grant_if validate_upgrade effect_name
upgrade_to c now p consent verifier =
    grant_if c p (validate_upgrade now p consent verifier (effect_name c))

unfoldable pub upgrade_to_writes_local :
    ℕ → PrincipalContext cap_read_only → SignedConsent → ConsentVerifier → Upgraded cap_writes_local
unfolding upgrade_to
upgrade_to_writes_local = upgrade_to cap_writes_local

unfoldable pub upgrade_to_writes_state :
    ℕ → PrincipalContext cap_read_only → SignedConsent → ConsentVerifier → Upgraded cap_writes_state
unfolding upgrade_to
upgrade_to_writes_state = upgrade_to cap_writes_state

unfoldable pub upgrade_to_writes_chain :
    ℕ → PrincipalContext cap_read_only → SignedConsent → ConsentVerifier → Upgraded cap_writes_chain
unfolding upgrade_to
upgrade_to_writes_chain = upgrade_to cap_writes_chain

unfoldable pub upgrade_to_writes_wallet :
    ℕ
    → PrincipalContext cap_read_only
    → SignedConsent
    → ConsentVerifier
    → Upgraded cap_writes_wallet
unfolding upgrade_to
upgrade_to_writes_wallet = upgrade_to cap_writes_wallet
