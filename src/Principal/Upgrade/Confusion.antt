-- ===== src/Principal/Upgrade/Confusion.antt =====
-- `serializePrincipalLabel` joins the scopes without escaping them, so that two principals can share a label.
use Prim.Native.String.{◌++◌, count}
use text.Mathlib.TextLemmas.{append_assoc, length-append}
use ottie.Prelude.{ℕ, ◌≡◌, ◌≢◌, refl, ap, ◌∙◌, String, arith}
use ottie.Principal.Context.{new_read_only, serialize_principal_label, label}
use ottie.Principal.Upgrade.{SignedConsent, ConsentVerifier, validate_upgrade}

label-shift :
    (agent user account channel : String)
    → label (new_read_only (agent ++ ";user=") user account channel)
      ≡ label (new_read_only agent (";user=" ++ user) account channel)
unfolding label serialize_principal_label new_read_only
label-shift agent user account channel = simp (append_assoc)

-- Two principals, one with ";user=" at the end of its agent and one with it at the start of its user,
-- differ, have one label, and get the same answer from a gate on every consent, verifier and effect.
pub validate_upgrade-confused :
    (agent user account channel : String)
    → (new_read_only (agent ++ ";user=") user account channel
        ≢ new_read_only agent (";user=" ++ user) account channel)
      × (label (new_read_only (agent ++ ";user=") user account channel)
          ≡ label (new_read_only agent (";user=" ++ user) account channel))
      × ((now : ℕ) (consent : SignedConsent) (v : ConsentVerifier) (effect : String)
          → validate_upgrade now
              (new_read_only (agent ++ ";user=") user account channel)
              consent
              v
              effect
            ≡ validate_upgrade now
                (new_read_only agent (";user=" ++ user) account channel)
                consent
                v
                effect)
unfolding label serialize_principal_label new_read_only validate_upgrade
validate_upgrade-confused agent user account channel =
    let same = label-shift agent user account channel in
    (differ, same, λ now consent v effect. rw same refl)
  where
    differ :
        new_read_only (agent ++ ";user=") user account channel
        ≢ new_read_only agent (";user=" ++ user) account channel
    differ e =
        let long = ap (λ p. count p.agent_id) e ∙ refl in
        let joined = length-append agent ";user=" in omega (arith, long, joined)
