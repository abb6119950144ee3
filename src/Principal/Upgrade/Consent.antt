-- ===== src/Principal/Upgrade/Consent.antt =====
-- When a gate grants an upgrade, and to whom.
use ottie.Prelude.{
  ℕ, ◌<◌, ◌≡◌, ◌≢◌, ◌↔◌, ◌⊎◌, inl, inr, refl, String, Bool, true, false, not, ◌&&◌, Option, none,
  some, List, [], ◌∷◌, arith, str_eq, eq_iff, leb, ◌==◌, if◌then◌else◌, Bool-cases,
}
use ottie.Prelude.Int.{ℤ, pos, negsuc}
use ottie.Principal.Context.{
  Capability, cap_read_only, effect_name, PrincipalContext, label, serialize_principal_label,
}
use ottie.Principal.Upgrade.{
  SignedConsent, ConsentVerifier, ConsentError, consent_required, consent_expired, wrong_label,
  wrong_effect, is_expired, is_unsigned, ask_verifier, validate_upgrade, granted, grant_if,
  upgrade_to,
}

-- An expiry of 0 is none; any other lies after now.
abbrev pub IsOpen : ℕ → ℤ → Type 0
IsOpen now e = (e ≡ pos 0) ⊎ ((t : ℕ) × (e ≡ pos t) × (now < t))

-- The consent is signed, not expired, names this principal and the effect, and the verifier accepts it.
abbrev pub Consents :
    ℕ → PrincipalContext cap_read_only → SignedConsent → ConsentVerifier → String → Type 0
Consents now p consent verifier effect =
    (consent.signature ≢ [])
    × IsOpen now consent.expires_at
    × (consent.principal_label ≡ label p)
    × (consent.effect_class ≡ effect)
    × (verify : SignedConsent → Option String) × (verifier ≡ some verify)
    × (verify consent ≡ none)

-- The same agent, user, account and channel.
abbrev pub SameIdentity : {c d : Capability} → PrincipalContext c → PrincipalContext d → Type 0
SameIdentity p q =
    (q.agent_id ≡ p.agent_id)
    × (q.user_scope ≡ p.user_scope)
    × (q.account_scope ≡ p.account_scope)
    × (q.channel_scope ≡ p.channel_scope)

signed_iff : (bs : List ℕ) → (is_unsigned bs ≡ false) ↔ (bs ≢ [])
signed_iff [] = (λ h. cc, λ h. absurd (h refl))
signed_iff (b ∷ bs) = (λ h e. cc, λ h. refl)

expired_iff : (now : ℕ) (e : ℤ) → (is_expired now e ≡ false) ↔ IsOpen now e
unfolding is_expired
expired_iff now (pos t) = elim (Bool-cases (t == 0)) [
  | inl z ↦ (λ h. inl (ground arith), λ h. rw z refl)
  | inr z ↦ (λ h. inr (t, refl, ground arith), after)
]
  where
    after : IsOpen now (pos t) → not (t == 0) && leb t now ≡ false
    after (inl e) = ground arith
    after (inr (u, e, lt)) = ground arith
expired_iff now (negsuc t) = (λ h. cc, never)
  where
    never : IsOpen now (negsuc t) → true ≡ false
    never (inl e) = cc
    never (inr (u, e, lt)) = cc

ask_iff :
    (v : ConsentVerifier) (consent : SignedConsent)
    → (ask_verifier v consent ≡ none)
      ↔ ((verify : SignedConsent → Option String) × (v ≡ some verify) × (verify consent ≡ none))
unfolding ask_verifier
ask_iff none consent = (λ h. cc, λ h. absurd (cc (h.1)))
ask_iff (some verify) consent = (λ h. (verify, refl, accepted h), λ h. accepts h.0 h.1 h.2)
  where
    accepted :
        (elim (verify consent) [ none ↦ none | some e ↦ some (ConsentError.verifier_refused e) ])
          ≡ none
        → verify consent ≡ none
    accepted h = ground arith

    accepts :
        (w : SignedConsent → Option String)
        → some verify ≡ some w
        → w consent ≡ none
        → (elim (verify consent) [ none ↦ none | some e ↦ some (ConsentError.verifier_refused e) ])
          ≡ none
    accepts w e h = ground arith

-- A run of guards passes exactly when none of them holds.
guards_iff :
    (a b c d : Bool) (w x y z : ConsentError) (rest : Option ConsentError)
    → ((if a
          then some w
          else if b
          then some x
          else if c
          then some y
          else if d
          then some z
          else rest)
        ≡ none)
      ↔ ((a ≡ false) × (b ≡ false) × (c ≡ false) × (d ≡ false) × (rest ≡ none))
guards_iff a b c d w x y z rest = (λ h. ground arith, λ h. ground arith)

differs_iff : (s t : String) → (not (str_eq s t) ≡ false) ↔ (s ≡ t)
differs_iff s t = (λ h. ground (arith, eq_iff s t), λ h. ground (arith, eq_iff s t))

validate_iff :
    (now : ℕ) (p : PrincipalContext cap_read_only) (consent : SignedConsent) (v : ConsentVerifier)
    (effect : String)
    → (validate_upgrade now p consent v effect ≡ none) ↔ Consents now p consent v effect
unfolding validate_upgrade label
validate_iff now p consent v effect =
    let l = serialize_principal_label p.agent_id p.user_scope p.account_scope p.channel_scope in
    let guards =
      guards_iff (is_unsigned consent.signature) (is_expired now consent.expires_at)
        (not (str_eq consent.principal_label l)) (not (str_eq consent.effect_class effect))
        consent_required consent_expired wrong_label wrong_effect (ask_verifier v consent) in
    (
      λ h.
          let (a, b, c, d, e) = guards.0 h in
          let ask = (ask_iff v consent).0 e in
          (
            (signed_iff consent.signature).0 a,
            (expired_iff now consent.expires_at).0 b,
            (differs_iff consent.principal_label l).0 c,
            (differs_iff consent.effect_class effect).0 d,
            ask.0,
            ask.1,
            ask.2,
          ),
      λ h. guards.1 (
        (signed_iff consent.signature).1 h.0,
        (expired_iff now consent.expires_at).1 h.1,
        (differs_iff consent.principal_label l).1 h.2,
        (differs_iff consent.effect_class effect).1 h.3,
        (ask_iff v consent).1 (h.4, h.5, h.6),
      ),
    )

grant_if_iff :
    (c : Capability) (p : PrincipalContext cap_read_only) (q : PrincipalContext c)
    (o : Option ConsentError)
    → (grant_if c p o ≡ granted q) ↔ ((o ≡ none) × SameIdentity p q)
unfolding grant_if
grant_if_iff c p q none = (
  λ h. let e : grant_if c p none ≡ granted q = h in (refl, (cc, cc, cc, cc)),
  λ h. cc (h.1.0, h.1.1, h.1.2, h.1.3),
)
grant_if_iff c p q (some e) = (λ h. cc, λ h. cc (h.0))

-- An upgrade gate grants a principal exactly when the consent is signed, not expired, carries the label
-- of the asking principal and the effect class of the gate's own capability, and there is a verifier
-- that accepts it; and the principal granted has the four scopes of the asking one.
pub upgrade_iff :
    (c : Capability) (now : ℕ) (p : PrincipalContext cap_read_only) (consent : SignedConsent)
    (v : ConsentVerifier) (q : PrincipalContext c)
    → (upgrade_to c now p consent v ≡ granted q)
      ↔ (Consents now p consent v (effect_name c) × SameIdentity p q)
unfolding upgrade_to
upgrade_iff c now p consent v q =
    let valid = validate_iff now p consent v (effect_name c) in
    let grants = grant_if_iff c p q (validate_upgrade now p consent v (effect_name c)) in
    (λ h. let (ok, same) = grants.0 h in (valid.0 ok, same), λ h. grants.1 (valid.1 h.0, h.1))
