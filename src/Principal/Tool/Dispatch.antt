-- ===== src/Principal/Tool/Dispatch.antt =====
-- What a dispatch of a projected principal does: which tools run, and as whom.
use ottie.Prelude.{
  ℕ, ◌≤◌, ◌<◌, ◌≡◌, ◌↔◌, ◌⊎◌, inl, inr, refl, sym, String, true, none, some, arith, leb, Bool-cases,
}
use ottie.Principal.Context
use ottie.Principal.Context.{
  Capability, cap_read_only, effect_name, PrincipalContext, new_read_only,
}
use ottie.Principal.Upgrade.{SignedConsent, ConsentVerifier, upgrade_to, granted}
use ottie.Principal.Upgrade.Consent.{Consents, SameIdentity, upgrade_iff}
use ottie.Principal.Tool.{
  UntypedPrincipal, from, untyped_from, guard_dispatch, retyped, Decoder, Execute, finish,
  execute_decoded, run_guarded, run_untyped, ran, insufficient_cap, ToolResult,
}
use ottie.Principal.Tool.Ladder.{rank, has_cap-from, is_zero-from}

-- A principal as the capability c, with the scopes of p.
abbrev pub recast : {d : Capability} (c : Capability) → PrincipalContext d → PrincipalContext c
recast c p = record {
  agent_id = p.agent_id;
  user_scope = p.user_scope;
  account_scope = p.account_scope;
  channel_scope = p.channel_scope;
}

guard-from :
    (c d : Capability) (p : PrincipalContext d)
    → ((rank c ≤ rank d) × (guard_dispatch (from d p) (effect_name c) ≡ none))
      ⊎ ((rank d < rank c) × (guard_dispatch (from d p) (effect_name c) ≡ some insufficient_cap))
unfolding guard_dispatch
guard-from c d p = elim (Bool-cases (leb (rank c) (rank d))) [
  | inl h ↦ inl (ground arith, rw (is_zero-from d p) (rw (has_cap-from c d p) (rw h refl)))
  | inr h ↦ inr (ground arith, rw (is_zero-from d p) (rw (has_cap-from c d p) (rw h refl)))
]

recast-from : (c d : Capability) (p : PrincipalContext d) → retyped c (from d p) ≡ recast c p
unfolding retyped from untyped_from
recast-from c d p = refl

recast-same :
    {d e : Capability} (c : Capability) (p : PrincipalContext d) (q : PrincipalContext e)
    → SameIdentity p q
    → recast c q ≡ recast c p
recast-same c p q same = rw same.0 (rw same.1 (rw same.2 (rw same.3 refl)))

module _ {Raw T : Type 0} (c : Capability) (execute : Execute c T) (decode : Decoder Raw T) where
  decoded_iff :
      (u : UntypedPrincipal) (x : T ⊎ String) (r : ToolResult)
      → (execute_decoded c execute decode u x ≡ ran r)
        ↔ ((t : T) × (x ≡ inl t) × (execute (retyped c u) t ≡ inl r))
  unfolding execute_decoded finish
  decoded_iff u (inr e) r = (λ h. cc, λ h. cc (h.1))
  decoded_iff u (inl t) r =
      (λ h. (t, refl, returned (execute (retyped c u) t) h), λ h. back h.0 h.1 h.2)
    where
      returned : (x : ToolResult ⊎ String) → finish x ≡ ran r → x ≡ inl r
      returned (inl s) h = cc
      returned (inr e) h = cc

      back :
          (w : T)
          → ◌≡◌ {A = T ⊎ String} (inl t) (inl w)
          → execute (retyped c u) w ≡ inl r
          → finish (execute (retyped c u) t) ≡ ran r
      back w e h = let same : t ≡ w = cc in rw same (rw h refl)

  -- A projected principal's tool call returns a result exactly when its capability stands at or above
  -- the tool's on the ladder, the arguments decode, and the tool returns that result on them for the
  -- principal's own four scopes.
  pub run_untyped_iff :
      (d : Capability) (p : PrincipalContext d) (args : Raw) (r : ToolResult)
      → (run_untyped c execute decode (from d p) args ≡ ran r)
        ↔ ((rank c ≤ rank d) × (t : T) × (decode args ≡ inl t) × (execute (recast c p) t ≡ inl r))
  unfolding run_untyped run_guarded
  run_untyped_iff d p args r = elim (guard-from c d p) [
    | inl (le, e) ↦
        let run = decoded_iff (from d p) (decode args) r in
        rw e (
          rw (sym (recast-from c d p))
            (λ h. let out = run.0 h in (le, out.0, out.1, out.2), λ h. run.1 (h.1, h.2, h.3)))
    | inr (lt, e) ↦ rw e (λ h. cc, λ h. absurd (omega (arith, lt, h.0)))
  ]

  -- A tool returns a result to a principal that some gate granted only
  -- on a consent that the gate accepted, to a tool at or below the gate's capability, on decoded
  -- arguments, and for the scopes of the principal that asked the gate.
  pub run_untyped-upgrade_to :
      (d : Capability) (now : ℕ) (p : PrincipalContext cap_read_only) (consent : SignedConsent)
      (v : ConsentVerifier) (q : PrincipalContext d) (args : Raw) (r : ToolResult)
      → upgrade_to d now p consent v ≡ granted q
      → run_untyped c execute decode (from d q) args ≡ ran r
      → Consents now p consent v (effect_name d)
        × (rank c ≤ rank d)
        × (t : T) × (decode args ≡ inl t)
        × (execute (recast c p) t ≡ inl r)
  run_untyped-upgrade_to d now p consent v q args r g h =
      let (ok, same) = (upgrade_iff d now p consent v q).0 g in
      let out = (run_untyped_iff d q args r).0 h in
      (ok, out.0, out.1, out.2, rw (sym (recast-same c p q same)) out.3)

  -- A principal that IsZero calls zero, of any capability, runs a tool of that capability once it is projected:
  -- on decoded arguments, what the tool returns for it is what the dispatch returns.
  pub run_untyped-empty :
      (p : PrincipalContext c) (args : Raw) (t : T) (r : ToolResult)
      → Context.is_zero p ≡ true
      → decode args ≡ inl t
      → execute p t ≡ inl r
      → run_untyped c execute decode (from c p) args ≡ ran r
  run_untyped-empty p args t r zero decoded returned =
      (run_untyped_iff c p args r).1 (omega arith, t, decoded, returned)
