-- ===== src/Providers/Cooldown/Blocks.antt =====
-- When a provider is blocked, and for how long.
use ottie.Prelude.{ℕ, ◌+◌, ◌≤◌, ◌≡◌, ◌↔◌, refl, String, true, false, none, some, arith, Option}
use ottie.Prelude.Dict.{lookup}
use ottie.Providers.Cooldown.{
  CooldownTracker, CooldownEntry, is_available, cooldown_remaining, is_pending, extend_remaining,
  entry_available, entry_remaining,
}

extend_remaining_lem :
    (now t r d : ℕ) → (extend_remaining now t r ≤ d) ↔ ((r ≤ d) × (is_pending (now + d) t ≡ false))
extend_remaining_lem now t r d = (λ h. (ground arith, ground arith), λ h. ground arith)

entry_remaining_exact :
    (now d : ℕ) (o : Option CooldownEntry)
    → (entry_available (now + d) o ≡ true) ↔ (entry_remaining now o ≤ d)
unfolding entry_available entry_remaining
entry_remaining_exact now d none = (λ h. omega arith, λ h. refl)
entry_remaining_exact now d (some e) =
    let r = extend_remaining now e.disabled_until 0 in
    let first = extend_remaining_lem now e.disabled_until 0 d in
    let second = extend_remaining_lem now e.cooldown_end r d in
    (
      λ h. second.1 (first.1 (omega arith, ground arith), ground arith),
      λ h. ground (arith, second.0 h, first.0 (second.0 h).0),
    )

-- `CooldownRemaining` at a time is the exact wait: after a wait of `d` with no call in between the
-- provider is available if and only if `d` is at least that duration.
pub cooldown_remaining_exact :
    (now d : ℕ) (p : String) (ct : CooldownTracker)
    → (is_available (now + d) p ct ≡ true) ↔ (cooldown_remaining now p ct ≤ d)
unfolding is_available cooldown_remaining
cooldown_remaining_exact now d p ct = entry_remaining_exact now d (lookup p ct.entries)
