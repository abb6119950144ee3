-- ===== src/Principal/Tool/Ladder.antt =====
-- The ladder of capabilities: which effect classes a projected principal covers.
use ottie.Prelude.{ℕ, ◌≡◌, refl, false, some, arith, leb, str_eq}
use ottie.Principal.Context.{
  Capability, cap_read_only, cap_writes_local, cap_writes_state, cap_writes_chain,
  cap_writes_wallet, effect_name, PrincipalContext,
}
use ottie.Principal.Tool.{
  is_zero, capability_ladder_pos, ladder_pos_from, known_cap, untyped_from, from, covers, has_cap,
}

-- The order of the capabilities, as the markers' comments give it.
abbrev pub rank : Capability → ℕ
rank cap_read_only = 0
rank cap_writes_local = 1
rank cap_writes_state = 2
rank cap_writes_chain = 3
rank cap_writes_wallet = 4

pos-effect_name : (c : Capability) → capability_ladder_pos (effect_name c) ≡ some (rank c)
unfolding capability_ladder_pos ladder_pos_from effect_name
pos-effect_name cap_read_only = refl
pos-effect_name cap_writes_local = refl
pos-effect_name cap_writes_state = refl
pos-effect_name cap_writes_chain = refl
pos-effect_name cap_writes_wallet = refl

pub highest_cap-from :
    (c : Capability) (p : PrincipalContext c) → (from c p).highest_cap ≡ effect_name c
unfolding from untyped_from known_cap
highest_cap-from c p = rw (pos-effect_name c) refl

-- A principal projected from the capability d covers the effect class of c exactly when d stands at
-- or above c on the ladder.
pub has_cap-from :
    (c d : Capability) (p : PrincipalContext d)
    → has_cap (from d p) (effect_name c) ≡ leb (rank c) (rank d)
unfolding has_cap covers
has_cap-from c d p =
    rw (highest_cap-from d p) (rw (pos-effect_name c) (rw (pos-effect_name d) refl))

unnamed : (c : Capability) → str_eq (effect_name c) "" ≡ false
unfolding effect_name
unnamed cap_read_only = refl
unnamed cap_writes_local = refl
unnamed cap_writes_state = refl
unnamed cap_writes_chain = refl
unnamed cap_writes_wallet = refl

-- No projected principal is zero, whatever its scopes: its capability is named.
pub is_zero-from : (c : Capability) (p : PrincipalContext c) → is_zero (from c p) ≡ false
unfolding is_zero
is_zero-from c p = ground (arith, highest_cap-from c p, unnamed c)
