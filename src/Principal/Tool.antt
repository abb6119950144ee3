-- ===== src/Principal/Tool.antt =====
-- typed_tool.go: the principal that the registry holds, and the adapters that check its capability
-- before a typed tool runs. A tool and its decoder are parameters: what Execute returns on a
-- principal and an argument, and what the decoder makes of the raw arguments.
pub mod Ladder
pub mod Dispatch
use ottie.Prelude.{
  ◌⊎◌, inl, inr, String, Bool, true, false, not, ◌&&◌, Option, none, some, List, [], ◌∷◌, str_eq,
  leb, if◌then◌else◌, ℕ, suc,
}
use ottie.Principal.Context.{
  Capability, cap_read_only, cap_writes_local, cap_writes_state, cap_writes_chain,
  cap_writes_wallet, effect_name, PrincipalContext, serialize_principal_label,
}

pub record UntypedPrincipal : Type 0 where
  pub agent_id : String
  pub user_scope : String
  pub account_scope : String
  pub channel_scope : String
  pub highest_cap : String

unfoldable pub is_zero : UntypedPrincipal → Bool
is_zero u =
    str_eq u.agent_id ""
    && (str_eq u.user_scope ""
        && (str_eq u.account_scope "" && (str_eq u.channel_scope "" && str_eq u.highest_cap "")))

abbrev pub capability_ladder : List String
capability_ladder =
    "read_only" ∷ "writes_local" ∷ "writes_state" ∷ "writes_chain" ∷ "writes_wallet" ∷ []

-- The loop of `capabilityLadderPos`, from the index i on; -1 is none.
unfoldable pub ladder_pos_from : ℕ → List String → String → Option ℕ
ladder_pos_from i [] cap = none
ladder_pos_from i (c ∷ cs) cap =
    let below = ladder_pos_from (suc i) cs cap in if str_eq c cap then some i else below

unfoldable pub capability_ladder_pos : String → Option ℕ
unfolding ladder_pos_from
capability_ladder_pos cap = ladder_pos_from 0 capability_ladder cap

unfoldable pub known_cap : String → Option ℕ → String
known_cap cap none = ""
known_cap cap (some i) = cap

unfoldable pub untyped_from : String → String → String → String → String → UntypedPrincipal
unfolding capability_ladder_pos known_cap
untyped_from agent_id user_scope account_scope channel_scope highest_cap = record {
  agent_id = agent_id;
  user_scope = user_scope;
  account_scope = account_scope;
  channel_scope = channel_scope;
  highest_cap = known_cap highest_cap (capability_ladder_pos highest_cap);
}

-- The common body of the five From* projections.
unfoldable pub from : (c : Capability) → PrincipalContext c → UntypedPrincipal
unfolding untyped_from effect_name
from c p = untyped_from p.agent_id p.user_scope p.account_scope p.channel_scope (effect_name c)

unfoldable pub from_read_only : PrincipalContext cap_read_only → UntypedPrincipal
unfolding from
from_read_only = from cap_read_only

unfoldable pub from_writes_local : PrincipalContext cap_writes_local → UntypedPrincipal
unfolding from
from_writes_local = from cap_writes_local

unfoldable pub from_writes_state : PrincipalContext cap_writes_state → UntypedPrincipal
unfolding from
from_writes_state = from cap_writes_state

unfoldable pub from_writes_chain : PrincipalContext cap_writes_chain → UntypedPrincipal
unfolding from
from_writes_chain = from cap_writes_chain

unfoldable pub from_writes_wallet : PrincipalContext cap_writes_wallet → UntypedPrincipal
unfolding from
from_writes_wallet = from cap_writes_wallet

unfoldable pub untyped_label : UntypedPrincipal → String
unfolding serialize_principal_label
untyped_label u = serialize_principal_label u.agent_id u.user_scope u.account_scope u.channel_scope

-- The end of HasCap, on the two positions.
unfoldable pub covers : Option ℕ → Option ℕ → Bool
covers none have = false
covers (some want) none = false
covers (some want) (some have) = leb want have

unfoldable pub has_cap : UntypedPrincipal → String → Bool
unfolding covers capability_ladder_pos
has_cap u cap = covers (capability_ladder_pos cap) (capability_ladder_pos u.highest_cap)

pub data DispatchError : Type 0 where
  zero_principal insufficient_cap : DispatchError
  bad_args : String → DispatchError
  tool_error : String → DispatchError

unfoldable pub guard_dispatch : UntypedPrincipal → String → Option DispatchError
unfolding is_zero has_cap
guard_dispatch u required =
    if is_zero u
    then some zero_principal
    else if not (has_cap u required)
    then some insufficient_cap
    else none

-- `Result`
pub record ToolResult : Type 0 where
  pub for_llm : String
  pub for_user : String
  pub silent : Bool
  pub is_error : Bool

pub data Outcome : Type 0 where
  refused : DispatchError → Outcome
  ran : ToolResult → Outcome

-- The principal that an adapter builds for its tool.
unfoldable pub retyped : (c : Capability) → UntypedPrincipal → PrincipalContext c
retyped c u = record {
  agent_id = u.agent_id;
  user_scope = u.user_scope;
  account_scope = u.account_scope;
  channel_scope = u.channel_scope;
}

-- The adapters: Raw are the raw arguments, T the tool's own, and a text is the error of the
-- decoder or of Execute.
abbrev pub Decoder : Type 0 → Type 0 → Type 0
Decoder Raw T = Raw → T ⊎ String

abbrev pub Execute : Capability → Type 0 → Type 0
Execute c T = PrincipalContext c → T → ToolResult ⊎ String

unfoldable pub finish : ToolResult ⊎ String → Outcome
finish (inl r) = ran r
finish (inr e) = refused (tool_error e)

module _ {Raw T : Type 0} (c : Capability) (execute : Execute c T) (decode : Decoder Raw T)
    (u : UntypedPrincipal) where
  unfoldable pub execute_decoded : T ⊎ String → Outcome
  unfolding retyped finish
  execute_decoded (inr e) = refused (bad_args e)
  execute_decoded (inl typed) = finish (execute (retyped c u) typed)

  unfoldable pub run_guarded : Option DispatchError → Raw → Outcome
  unfolding execute_decoded
  run_guarded (some e) args = refused e
  run_guarded none args = execute_decoded (decode args)

  -- The common body of the five RunUntyped methods.
  unfoldable pub run_untyped : Raw → Outcome
  unfolding guard_dispatch run_guarded effect_name
  run_untyped args = run_guarded (guard_dispatch u (effect_name c)) args
