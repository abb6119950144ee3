-- ===== src/Principal/Context.antt =====
-- principal.go: the capabilities, the context of a principal, and its label.
use Prim.Native.String.{◌++◌}
use ottie.Prelude.{String, Bool, ◌&&◌, str_eq}

-- The five marker structs, in the order of the ladder of typed_tool.go.
pub data Capability : Type 0 where
  cap_read_only cap_writes_local cap_writes_state cap_writes_chain cap_writes_wallet : Capability

-- The effect class that names a capability.
unfoldable pub effect_name : Capability → String
effect_name cap_read_only = "read_only"
effect_name cap_writes_local = "writes_local"
effect_name cap_writes_state = "writes_state"
effect_name cap_writes_chain = "writes_chain"
effect_name cap_writes_wallet = "writes_wallet"

-- `PrincipalContext[C]`: the capability is a parameter of the type alone.
pub record PrincipalContext (c : Capability) : Type 0 where
  pub agent_id : String
  pub user_scope : String
  pub account_scope : String
  pub channel_scope : String

unfoldable pub new_read_only : String → String → String → String → PrincipalContext cap_read_only
new_read_only agent_id user_scope account_scope channel_scope = record {
  agent_id = agent_id;
  user_scope = user_scope;
  account_scope = account_scope;
  channel_scope = channel_scope;
}

unfoldable pub serialize_principal_label : String → String → String → String → String
serialize_principal_label agent_id user_scope account_scope channel_scope =
    "agent="
    ++ (agent_id
        ++ (";user="
            ++ (user_scope ++ (";account=" ++ (account_scope ++ (";channel=" ++ channel_scope))))))

unfoldable pub label : {c : Capability} → PrincipalContext c → String
unfolding serialize_principal_label
label p = serialize_principal_label p.agent_id p.user_scope p.account_scope p.channel_scope

unfoldable pub is_zero : {c : Capability} → PrincipalContext c → Bool
is_zero p =
    str_eq p.agent_id ""
    && (str_eq p.user_scope "" && (str_eq p.account_scope "" && str_eq p.channel_scope ""))
