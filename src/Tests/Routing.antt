-- ===== src/Tests/Routing.antt =====
-- Two bindings, one of a team and one of another channel, with texts taken as they are.
use ottie.Prelude.{◌≡◌, ◌⊎◌, refl, true, false, none, some, [], ◌∷◌}
use ottie.Routing.Ids.{GoStrings, normalize_account_id, normalize_id}
use ottie.Routing.Route.{
  AgentBinding, Config, RouteInput, resolve_route, is_for, route_channel, route_account,
  matches_account_id,
}
use ottie.Routing.Route.Priority.{levels, DecidedBy, Defaulted, resolve_route-priority}

abbrev plain_strings : GoStrings
plain_strings = record {
  trim_space = λ s. s;
  to_lower = λ s. s;
  match_string = λ r s. true;
  replace_all = λ r s t. s;
  byte_length = λ s. 1;
  first_bytes = λ n s. s;
}

abbrev team_binding : AgentBinding
team_binding = record {
  agent_id = "ops";
  match = record {
    channel = "slack";
    account_id = "*";
    peer = none;
    guild_id = "";
    team_id = "t1";
  };
}

abbrev other_binding : AgentBinding
other_binding = record {
  agent_id = "fun";
  match = record { channel = "irc"; account_id = "*"; peer = none; guild_id = ""; team_id = "" };
}

abbrev two_bindings : Config
two_bindings = record {
  bindings = team_binding ∷ other_binding ∷ [];
  agents = [];
  dm_scope = "";
  identity_links = [];
}

abbrev team_message : RouteInput
team_message = record {
  channel = "slack";
  account_id = "";
  peer = some (record { kind = "direct"; id = "u1" });
  parent_peer = none;
  guild_id = "";
  team_id = "t1";
}

resolve_route-priority_example :
    DecidedBy plain_strings two_bindings team_message
      (levels plain_strings two_bindings team_message)
      (resolve_route plain_strings two_bindings team_message)
    ⊎ Defaulted plain_strings two_bindings team_message
        (levels plain_strings two_bindings team_message)
        (resolve_route plain_strings two_bindings team_message)
resolve_route-priority_example = resolve_route-priority plain_strings two_bindings team_message

is_other :
    is_for plain_strings
      (route_channel plain_strings two_bindings team_message)
      (route_account plain_strings two_bindings team_message)
      other_binding
    ≡ false
unfolding normalize_account_id normalize_id matches_account_id
is_other = refl
