-- ===== src/Routing/Route.antt =====
-- pkg/routing/route.go: the agent of a message, by the bindings of the configuration.
pub mod Priority
pub mod Isolation
use ottie.Prelude.{
  String, Bool, true, false, not, ◌&&◌, ◌||◌, Option, none, some, List, [], ◌∷◌, str_eq, keep_if,
  if◌then◌else◌,
}
use ottie.Routing.Ids.{
  GoStrings, normalize_agent_id, normalize_account_id, default_agent_id, default_account_id,
}
use ottie.Routing.Keys.{
  RoutePeer, build_agent_peer_session_key, build_agent_main_session_key, dm_scope_main,
}

-- config.PeerMatch is a kind and an ID as RoutePeer is.
pub record BindingMatch : Type 0 where
  pub channel : String
  pub account_id : String
  pub peer : Option RoutePeer
  pub guild_id : String
  pub team_id : String

pub record AgentBinding : Type 0 where
  pub agent_id : String
  pub match : BindingMatch

pub record Agent : Type 0 where
  pub id : String
  pub default : Bool

-- What the resolver reads of config.Config.
pub record Config : Type 0 where
  pub bindings : List AgentBinding
  pub agents : List Agent
  pub dm_scope : String
  pub identity_links : List (String × List String)

pub record RouteInput : Type 0 where
  pub channel : String
  pub account_id : String
  pub peer : Option RoutePeer
  pub parent_peer : Option RoutePeer
  pub guild_id : String
  pub team_id : String

pub record ResolvedRoute : Type 0 where
  pub agent_id : String
  pub channel : String
  pub account_id : String
  pub session_key : String
  pub main_session_key : String
  pub matched_by : String

-- The loop of the five `find…Match` methods.
unfoldable pub find_binding : (AgentBinding → Bool) → List AgentBinding → Option AgentBinding
find_binding test [] = none
find_binding test (b ∷ bs) = let rest = find_binding test bs in if test b then some b else rest

abbrev pub is_none {ℓ} : {A : Type ℓ} → Option A → Bool
is_none none = true
is_none (some a) = false

module _ (go : GoStrings) where
  open go use {trim_space, to_lower}

  unfoldable pub matches_account_id : String → String → Bool
  matches_account_id match_account_id actual =
      let trimmed = trim_space match_account_id in
      if str_eq trimmed ""
      then str_eq actual default_account_id
      else if str_eq trimmed "*"
      then true
      else str_eq (to_lower trimmed) (to_lower actual)

  abbrev pub is_for : String → String → AgentBinding → Bool
  is_for channel account_id b =
      let match_channel = to_lower (trim_space b.match.channel) in
      not (str_eq match_channel "")
      && str_eq match_channel channel
      && matches_account_id b.match.account_id account_id

  unfoldable pub filter_bindings : String → String → Config → List AgentBinding
  filter_bindings channel account_id cfg = keep_if (is_for channel account_id) cfg.bindings

  abbrev pub is_peer : Option RoutePeer → RoutePeer → Bool
  is_peer none peer = false
  is_peer (some m) peer =
      let kind = to_lower (trim_space m.kind) in
      let id = trim_space m.id in
      not (str_eq kind "")
      && not (str_eq id "")
      && str_eq kind (to_lower peer.kind)
      && str_eq id peer.id

  abbrev pub peer_test : RoutePeer → AgentBinding → Bool
  peer_test peer b = is_peer b.match.peer peer

  abbrev pub guild_test : String → AgentBinding → Bool
  guild_test guild_id b =
      let match_guild = trim_space b.match.guild_id in
      not (str_eq match_guild "") && str_eq match_guild guild_id

  abbrev pub team_test : String → AgentBinding → Bool
  team_test team_id b =
      let match_team = trim_space b.match.team_id in
      not (str_eq match_team "") && str_eq match_team team_id

  -- No peer, guild or team.
  abbrev pub is_plain : AgentBinding → Bool
  is_plain b = is_none b.match.peer && str_eq b.match.guild_id "" && str_eq b.match.team_id ""

  abbrev pub account_test : AgentBinding → Bool
  account_test b = not (str_eq (trim_space b.match.account_id) "*") && is_plain b

  abbrev pub channel_wildcard_test : AgentBinding → Bool
  channel_wildcard_test b = str_eq (trim_space b.match.account_id) "*" && is_plain b

  -- The peer levels, with their guards.
  unfoldable pub find_peer_match : Option RoutePeer → List AgentBinding → Option AgentBinding
  find_peer_match none bs = none
  find_peer_match (some peer) bs =
      if not (str_eq (trim_space peer.id) "") then find_binding (peer_test peer) bs else none

  -- The loop of `resolveDefaultAgentID` over the agents marked default.
  unfoldable pub first_default : List Agent → Option String
  first_default [] = none
  first_default (a ∷ more) =
      let rest = first_default more in
      if a.default && not (str_eq (trim_space a.id) "")
      then some (normalize_agent_id go (trim_space a.id))
      else rest

  abbrev pub first_agent : List Agent → String
  first_agent [] = default_agent_id
  first_agent (a ∷ more) =
      if not (str_eq (trim_space a.id) "")
      then normalize_agent_id go (trim_space a.id)
      else default_agent_id

  unfoldable pub resolve_default_agent_id : List Agent → String
  resolve_default_agent_id agents = elim (first_default agents) [
    | some id ↦ id
    | none ↦ first_agent agents
  ]

  unfoldable pub has_agent : String → List Agent → Bool
  has_agent id [] = false
  has_agent id (a ∷ more) = str_eq (normalize_agent_id go a.id) id || has_agent id more

  abbrev pub no_agents : List Agent → Bool
  no_agents [] = true
  no_agents (a ∷ more) = false

  unfoldable pub pick_agent_id : List Agent → String → String
  pick_agent_id agents agent_id =
      let trimmed = trim_space agent_id in
      let normalized = normalize_agent_id go trimmed in
      let fallback = normalize_agent_id go (resolve_default_agent_id agents) in
      if str_eq trimmed ""
      then fallback
      else if no_agents agents
      then normalized
      else if has_agent normalized agents
      then normalized
      else fallback

  module _ (cfg : Config) (input : RouteInput) where
    abbrev pub route_channel : String
    route_channel = to_lower (trim_space input.channel)

    abbrev pub route_account : String
    route_account = normalize_account_id go input.account_id

    -- The closure `choose`.
    unfoldable pub choose : String → String → ResolvedRoute
    choose agent_id matched_by =
        let resolved = pick_agent_id cfg.agents agent_id in
        record {
          agent_id = resolved;
          channel = route_channel;
          account_id = route_account;
          session_key = to_lower (
              build_agent_peer_session_key go (record {
                agent_id = resolved;
                channel = route_channel;
                account_id = route_account;
                peer = input.peer;
                dm_scope = if str_eq cfg.dm_scope "" then dm_scope_main else cfg.dm_scope;
                identity_links = cfg.identity_links;
              }));
          main_session_key = to_lower (build_agent_main_session_key go resolved);
          matched_by = matched_by;
        }

    -- `if match := …; match != nil { return choose(match.AgentID, …) }`, and what follows.
    abbrev pub or_next : Option AgentBinding → String → ResolvedRoute → ResolvedRoute
    or_next none matched_by next = next
    or_next (some b) matched_by next = choose b.agent_id matched_by

    abbrev pub unless_empty : String → Option AgentBinding → Option AgentBinding
    unless_empty id found = if not (str_eq id "") then found else none

    unfoldable pub resolve_route : ResolvedRoute
    resolve_route =
        let bs = filter_bindings route_channel route_account cfg in
        let guild_id = trim_space input.guild_id in
        let team_id = trim_space input.team_id in
        or_next (find_peer_match input.peer bs) "binding.peer" (
          or_next (find_peer_match input.parent_peer bs) "binding.peer.parent" (
            or_next (unless_empty guild_id (find_binding (guild_test guild_id) bs)) "binding.guild"
              (or_next (unless_empty team_id (find_binding (team_test team_id) bs)) "binding.team" (
                or_next (find_binding account_test bs) "binding.account" (
                  or_next (find_binding channel_wildcard_test bs) "binding.channel"
                    (choose (resolve_default_agent_id cfg.agents) "default"))))))
