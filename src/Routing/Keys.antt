-- ===== src/Routing/Keys.antt =====
-- pkg/routing/session_key.go: the session key of an agent and a peer. The parsing of keys is not
-- modelled.
use Prim.Native.Char.{code}
use Prim.Native.String.{◌++◌}
use ottie.Prelude.{
  String, Bool, false, not, ◌&&◌, ◌||◌, Option, none, some, List, [], ◌∷◌, str_eq, ◌==◌,
  if◌then◌else◌, any,
}
use ottie.Routing.Ids.{GoStrings, normalize_agent_id, normalize_account_id, default_main_key}

abbrev pub dm_scope_main : String
dm_scope_main = "main"

abbrev pub dm_scope_per_peer : String
dm_scope_per_peer = "per-peer"

abbrev pub dm_scope_per_channel_peer : String
dm_scope_per_channel_peer = "per-channel-peer"

abbrev pub dm_scope_per_account_channel_peer : String
dm_scope_per_account_channel_peer = "per-account-channel-peer"

pub record RoutePeer : Type 0 where
  pub kind : String
  pub id : String

pub record SessionKeyParams : Type 0 where
  pub agent_id : String
  pub channel : String
  pub account_id : String
  pub peer : Option RoutePeer
  pub dm_scope : String
  pub identity_links : List (String × List String)

-- What stands after the first colon, if there is one.
abbrev pub after_colon : String → Option String
after_colon String.[] = none
after_colon (String.◌∷◌ c s) = let rest = after_colon s in if code c == b':' then some s else rest

abbrev pub is_text : Option String → String → Bool
is_text none s = false
is_text (some t) s = not (str_eq t "") && str_eq t s

-- The bare ID of "platform:id", where neither part is empty.
abbrev pub is_bare_id : String → String → Bool
is_bare_id String.[] s = false
is_bare_id (String.◌∷◌ c rest) s = if code c == b':' then false else is_text (after_colon rest) s

module _ (go : GoStrings) where
  open go use {trim_space, to_lower}

  unfoldable pub build_agent_main_session_key : String → String
  build_agent_main_session_key agent_id =
      "agent:" ++ normalize_agent_id go agent_id ++ ":" ++ default_main_key

  unfoldable pub normalize_channel : String → String
  normalize_channel channel =
      let c = trim_space (to_lower channel) in if str_eq c "" then "unknown" else c

  -- `candidates[normalized]`, for a channel and a peer already trimmed.
  abbrev pub is_candidate : String → String → String → Bool
  is_candidate channel peer_id normalized =
      let raw = to_lower peer_id in
      (not (str_eq raw "") && str_eq raw normalized)
      || (not (str_eq channel "") && str_eq (channel ++ ":" ++ raw) normalized)
      || is_bare_id raw normalized

  abbrev pub is_link : String → String → String → Bool
  is_link channel peer_id id =
      let normalized = to_lower (trim_space id) in
      not (str_eq normalized "") && is_candidate channel peer_id normalized

  -- The loop over the links, in the order in which Go ranges over them.
  unfoldable pub first_link : String → String → List (String × List String) → String
  first_link channel peer_id [] = ""
  first_link channel peer_id ((canonical, ids) ∷ links) =
      let rest = first_link channel peer_id links in
      let name = trim_space canonical in
      if str_eq name "" then rest else if any (is_link channel peer_id) ids then name else rest

  unfoldable pub resolve_linked_peer_id : List (String × List String) → String → String → String
  unfolding first_link
  resolve_linked_peer_id links channel peer_id =
      let peer = trim_space peer_id in
      if str_eq peer "" then "" else first_link (to_lower (trim_space channel)) peer links

  abbrev pub or_default : String → String → String
  or_default default s = if str_eq s "" then default else s

  abbrev pub peer_kind : Option RoutePeer → String
  peer_kind none = "direct"
  peer_kind (some peer) = or_default "direct" (trim_space peer.kind)

  abbrev pub peer_id_of : Option RoutePeer → String
  peer_id_of none = trim_space ""
  peer_id_of (some peer) = trim_space peer.id

  -- The peer of a direct message, its identity links followed.
  unfoldable pub direct_peer_id : SessionKeyParams → String → String → String
  direct_peer_id params dm_scope peer_id =
      let linked = resolve_linked_peer_id params.identity_links params.channel peer_id in
      if not (str_eq dm_scope dm_scope_main) && not (str_eq peer_id "")
      then to_lower (if str_eq linked "" then peer_id else linked)
      else to_lower peer_id

  -- The switch on the scope of a direct message.
  unfoldable pub direct_key : SessionKeyParams → String → String → String
  direct_key params dm_scope peer_id =
      let agent_id = normalize_agent_id go params.agent_id in
      let channel = normalize_channel params.channel in
      let account_id = normalize_account_id go params.account_id in
      if str_eq peer_id ""
      then build_agent_main_session_key agent_id
      else if str_eq dm_scope dm_scope_per_account_channel_peer
      then "agent:" ++ agent_id ++ ":" ++ channel ++ ":" ++ account_id ++ ":direct:" ++ peer_id
      else if str_eq dm_scope dm_scope_per_channel_peer
      then "agent:" ++ agent_id ++ ":" ++ channel ++ ":direct:" ++ peer_id
      else if str_eq dm_scope dm_scope_per_peer
      then "agent:" ++ agent_id ++ ":direct:" ++ peer_id
      else build_agent_main_session_key agent_id

  unfoldable pub build_agent_peer_session_key : SessionKeyParams → String
  unfolding direct_key direct_peer_id normalize_channel
  build_agent_peer_session_key params =
      let agent_id = normalize_agent_id go params.agent_id in
      let kind = peer_kind params.peer in
      let dm_scope = or_default dm_scope_main params.dm_scope in
      let peer_id = peer_id_of params.peer in
      if str_eq kind "direct"
      then direct_key params dm_scope (direct_peer_id params dm_scope peer_id)
      else "agent:"
        ++ agent_id
        ++ ":"
        ++ normalize_channel params.channel
        ++ ":"
        ++ kind
        ++ ":"
        ++ or_default "unknown" (to_lower peer_id)
