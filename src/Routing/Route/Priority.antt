-- ===== src/Routing/Route/Priority.antt =====
-- `ResolveRoute` is the first match in a table of levels.
use ottie.Prelude.{
  ◌≡◌, ◌⊎◌, inl, inr, refl, ap, sym, String, Bool, true, false, not, Option, none, some, List, [],
  ◌∷◌, ◌++◌, arith, if◌then◌else◌, Bool-cases, Option-cases, All, str_eq,
}
use ottie.Routing.Ids.{GoStrings}
use ottie.Routing.Keys.{RoutePeer}
use ottie.Routing.Route.{
  AgentBinding, Config, RouteInput, ResolvedRoute, find_binding, find_peer_match, filter_bindings,
  peer_test, guild_test, team_test, account_test, channel_wildcard_test, choose, resolve_route,
  or_next, resolve_default_agent_id, route_channel, route_account,
}

abbrev pub Level : Type 0
Level = String × (AgentBinding → Bool)

-- The first binding of a list that passes a test.
abbrev pub IsFirstBinding : (AgentBinding → Bool) → AgentBinding → List AgentBinding → Type 0
IsFirstBinding test b bs =
    (before : List AgentBinding) × (after : List AgentBinding) × (bs ≡ before ++ (b ∷ after))
    × (test b ≡ true)
    × All (λ x. test x ≡ false) before

abbrev pub NoBinding : List AgentBinding → Level → Type 0
NoBinding bs level = All (λ b. level.1 b ≡ false) bs

find_binding-none :
    (test : AgentBinding → Bool) (bs : List AgentBinding)
    → find_binding test bs ≡ none
    → All (λ b. test b ≡ false) bs
unfolding find_binding
find_binding-none test [] h = tt
find_binding-none test (b ∷ bs) h = (ground arith, find_binding-none test bs (ground arith))

find_binding-some :
    (test : AgentBinding → Bool) (b : AgentBinding) (bs : List AgentBinding)
    → find_binding test bs ≡ some b
    → IsFirstBinding test b bs
unfolding find_binding
find_binding-some test b [] h = cc
find_binding-some test b (x ∷ bs) h = elim (Bool-cases (test x)) [
  | inl e ↦ let same : x ≡ b = ground arith in ([], bs, ap (λ y. y ∷ bs) same, rw same at e, tt)
  | inr e ↦
      let (before, after, whole, hit, miss) = find_binding-some test b bs (rw e at h) in
      (x ∷ before, after, ap (λ l. x ∷ l) whole, hit, (e, miss))
]

find_binding-never : (bs : List AgentBinding) → find_binding (λ b. false) bs ≡ none
unfolding find_binding
find_binding-never [] = refl
find_binding-never (b ∷ bs) = find_binding-never bs

module _ (go : GoStrings) (cfg : Config) (input : RouteInput) where
  open go use {trim_space}

  abbrev pub peer_level : Option RoutePeer → AgentBinding → Bool
  peer_level none b = false
  peer_level (some peer) b =
      if not (str_eq (trim_space peer.id) "") then peer_test go peer b else false

  -- The levels in the order of the comment of `ResolveRoute`; a level without its input has no match.
  abbrev pub levels : List Level
  levels =
      ("binding.peer", peer_level input.peer)
      ∷ ("binding.peer.parent", peer_level input.parent_peer)
      ∷ (
        "binding.guild",
        λ b.
            if not (str_eq (trim_space input.guild_id) "")
            then guild_test go (trim_space input.guild_id) b
            else false,
      )
      ∷ (
        "binding.team",
        λ b.
            if not (str_eq (trim_space input.team_id) "")
            then team_test go (trim_space input.team_id) b
            else false,
      )
      ∷ ("binding.account", account_test go)
      ∷ ("binding.channel", channel_wildcard_test go)
      ∷ []

  abbrev pub fitting : List AgentBinding
  fitting = filter_bindings go (route_channel go cfg input) (route_account go cfg input) cfg

  cascade : List Level → ResolvedRoute
  cascade [] = choose go cfg input (resolve_default_agent_id go cfg.agents) "default"
  cascade ((tag, test) ∷ rest) = or_next go cfg input (find_binding test fitting) tag (cascade rest)

  -- A binding decides the route: it is the first that passes the test of its level, and no binding
  -- passes that of a level before.
  abbrev pub DecidedBy : List Level → ResolvedRoute → Type 0
  DecidedBy table route =
      (tag : String) × (test : AgentBinding → Bool) × (b : AgentBinding) × (before : List Level)
      × (after : List Level) × (table ≡ before ++ ((tag, test) ∷ after))
      × All (NoBinding fitting) before
      × IsFirstBinding test b fitting
      × (route ≡ choose go cfg input b.agent_id tag)

  abbrev pub Defaulted : List Level → ResolvedRoute → Type 0
  Defaulted table route =
      All (NoBinding fitting) table
      × (route ≡ choose go cfg input (resolve_default_agent_id go cfg.agents) "default")

  cascade_lem :
      (table : List Level) → DecidedBy table (cascade table) ⊎ Defaulted table (cascade table)
  unfolding cascade
  cascade_lem [] = inr (tt, refl)
  cascade_lem ((tag, test) ∷ rest) = elim (Option-cases (find_binding test fitting)) [
    | inr (b, e) ↦
        inl (tag, test, b, [], rest, refl, tt, find_binding-some test b fitting e, rw e refl)
    | inl e ↦
        let none_here = find_binding-none test fitting e in
        elim (cascade_lem rest) [
          | inl (tag', test', b, before, after, split, missed, first, same) ↦ inl (
            tag',
            test',
            b,
            (tag, test) ∷ before,
            after,
            ap (λ l. (tag, test) ∷ l) split,
            (none_here, missed),
            first,
            rw e same,
          )
          | inr (missed, same) ↦ inr ((none_here, missed), rw e same)
        ]
  ]

  guarded :
      (test : AgentBinding → Bool) (bs : List AgentBinding) (c : Bool)
      → (if c then find_binding test bs else none)
        ≡ find_binding (λ b. if c then test b else false) bs
  guarded test bs true = refl
  guarded test bs false = sym (find_binding-never bs)

  peer_guarded :
      (o : Option RoutePeer) (bs : List AgentBinding)
      → find_peer_match go o bs ≡ find_binding (peer_level o) bs
  unfolding find_peer_match
  peer_guarded none bs = sym (find_binding-never bs)
  peer_guarded (some peer) bs =
      guarded (peer_test go peer) bs (not (str_eq (trim_space peer.id) ""))

  route-cascade : resolve_route go cfg input ≡ cascade levels
  unfolding resolve_route cascade
  route-cascade =
      let g = trim_space input.guild_id in
      let t = trim_space input.team_id in
      rw
        (
          peer_guarded input.peer fitting,
          peer_guarded input.parent_peer fitting,
          guarded (guild_test go g) fitting (not (str_eq g "")),
          guarded (team_test go t) fitting (not (str_eq t "")),
        )
        refl

  -- The priority cascade: the route is that of the first binding, among those for the channel and the
  -- account, that passes the test of the first level that any of them passes, in the order peer, parent
  -- peer, guild, team, account, channel; where no level has a match it is that of the default agent.
  pub resolve_route-priority :
      DecidedBy levels (resolve_route go cfg input) ⊎ Defaulted levels (resolve_route go cfg input)
  resolve_route-priority = rw route-cascade (cascade_lem levels)
