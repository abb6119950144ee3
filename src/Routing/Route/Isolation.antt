-- ===== src/Routing/Route/Isolation.antt =====
-- Bindings of other channels and accounts.
use ottie.Prelude.{◌≡◌, refl, ap, Bool, false, List, [], ◌∷◌, ◌++◌, keep_if, if◌then◌else◌}
use ottie.Routing.Ids.{GoStrings}
use ottie.Routing.Route.{
  AgentBinding, Config, RouteInput, filter_bindings, is_for, resolve_route, choose, route_channel,
  route_account,
}

keep_if-skip :
    (p : AgentBinding → Bool) (before after : List AgentBinding) (b : AgentBinding)
    → p b ≡ false
    → keep_if p (before ++ (b ∷ after)) ≡ keep_if p (before ++ after)
keep_if-skip p [] after b h = rw h refl
keep_if-skip p (x ∷ before) after b h =
    ap (λ l. if p x then x ∷ l else l) (keep_if-skip p before after b h)

module _ (go : GoStrings) where
  -- A binding for another channel or account changes no route: with it or without it, at whatever
  -- place, ResolveRoute gives the same agent, session keys and level.
  pub resolve_route-other_binding :
      (cfg : Config) (input : RouteInput) (before after : List AgentBinding) (b : AgentBinding)
      → is_for go (route_channel go cfg input) (route_account go cfg input) b ≡ false
      → resolve_route go (record cfg { bindings = before ++ (b ∷ after) }) input
        ≡ resolve_route go (record cfg { bindings = before ++ after }) input
  unfolding resolve_route filter_bindings choose
  resolve_route-other_binding cfg input before after b h =
      rw
        (keep_if-skip (is_for go (route_channel go cfg input) (route_account go cfg input)) before
          after b h)
        refl
