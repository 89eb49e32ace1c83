-- ===== src/Routing/Outcomes.antt =====
-- RoutingLayer::new and RoutingService::call of witchcraft-server/src/service/routing.rs, from the
-- registered endpoints to the route of a request.
use witchcraft_rust_server.Common.{
  ◌≡◌, refl, sym, ap, Bool, true, false, Option, none, some, List, [], ◌∷◌, Mem, arith, ◌∙◌, map,
  ◌&&◌, subst,
}
use witchcraft_rust_server.Http.{Text, eq_text}
use witchcraft_rust_server.Routing.Serving.{
  Request, resolved, route, route_of, choose, options_method,
}
use witchcraft_rust_server.Routing.{
  Endpoint, Regexes, RegexLaws, WitchcraftEndpoint, precedes, new_routes, into_group_map, new_layer,
  new_endpoint, Routes,
}
use witchcraft_rust_server.Routing.Best.{matches, route-best}
use witchcraft_rust_server.Routing.Groups.{
  of_method, group_of, group_of-group_all, lookup-new_groups, Mem-of_method, of_method-Mem,
}

abbrev pub is_star : Request → Bool
is_star req = eq_text req.method options_method && eq_text req.uri (b'*' ∷ [])

module _ (re : Regexes) where
  abbrev pub endpoints : List WitchcraftEndpoint → List Endpoint
  endpoints ws = map (new_endpoint re) ws

  pub group_of-endpoints :
      (ws : List WitchcraftEndpoint) (m : Text)
      → group_of m (into_group_map (endpoints ws)) ≡ of_method m (endpoints ws)
  unfolding into_group_map
  group_of-endpoints ws m = group_of-group_all m [] (endpoints ws)

  module _ (laws : RegexLaws re) where
    route_of-best :
        (ws : List WitchcraftEndpoint) (path : Text) (f : Endpoint)
        → Mem f (endpoints ws)
        → matches re path f ≡ true
        → (e : Endpoint) × (route_of re (new_layer re ws) f.endpoint.method path ≡ some e)
          × Mem e (endpoints ws)
          × (e.endpoint.method ≡ f.endpoint.method)
          × (matches re path e ≡ true)
          × (precedes e f ≡ true)
    unfolding route_of new_layer
    route_of-best ws path f k q =
        let m = f.endpoint.method in
        let g = Mem-of_method m (endpoints ws) f k refl in
        let l =
          lookup-new_groups m (into_group_map (endpoints ws)) f
            (subst (Mem f) (sym (group_of-endpoints ws m)) g) in
        let (e, a, b, c, d) = route-best re laws (of_method m (endpoints ws)) path f g q in
        let (b', n) = of_method-Mem m (endpoints ws) e b in
        (
          e,
          ap (λ (o : Option Routes). elim o [ none ↦ none | some r ↦ route re r path ])
                (l ∙ ap (λ es. some (new_routes es)) (group_of-endpoints ws m))
              ∙ a,
          b',
          n,
          c,
          d,
        )

    -- Where an endpoint of the request's method matches its path, and the request is not
    -- `OPTIONS *`, the request is resolved to a registered endpoint of its method that matches,
    -- too, and whose priority is not below that of the first.
    pub choose-best :
        (ws : List WitchcraftEndpoint) (req : Request) (f : Endpoint)
        → is_star req ≡ false
        → Mem f (endpoints ws)
        → f.endpoint.method ≡ req.method
        → matches re req.path f ≡ true
        → (e : Endpoint) × (choose re (new_layer re ws) req ≡ (resolved e.endpoint, some e))
          × Mem e (endpoints ws)
          × (e.endpoint.method ≡ req.method)
          × (matches re req.path e ≡ true)
          × (precedes e f ≡ true)
    unfolding choose
    choose-best ws req f h k n q =
        let (e, a, b, c, d, g) = route_of-best ws req.path f k q in
        let a' = ap (λ m. route_of re (new_layer re ws) m req.path) (sym n) ∙ a in
        (e, ground arith, b, c ∙ n, d, g)
