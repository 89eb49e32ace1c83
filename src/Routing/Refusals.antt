-- ===== src/Routing/Refusals.antt =====
-- The requests that RoutingService::call of witchcraft-server/src/service/routing.rs does not
-- resolve.
use witchcraft_rust_server.Common.{
  ◌≡◌, inl, inr, refl, sym, true, false, none, List, [], Bool-cases, Option-cases, Mem, arith, ◌∙◌,
  subst, ◌↔◌, is_empty,
}
use witchcraft_rust_server.Http.{Text, eq_text}
use witchcraft_rust_server.Routing.Serving.{
  Request, method_not_allowed, options, unresolved, supported_methods, refuse, choose,
  options_method, route_of,
}
use witchcraft_rust_server.Routing.{
  Endpoint, Regexes, RegexLaws, WitchcraftEndpoint, new_layer, Routes,
}
use witchcraft_rust_server.Routing.Best.{matches}
use witchcraft_rust_server.Routing.Outcomes.{endpoints, choose-best, is_star}
use witchcraft_rust_server.Routing.Methods.{supported_methods_iff}

-- A registered endpoint of the method matches the path.
abbrev pub IsSupported : Regexes → List WitchcraftEndpoint → Text → Text → Type 0
IsSupported re ws path m =
    (f : Endpoint) × Mem f (endpoints re ws) × (f.endpoint.method ≡ m) × (matches re path f ≡ true)

module _ (re : Regexes) where
  choose-method_not_allowed :
      (layer : List (Text × Routes)) (req : Request) (ms : List Text)
      → choose re layer req ≡ (method_not_allowed ms, none)
      → (supported_methods re layer req.path ≡ ms) × (is_empty ms ≡ false) × (is_star req ≡ false)
  unfolding choose refuse
  choose-method_not_allowed layer req ms h =
      elim (Option-cases (route_of re layer req.method req.path)) [
        | inl a ↦ (ground arith, ground arith, ground arith)
        | inr (e, a) ↦ (ground arith, ground arith, ground arith)
      ]

  choose-unresolved :
      (layer : List (Text × Routes)) (req : Request)
      → choose re layer req ≡ (unresolved, none)
      → supported_methods re layer req.path ≡ []
  unfolding choose refuse
  choose-unresolved layer req h = elim (Option-cases (route_of re layer req.method req.path)) [
    | inl a ↦ ground arith
    | inr (e, a) ↦ ground arith
  ]

  choose-options :
      (layer : List (Text × Routes)) (req : Request) (ms : List Text)
      → choose re layer req ≡ (options ms, none)
      → (supported_methods re layer req.path ≡ ms) × (eq_text req.method options_method ≡ true)
  unfolding choose refuse
  choose-options layer req ms h = elim (Option-cases (route_of re layer req.method req.path)) [
    | inl a ↦ (ground arith, ground arith)
    | inr (e, a) ↦ (ground arith, ground arith)
  ]

  module _ (laws : RegexLaws re) where
    -- A request that is left unresolved (404) has a path that no registered endpoint matches,
    -- of any method.
    pub unresolved-no_match :
        (ws : List WitchcraftEndpoint) (req : Request) (f : Endpoint)
        → choose re (new_layer re ws) req ≡ (unresolved, none)
        → Mem f (endpoints re ws)
        → matches re req.path f ≡ false
    unresolved-no_match ws req f h k = elim (Bool-cases (matches re req.path f)) [
      | inl t ↦ absurd (
          subst (Mem f.endpoint.method) (choose-unresolved (new_layer re ws) req h)
            ((supported_methods_iff re laws ws req.path f.endpoint.method).1 (f, k, refl, t)))
      | inr t ↦ t
    ]

    -- A request that is answered with Method Not Allowed (405) is told the methods of all the
    -- registered endpoints that match its path, no other, and its own is not among them.
    pub method_not_allowed-exact :
        (ws : List WitchcraftEndpoint) (req : Request) (ms : List Text)
        → choose re (new_layer re ws) req ≡ (method_not_allowed ms, none)
        → ((m : Text) → Mem m ms ↔ IsSupported re ws req.path m) × ¬ Mem req.method ms
    method_not_allowed-exact ws req ms h =
        let (a, _, s) = choose-method_not_allowed (new_layer re ws) req ms h in
        (
          (λ m.
              subst (λ l. Mem m l ↔ IsSupported re ws req.path m) a
                (supported_methods_iff re laws ws req.path m)),
          (λ k.
              let (f, n, r, q) =
                (supported_methods_iff re laws ws req.path req.method).0
                  (subst (Mem req.method) (sym a) k) in
              let (e, c, _, _, _, _) = choose-best re laws ws req f s n r q in
              let d = sym h ∙ c in ground arith),
        )

    -- A request that is answered with its options is one for OPTIONS, and is told the methods of
    -- all the registered endpoints that match its path and no other.
    pub options-exact :
        (ws : List WitchcraftEndpoint) (req : Request) (ms : List Text) (m : Text)
        → choose re (new_layer re ws) req ≡ (options ms, none)
        → (eq_text req.method options_method ≡ true) × (Mem m ms ↔ IsSupported re ws req.path m)
    options-exact ws req ms m h =
        let (a, b) = choose-options (new_layer re ws) req ms h in
        (
          b,
          subst (λ l. Mem m l ↔ IsSupported re ws req.path m) a
              (supported_methods_iff re laws ws req.path m),
        )
