-- ===== src/Routing/Methods.antt =====
-- RoutingService::supported_methods of witchcraft-server/src/service/routing.rs.
use witchcraft_rust_server.Common.{
  ◌≡◌, inl, inr, refl, sym, ap, Bool, true, false, List, [], ◌∷◌, Bool-cases, Mem, arith,
  if◌then◌else◌, ◌∙◌, map, ◌||◌, subst, ◌++◌, Mem-append-cases, ◌↔◌,
}
use witchcraft_rust_server.Http.{Text, eq_text, any, leb_text, eq_text→eq}
use witchcraft_rust_server.Sort.{sort}
use witchcraft_rust_server.Routing.Serving.{routes_is_match, matching_methods, supported_methods}
use witchcraft_rust_server.Routing.{
  Endpoint, Regexes, RegexLaws, WitchcraftEndpoint, precedes, new_routes, into_group_map,
  new_groups, new_layer, add_to_group, group_all,
}
use witchcraft_rust_server.Routing.Best.{matches}
use witchcraft_rust_server.Sort.Order.{sort-Mem, Mem-sort}
use witchcraft_rust_server.Routing.Outcomes.{endpoints, group_of-endpoints}
use witchcraft_rust_server.Routing.Groups.{group_of, Mem-of_method}

any-map :
    (p : Text → Bool) (es : List Endpoint) → any p (map (λ e. e.regex) es) ≡ any (λ e. p e.regex) es
any-map p [] = refl
any-map p (e ∷ es) = ap (λ b. p e.regex || b) (any-map p es)

Mem-any :
    (p : Endpoint → Bool) (es : List Endpoint) (f : Endpoint)
    → Mem f es
    → p f ≡ true
    → any p es ≡ true
Mem-any p [] f m h = elim m [ ]
Mem-any p (x ∷ es) f (inl e) h = let u = ap p e in ground arith
Mem-any p (x ∷ es) f (inr m) h = let u = Mem-any p es f m h in ground arith

any-Mem :
    (p : Endpoint → Bool) (es : List Endpoint)
    → any p es ≡ true
    → (f : Endpoint) × Mem f es × (p f ≡ true)
any-Mem p [] h = ground arith
any-Mem p (x ∷ es) h = elim (Bool-cases (p x)) [
  | inl t ↦ (x, inl refl, t)
  | inr t ↦ let (f, m, k) = any-Mem p es (ap (λ b. b || any p es) (sym t) ∙ h) in (f, inr m, k)
]

-- The members of each group are endpoints of the list, of the method of the group.
abbrev Grouped : List Endpoint → List (Text × List Endpoint) → Type 0
Grouped es [] = Unit
Grouped es ((m, g) ∷ gs) =
    ((f : Endpoint) → Mem f g → Mem f es × (f.endpoint.method ≡ m)) × Grouped es gs

add_to_group-Grouped :
    (es : List Endpoint) (e : Endpoint) (gs : List (Text × List Endpoint))
    → Mem e es
    → Grouped es gs
    → Grouped es (add_to_group e gs)
unfolding add_to_group
add_to_group-Grouped es e [] k h = (
  (λ f m. elim m [
    | inl r ↦ (subst (λ y. Mem y es) (sym r) k, ap (λ y. y.endpoint.method) r)
    | inr n ↦ elim n [ ]
  ]),
  tt,
)
add_to_group-Grouped es e ((m, g) ∷ gs) k (h, hs) =
    elim (Bool-cases (eq_text m e.endpoint.method)) [
      | inl t ↦
          subst
            (λ b. Grouped es (if b then (m, g ++ (e ∷ [])) ∷ gs else (m, g) ∷ add_to_group e gs))
            (sym t)
            (
              (λ f n. elim (Mem-append-cases f g (e ∷ []) n) [
                | inl n' ↦ h f n'
                | inr n' ↦ elim n' [
                  | inl r ↦ (
                    subst (λ y. Mem y es) (sym r) k,
                    ap (λ y. y.endpoint.method) r ∙ sym (eq_text→eq m e.endpoint.method t),
                  )
                  | inr z ↦ elim z [ ]
                ]
              ]),
              hs,
            )
      | inr t ↦
          subst
            (λ b. Grouped es (if b then (m, g ++ (e ∷ [])) ∷ gs else (m, g) ∷ add_to_group e gs))
            (sym t) (h, add_to_group-Grouped es e gs k hs)
    ]

group_all-Grouped :
    (es : List Endpoint) (gs : List (Text × List Endpoint)) (fs : List Endpoint)
    → ((f : Endpoint) → Mem f fs → Mem f es)
    → Grouped es gs
    → Grouped es (group_all gs fs)
unfolding group_all
group_all-Grouped es gs [] k h = h
group_all-Grouped es gs (e ∷ fs) k h =
    group_all-Grouped es (add_to_group e gs) fs (λ f m. k f (inr m))
      (add_to_group-Grouped es e gs (k e (inl refl)) h)

module _ (re : Regexes) (laws : RegexLaws re) where
  routes_is_match-any :
      (es : List Endpoint) (path : Text)
      → routes_is_match re (new_routes es) path ≡ any (matches re path) (sort precedes es)
  unfolding routes_is_match new_routes
  routes_is_match-any es path =
      laws.set_is_match_lem (map (λ e. e.regex) (sort precedes es)) path
      ∙ any-map (λ t. re.is_match t path) (sort precedes es)

  Mem-matching_methods :
      (gs : List (Text × List Endpoint)) (path : Text) (m : Text) (f : Endpoint)
      → Mem f (group_of m gs)
      → matches re path f ≡ true
      → Mem m (matching_methods re (new_groups gs) path)
  unfolding matching_methods new_groups
  Mem-matching_methods [] path m f k q = elim k [ ]
  Mem-matching_methods ((j, g) ∷ gs) path m f k q = elim (Bool-cases (eq_text j m)) [
    | inl t ↦
        subst
          (λ b. Mem m (
            if b
            then j ∷ matching_methods re (new_groups gs) path
            else matching_methods re (new_groups gs) path))
          (sym (
            routes_is_match-any g path
            ∙ Mem-any (matches re path) (sort precedes g) f
                (sort-Mem precedes f g (subst (λ b. Mem f (if b then g else group_of m gs)) t k))
                q))
          (inl (sym (eq_text→eq j m t)))
    | inr t ↦ weaken (routes_is_match re (new_routes g) path) (
        Mem-matching_methods gs path m f (subst (λ b. Mem f (if b then g else group_of m gs)) t k)
          q)
  ]
    where
      weaken :
          (b : Bool)
          → Mem m (matching_methods re (new_groups gs) path)
          → Mem m (
              if b
              then j ∷ matching_methods re (new_groups gs) path
              else matching_methods re (new_groups gs) path)
      weaken true n = inr n
      weaken false n = n

  matching_methods-Mem :
      (es : List Endpoint) (gs : List (Text × List Endpoint)) (path : Text) (m : Text)
      → Grouped es gs
      → Mem m (matching_methods re (new_groups gs) path)
      → (f : Endpoint) × Mem f es × (f.endpoint.method ≡ m) × (matches re path f ≡ true)
  unfolding matching_methods new_groups
  matching_methods-Mem es [] path m h k = elim k [ ]
  matching_methods-Mem es ((j, g) ∷ gs) path m (h, hs) k =
      elim (Bool-cases (routes_is_match re (new_routes g) path)) [
        | inl t ↦
            elim (subst
              (λ b. Mem m (
                if b
                then j ∷ matching_methods re (new_groups gs) path
                else matching_methods re (new_groups gs) path))
              t k) [
                | inl r ↦
                    let (f, n, q) =
                      any-Mem (matches re path) (sort precedes g)
                        (sym (routes_is_match-any g path) ∙ t) in
                    let (a, b) = h f (Mem-sort precedes f g n) in (f, a, b ∙ sym r, q)
                | inr n ↦ matching_methods-Mem es gs path m hs n
              ]
        | inr t ↦ matching_methods-Mem es gs path m hs (
            subst
              (λ b. Mem m (
                if b
                then j ∷ matching_methods re (new_groups gs) path
                else matching_methods re (new_groups gs) path))
              t k)
      ]

  -- The supported methods of a path are the methods of the registered endpoints that match it.
  pub supported_methods_iff :
      (ws : List WitchcraftEndpoint) (path : Text) (m : Text)
      → Mem m (supported_methods re (new_layer re ws) path) ↔ (
          (f : Endpoint) × Mem f (endpoints re ws)
          × (f.endpoint.method ≡ m)
          × (matches re path f ≡ true))
  unfolding supported_methods new_layer into_group_map
  supported_methods_iff ws path m =
      let gs = into_group_map (endpoints re ws) in
      (
        (λ k.
            matching_methods-Mem (endpoints re ws) gs path m
              (group_all-Grouped (endpoints re ws) [] (endpoints re ws) (λ f n. n) tt)
              (Mem-sort leb_text m (matching_methods re (new_groups gs) path) k)),
        (λ (f, n, r, q). sort-Mem leb_text m (matching_methods re (new_groups gs) path) (
            Mem-matching_methods gs path m f
              (subst (Mem f) (sym (group_of-endpoints re ws m))
                (Mem-of_method m (endpoints re ws) f n r))
              q)),
      )
