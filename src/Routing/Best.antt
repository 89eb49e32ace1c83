-- ===== src/Routing/Best.antt =====
-- Routes::route of witchcraft-server/src/service/routing.rs picks the best of the endpoints that
-- match a path.
use witchcraft_rust_server.Common.{
  ℕ, ◌≡◌, inl, inr, refl, sym, ap, Bool, true, Option, none, some, List, [], ◌∷◌, Bool-cases, Mem,
  arith, if◌then◌else◌, ◌∙◌, map, subst,
}
use witchcraft_rust_server.Http.{Text}
use witchcraft_rust_server.Sort.{sort}
use witchcraft_rust_server.Routing.Serving.{route}
use witchcraft_rust_server.Routing.{
  Endpoint, Regexes, RegexLaws, precedes, new_routes, first_index, get_elem?,
}
use witchcraft_rust_server.Routing.Priority.{precedes_total, precedes_trans}
use witchcraft_rust_server.Sort.Order.{IsSorted, sort-IsSorted, sort-Mem, Mem-sort}

abbrev pub find : (Endpoint → Bool) → List Endpoint → Option Endpoint
find p [] = none
find p (e ∷ es) = if p e then some e else find p es

find-get_elem? :
    (p : Text → Bool) (es : List Endpoint)
    → elim (first_index p (map (λ e. e.regex) es)) [ none ↦ none | some i ↦ get_elem? es i ]
      ≡ find (λ e. p e.regex) es
find-get_elem? p [] = refl
find-get_elem? p (e ∷ es) =
    let h = find-get_elem? p es in
    elim (Bool-cases (p e.regex)) [ inl t ↦ ground arith | inr t ↦ ground arith ]

abbrev pub matches : Regexes → Text → Endpoint → Bool
matches re path e = re.is_match e.regex path

module _ (re : Regexes) (laws : RegexLaws re) where
  route-find : (es : List Endpoint) (path : Text) → route re es path ≡ find (matches re path) es
  unfolding route
  route-find es path =
      ap (λ (o : Option ℕ). elim o [ none ↦ none | some i ↦ get_elem? es i ])
        (laws.set_first_lem (map (λ e. e.regex) es) path)
      ∙ find-get_elem? (λ t. re.is_match t path) es

precedes_refl : (e : Endpoint) → precedes e e ≡ true
precedes_refl e = elim (Bool-cases (precedes e e)) [ inl t ↦ t | inr t ↦ precedes_total e e t ]

-- The endpoint is found, matches, and comes before every other that matches.
find-best :
    (p : Endpoint → Bool) (es : List Endpoint) (f : Endpoint)
    → IsSorted precedes es
    → Mem f es
    → p f ≡ true
    → (e : Endpoint) × (find p es ≡ some e) × Mem e es × (p e ≡ true) × (precedes e f ≡ true)
find-best p [] f s m q = elim m [ ]
find-best p (x ∷ es) f (h, s) m q = elim (Bool-cases (p x)) [
  | inl t ↦ (
    x,
    ap (λ b. if b then some x else find p es) t,
    inl refl,
    t,
    elim m [ inl e ↦ subst (λ y. precedes x y ≡ true) (sym e) (precedes_refl x) | inr k ↦ h f k ],
  )
  | inr t ↦ elim m [
    | inl e ↦ let u = ap p e in ground arith
    | inr k ↦
        let (e, a, b, c, d) = find-best p es f s k q in
        (e, ap (λ b. if b then some x else find p es) t ∙ a, inr b, c, d)
  ]
]

module _ (re : Regexes) (laws : RegexLaws re) where
  -- Where an endpoint of the list matches the path, `route` gives an endpoint of the list that
  -- matches, too, and whose priority is not below that of the first.
  pub route-best :
      (es : List Endpoint) (path : Text) (f : Endpoint)
      → Mem f es
      → matches re path f ≡ true
      → (e : Endpoint) × (route re (new_routes es) path ≡ some e)
        × Mem e es
        × (matches re path e ≡ true)
        × (precedes e f ≡ true)
  unfolding new_routes
  route-best es path f m q =
      let (e, a, b, c, d) =
        find-best (matches re path) (sort precedes es) f
          (sort-IsSorted precedes precedes_total precedes_trans es) (sort-Mem precedes f es m) q in
      (e, route-find re laws (sort precedes es) path ∙ a, Mem-sort precedes e es b, c, d)
