-- ===== src/Routing/Groups.antt =====
-- The grouping of the endpoints by their method, in RoutingLayer::new of
-- witchcraft-server/src/service/routing.rs.
use witchcraft_rust_server.Common.{
  ◌≡◌, inl, inr, refl, sym, ap, true, false, some, List, [], ◌∷◌, Bool-cases, Mem, arith,
  if◌then◌else◌, ◌∙◌, subst, ◌++◌, append_assoc, append-nil,
}
use witchcraft_rust_server.Http.{Text, eq_text, eq_text_refl, eq_text→eq}
use witchcraft_rust_server.Routing.{
  Endpoint, new_routes, lookup, add_to_group, group_all, new_groups,
}

-- The endpoints of a method, in their order
abbrev pub of_method : Text → List Endpoint → List Endpoint
of_method m [] = []
of_method m (e ∷ es) =
    let rest = of_method m es in if eq_text e.endpoint.method m then e ∷ rest else rest

abbrev pub group_of : Text → List (Text × List Endpoint) → List Endpoint
group_of m [] = []
group_of m ((k, g) ∷ rest) = let r = group_of m rest in if eq_text k m then g else r

eq_text-left : (k n m : Text) → eq_text k n ≡ true → eq_text k m ≡ eq_text n m
eq_text-left k n m h = ap (λ t. eq_text t m) (eq_text→eq k n h)

eq_text-apart : (k n m : Text) → eq_text k n ≡ false → eq_text k m ≡ true → eq_text n m ≡ false
eq_text-apart k n m h q = elim (Bool-cases (eq_text n m)) [
  | inl t ↦
      let r = eq_text→eq k m q ∙ sym (eq_text→eq n m t) in
      let e = ap (eq_text k) (sym r) ∙ eq_text_refl k in ground arith
  | inr t ↦ t
]

group_of-add_to_group :
    (m : Text) (e : Endpoint) (gs : List (Text × List Endpoint))
    → group_of m (add_to_group e gs) ≡ group_of m gs ++ of_method m (e ∷ [])
unfolding add_to_group
group_of-add_to_group m e [] = ground arith
group_of-add_to_group m e ((k, g) ∷ gs) =
    let h = group_of-add_to_group m e gs in
    let left = eq_text-left k e.endpoint.method m in
    let apart = eq_text-apart k e.endpoint.method m in
    let nil = append-nil (group_of m gs) in
    let nil' = append-nil g in
    elim (Bool-cases (eq_text k e.endpoint.method)) [
      | inl t ↦
          let l = left t in
          elim (Bool-cases (eq_text k m)) [ inl u ↦ ground arith | inr u ↦ ground arith ]
      | inr t ↦ elim (Bool-cases (eq_text k m)) [
        | inl u ↦ let a = apart t u in ground arith
        | inr u ↦ ground arith
      ]
    ]

of_method-append :
    (m : Text) (es fs : List Endpoint) → of_method m (es ++ fs) ≡ of_method m es ++ of_method m fs
of_method-append m [] fs = refl
of_method-append m (e ∷ es) fs = grind (arith, of_method-append m es fs)

pub group_of-group_all :
    (m : Text) (gs : List (Text × List Endpoint)) (es : List Endpoint)
    → group_of m (group_all gs es) ≡ group_of m gs ++ of_method m es
unfolding group_all
group_of-group_all m gs [] = sym (append-nil (group_of m gs))
group_of-group_all m gs (e ∷ es) =
    group_of-group_all m (add_to_group e gs) es
    ∙ (ap (λ l. l ++ of_method m es) (group_of-add_to_group m e gs)
        ∙ (append_assoc (group_of m gs) (of_method m (e ∷ [])) (of_method m es)
            ∙ ap (λ l. group_of m gs ++ l) (sym (of_method-append m (e ∷ []) es))))

lookup-step :
    (m j : Text) (g : List Endpoint) (gs : List (Text × List Endpoint))
    → eq_text j m ≡ false
    → lookup m (new_groups gs) ≡ some (new_routes (group_of m gs))
    → lookup m (new_groups ((j, g) ∷ gs)) ≡ some (new_routes (group_of m ((j, g) ∷ gs)))
unfolding new_groups
lookup-step m j g gs t h = ground arith

-- The routes of a method are those of the endpoints of the method, in the order of registration.
pub lookup-new_groups :
    (m : Text) (gs : List (Text × List Endpoint)) (e : Endpoint)
    → Mem e (group_of m gs)
    → lookup m (new_groups gs) ≡ some (new_routes (group_of m gs))
unfolding new_groups
lookup-new_groups m [] e k = elim k [ ]
lookup-new_groups m ((j, g) ∷ gs) e k = elim (Bool-cases (eq_text j m)) [
  | inl t ↦ ground arith
  | inr t ↦
      lookup-step m j g gs t
        (lookup-new_groups m gs e (subst (λ b. Mem e (if b then g else group_of m gs)) t k))
]

pub Mem-of_method :
    (m : Text) (es : List Endpoint) (e : Endpoint)
    → Mem e es
    → e.endpoint.method ≡ m
    → Mem e (of_method m es)
Mem-of_method m [] e k q = elim k [ ]
Mem-of_method m (x ∷ es) e k q = elim (Bool-cases (eq_text x.endpoint.method m)) [
  | inl t ↦
      subst (λ b. Mem e (if b then x ∷ of_method m es else of_method m es)) (sym t)
        (elim k [ inl r ↦ inl r | inr r ↦ inr (Mem-of_method m es e r q) ])
  | inr t ↦
      subst (λ b. Mem e (if b then x ∷ of_method m es else of_method m es)) (sym t)
        (elim k [
          | inl r ↦
              let u =
                ap (λ y. eq_text y.endpoint.method m) (sym r)
                ∙ (ap (λ z. eq_text z m) q ∙ eq_text_refl m) in
              ground arith
          | inr r ↦ Mem-of_method m es e r q
        ])
]

pub of_method-Mem :
    (m : Text) (es : List Endpoint) (e : Endpoint)
    → Mem e (of_method m es)
    → Mem e es × (e.endpoint.method ≡ m)
of_method-Mem m [] e k = elim k [ ]
of_method-Mem m (x ∷ es) e k = elim (Bool-cases (eq_text x.endpoint.method m)) [
  | inl t ↦ elim (subst (λ b. Mem e (if b then x ∷ of_method m es else of_method m es)) t k) [
    | inl r ↦ (inl r, ap (λ y. y.endpoint.method) r ∙ eq_text→eq x.endpoint.method m t)
    | inr r ↦ let (a, b) = of_method-Mem m es e r in (inr a, b)
  ]
  | inr t ↦
      let (a, b) =
        of_method-Mem m es e
          (subst (λ b. Mem e (if b then x ∷ of_method m es else of_method m es)) t k) in
      (inr a, b)
]
