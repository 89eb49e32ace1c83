-- ===== src/ServiceDependency/Warning.antt =====
-- service_dependency.rs: when the check warns.
use witchcraft_rust_server.Common.{
  or-left, or-right, ℕ, suc, ◌≤◌, ◌<◌, ◌≡◌, ◌↔◌, refl, sym, ap, ◌∙◌, Bool, true, false, ◌&&◌, some,
  List, [], ◌∷◌, length, ltb, ◌==◌, is_empty, Bool-cases, Option-cases, inl, inr, Mem, arith,
}
use witchcraft_rust_server.Http.{Text, eq_text}
use witchcraft_rust_server.Assoc.{lookup}
use witchcraft_rust_server.Assoc.Keys.{lookup-Mem, Mem-lookup}
use witchcraft_rust_server.HealthRegistry.{healthy, warning}
use witchcraft_rust_server.ServiceDependency.{
  HostMetrics, is_bad, filter, or_empty, group, count, num_unhealthy_services, result,
}
use witchcraft_rust_server.ServiceDependency.Nodes.{
  nodes_of, has_node, AreDistinct, length-nodes_of, lookup-count, group-Distinct,
}

module _ (p : HostMetrics → Bool) where
  filter-has_node :
      (service node : Text) (ms : List HostMetrics)
      → has_node service node ms ≡ false
      → has_node service node (filter p ms) ≡ false
  filter-has_node service node [] h = refl
  filter-has_node service node (m ∷ ms) h =
      let here : Bool = eq_text m.service_name service && eq_text node m.node in
      let rest = filter-has_node service node ms (or-right here (has_node service node ms) h) in
      elim (Bool-cases (p m)) [
        | inl e ↦ rw (e, or-left here (has_node service node ms) h) rest
        | inr e ↦ rw e rest
      ]

  filter-AreDistinct : (ms : List HostMetrics) → AreDistinct ms → AreDistinct (filter p ms)
  filter-AreDistinct [] d = record {}
  filter-AreDistinct (m ∷ ms) (n, d) = elim (Bool-cases (p m)) [
    | inl e ↦ rw e (filter-has_node m.service_name m.node ms n, filter-AreDistinct ms d)
    | inr e ↦ rw e (filter-AreDistinct ms d)
  ]

  count-filter :
      (service : Text) (ms : List HostMetrics) → count service (filter p ms) ≤ count service ms
  unfolding count
  count-filter service [] = omega arith
  count-filter service (m ∷ ms) =
      let rest = count-filter service ms in
      elim (Bool-cases (p m)) [
        | inl e ↦ elim (Bool-cases (eq_text m.service_name service)) [
          | inl f ↦ rw (e, f) (omega (arith, rest))
          | inr f ↦ rw (e, f) rest
        ]
        | inr e ↦ elim (Bool-cases (eq_text m.service_name service)) [
          | inl f ↦ rw (e, f) (omega (arith, rest))
          | inr f ↦ rw (e, f) rest
        ]
      ]

  -- All hosts of a service, of which there is one at least, pass the filter.
  abbrev pub AllOf : Text → List HostMetrics → Type 0
  AllOf service ms =
      (m : HostMetrics) → Mem m ms → eq_text m.service_name service ≡ true → p m ≡ true

  count-AllOf :
      (service : Text) (ms : List HostMetrics)
      → AllOf service ms
      → count service (filter p ms) ≡ count service ms
  unfolding count
  count-AllOf service [] a = refl
  count-AllOf service (m ∷ ms) a =
      let rest = count-AllOf service ms (λ n i. a n (inr i)) in
      elim (Bool-cases (eq_text m.service_name service)) [
        | inl f ↦ rw (a m (inl refl) f, f) (ap suc rest)
        | inr f ↦ elim (Bool-cases (p m)) [ inl e ↦ rw (e, f) rest | inr e ↦ rw (e, f) rest ]
      ]

  AllOf-count :
      (service : Text) (ms : List HostMetrics)
      → count service (filter p ms) ≡ count service ms
      → AllOf service ms
  unfolding count
  AllOf-count service [] h m i e = elim i [ ]
  AllOf-count service (n ∷ ms) h m i e =
      let fewer = count-filter service ms in
      elim (Bool-cases (p n)) [
        | inl g ↦ elim i [
          | inl q ↦ ap p q ∙ g
          | inr k ↦ elim (Bool-cases (eq_text n.service_name service)) [
            | inl f ↦ let h' = rw (g, f) at h in AllOf-count service ms (omega (arith, h')) m k e
            | inr f ↦ AllOf-count service ms (rw (g, f) at h) m k e
          ]
        ]
        | inr g ↦ elim (Bool-cases (eq_text n.service_name service)) [
          | inl f ↦ let h' = rw (g, f) at h in absurd (omega (arith, h', fewer))
          | inr f ↦ elim i [
            | inl q ↦ absurd (
                let t : false ≡ true =
                  sym f ∙ (ap (λ x. eq_text x.service_name service) (sym q) ∙ e) in
                ground arith)
            | inr k ↦ AllOf-count service ms (rw (g, f) at h) m k e
          ]
        ]
      ]

module _ (hosts : List HostMetrics) where
  num_unhealthy-positive :
      (g : List (Text × List Text))
      → 0 < num_unhealthy_services g hosts
      → (service : Text) × (nodes : List Text) × Mem (service, nodes) g
        × (length nodes ≡ count service hosts)
  unfolding num_unhealthy_services
  num_unhealthy-positive [] h = absurd (omega arith)
  num_unhealthy-positive ((service, nodes) ∷ g) h =
      elim (Bool-cases (length nodes == count service hosts)) [
        | inl e ↦ (service, nodes, inl refl, ground arith)
        | inr e ↦ let (s, n, m, l) = num_unhealthy-positive g (rw e at h) in (s, n, inr m, l)
      ]

  not-unhealthy :
      (g : List (Text × List Text)) → is_empty g ≡ true → ¬ (0 < num_unhealthy_services g hosts)
  unfolding num_unhealthy_services
  not-unhealthy [] e = λ h. absurd (omega arith)
  not-unhealthy (r ∷ g) e = absurd (ground arith)

  positive-num_unhealthy :
      (g : List (Text × List Text)) (service : Text) (nodes : List Text)
      → Mem (service, nodes) g
      → length nodes ≡ count service hosts
      → 0 < num_unhealthy_services g hosts
  unfolding num_unhealthy_services
  positive-num_unhealthy [] service nodes m h = elim m [ ]
  positive-num_unhealthy ((s, n) ∷ g) service nodes m h = elim m [
    | inl q ↦
        let here : length n ≡ count s hosts =
          ap (λ x. length x.1) (sym q) ∙ (h ∙ ap (λ x. count x.0 hosts) q) in
        let same : (length n == count s hosts) ≡ true = ground arith in rw same (omega arith)
    | inr k ↦
        let rest = positive-num_unhealthy g service nodes k h in
        elim (Bool-cases (length n == count s hosts)) [
          | inl e ↦ rw e (omega arith)
          | inr e ↦ rw e rest
        ]
  ]

-- A service with a host, all of whose hosts are bad and were used in the last five minutes
abbrev pub IsDown : ℕ → List HostMetrics → Text → Type 0
IsDown now hosts service = (0 < count service hosts) × AllOf (is_bad now) service hosts

module _ (now : ℕ) (hosts : List HostMetrics) (distinct : AreDistinct hosts) where
  abbrev bad : List HostMetrics
  bad = filter (is_bad now) hosts

  unhealthy-IsDown :
      0 < num_unhealthy_services (group bad) hosts → (service : Text) × IsDown now hosts service
  unhealthy-IsDown h =
      let (service, nodes, m, l) = num_unhealthy-positive hosts (group bad) h in
      let found = Mem-lookup service nodes (group bad) (group-Distinct bad) m in
      let nodes_count : length nodes ≡ count service bad =
        ap (λ o. length (or_empty o)) (sym found)
        ∙ length-nodes_of service bad (filter-AreDistinct (is_bad now) hosts distinct) in
      let some_bad = lookup-count service nodes bad found in
      let fewer = count-filter (is_bad now) service hosts in
      (service, (omega arith, AllOf-count (is_bad now) service hosts (sym nodes_count ∙ l)))

  IsDown-found :
      (service : Text)
      → IsDown now hosts service
      → (nodes : List Text) × (lookup service (group bad) ≡ some nodes)
        × (length nodes ≡ count service hosts)
  IsDown-found service (c, a) =
      let all = count-AllOf (is_bad now) service hosts a in
      let len = length-nodes_of service bad (filter-AreDistinct (is_bad now) hosts distinct) in
      elim (Option-cases (lookup service (group bad))) [
        | inl e ↦
            let none_left : length (nodes_of service bad) ≡ 0 = ap (λ o. length (or_empty o)) e in
            absurd (omega arith)
        | inr (nodes, e) ↦ (nodes, e, sym (ap (λ o. length (or_empty o)) e) ∙ (len ∙ all))
      ]

  IsDown-unhealthy :
      (service : Text) → IsDown now hosts service → 0 < num_unhealthy_services (group bad) hosts
  IsDown-unhealthy service d =
      let (nodes, e, l) = IsDown-found service d in
      positive-num_unhealthy hosts (group bad) service nodes
        (lookup-Mem service nodes (group bad) e) l

  -- The check warns exactly where there is a service with a host, all of whose hosts were used in the
  -- last five minutes and failed more than they succeeded; where no service has two hosts of one node.
  pub result-warning :
      ((result now hosts).state ≡ warning) ↔ ((service : Text) × IsDown now hosts service)
  unfolding result
  result-warning = (
    (λ h. elim (Bool-cases (is_empty (group bad))) [
      | inl e ↦ absurd (let k : healthy ≡ warning = rw e at h in cc)
      | inr e ↦ elim (Bool-cases (ltb 0 (num_unhealthy_services (group bad) hosts))) [
        | inl f ↦ unhealthy-IsDown (ground arith)
        | inr f ↦ absurd (let k : healthy ≡ warning = rw (e, f) at h in cc)
      ]
    ]),
    (λ d.
        let positive = IsDown-unhealthy d.0 d.1 in
        let f : ltb 0 (num_unhealthy_services (group bad) hosts) ≡ true = ground arith in
        elim (Bool-cases (is_empty (group bad))) [
          | inl e ↦ absurd (not-unhealthy hosts (group bad) e positive)
          | inr e ↦ rw (e, f) refl
        ]),
  )
