-- ===== src/ServiceDependency/Nodes.antt =====
-- service_dependency.rs: the nodes that are grouped by their service.
use witchcraft_rust_server.Common.{
  suc, ◌<◌, ◌≡◌, refl, sym, ap, ◌∙◌, Bool, false, ◌&&◌, ◌||◌, some, List, [], ◌∷◌, length,
  if◌then◌else◌, Bool-cases, inl, inr, arith,
}
use witchcraft_rust_server.Http.{Text, eq_text, any, eq_text→eq}
use witchcraft_rust_server.Assoc.{lookup}
use witchcraft_rust_server.Assoc.Lookup.{lookup-insert_at}
use witchcraft_rust_server.Assoc.Keys.{Distinct, insert-Distinct}
use witchcraft_rust_server.ServiceDependency.{HostMetrics, add_node, or_empty, group, count}

abbrev pub nodes_of : Text → List HostMetrics → List Text
nodes_of service ms = or_empty (lookup service (group ms))

-- Whether a service has this node
abbrev pub has_node : Text → Text → List HostMetrics → Bool
has_node service node [] = false
has_node service node (m ∷ ms) =
    (eq_text m.service_name service && eq_text node m.node) || has_node service node ms

-- No service has two hosts with one node, as the registry of hosts keeps it.
abbrev pub AreDistinct : List HostMetrics → Type 0
AreDistinct [] = Unit
AreDistinct (m ∷ ms) = (has_node m.service_name m.node ms ≡ false) × AreDistinct ms

nodes_of-cons :
    (m : HostMetrics) (ms : List HostMetrics) (service : Text)
    → nodes_of service (m ∷ ms) ≡ (
        if eq_text m.service_name service
        then add_node m.node (nodes_of service ms)
        else nodes_of service ms)
unfolding group
nodes_of-cons m ms service =
    ap or_empty (
      lookup-insert_at m.service_name service (add_node m.node (nodes_of m.service_name ms))
        (group ms))
    ∙ elim (Bool-cases (eq_text m.service_name service)) [
      | inl e ↦
          let same =
            ap (λ x. add_node m.node (nodes_of x ms)) (eq_text→eq m.service_name service e) in
          rw e same
      | inr e ↦ rw e refl
    ]

any-add_node :
    (node new : Text) (nodes : List Text)
    → any (eq_text node) (add_node new nodes) ≡ (eq_text node new || any (eq_text node) nodes)
any-add_node node new nodes = elim (Bool-cases (any (eq_text new) nodes)) [
  | inr e ↦ rw e refl
  | inl e ↦ elim (Bool-cases (eq_text node new)) [
    | inl f ↦
        let same = ap (λ x. any (eq_text x) nodes) (eq_text→eq node new f) in rw (e, f) (same ∙ e)
    | inr f ↦ rw (e, f) refl
  ]
]

any-nodes_of :
    (service node : Text) (ms : List HostMetrics)
    → any (eq_text node) (nodes_of service ms) ≡ has_node service node ms
unfolding group
any-nodes_of service node [] = refl
any-nodes_of service node (m ∷ ms) =
    let rest = any-nodes_of service node ms in
    ap (any (eq_text node)) (nodes_of-cons m ms service)
    ∙ elim (Bool-cases (eq_text m.service_name service)) [
      | inl e ↦
          rw e (
            any-add_node node m.node (nodes_of service ms)
            ∙ ap (λ b. eq_text node m.node || b) rest)
      | inr e ↦ rw e rest
    ]

pub length-nodes_of :
    (service : Text) (ms : List HostMetrics)
    → AreDistinct ms
    → length (nodes_of service ms) ≡ count service ms
unfolding group count
length-nodes_of service [] d = refl
length-nodes_of service (m ∷ ms) (n, d) =
    let rest = length-nodes_of service ms d in
    ap length (nodes_of-cons m ms service) ∙ elim (Bool-cases (eq_text m.service_name service)) [
      | inl e ↦
          let absent : any (eq_text m.node) (nodes_of service ms) ≡ false =
            any-nodes_of service m.node ms
            ∙ (ap (λ x. has_node x m.node ms) (sym (eq_text→eq m.service_name service e)) ∙ n) in
          rw (e, absent) (ap suc rest)
      | inr e ↦ rw e rest
    ]

pub lookup-count :
    (service : Text) (nodes : List Text) (ms : List HostMetrics)
    → lookup service (group ms) ≡ some nodes
    → 0 < count service ms
unfolding group count
lookup-count service nodes [] h = absurd (ground arith)
lookup-count service nodes (m ∷ ms) h =
    let found =
      sym (
        lookup-insert_at m.service_name service (add_node m.node (nodes_of m.service_name ms))
          (group ms))
      ∙ h in
    elim (Bool-cases (eq_text m.service_name service)) [
      | inl e ↦ rw e (omega arith)
      | inr e ↦ rw e (lookup-count service nodes ms (rw e at found))
    ]

pub group-Distinct : (ms : List HostMetrics) → Distinct (group ms)
unfolding group
group-Distinct [] = record {}
group-Distinct (m ∷ ms) =
    insert-Distinct m.service_name (add_node m.node (nodes_of m.service_name ms)) (group ms)
      (group-Distinct ms)
