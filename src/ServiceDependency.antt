-- ===== src/ServiceDependency.antt =====
-- witchcraft-server/src/health/service_dependency.rs: the health check on calls to other services. The
-- hosts of the registry of the crate `conjure-runtime` are an argument; a node is the text of its
-- name and port, and rates and instants are numbers. The wording of the messages is left out.
pub mod Nodes
pub mod Warning
mod Tests
use witchcraft_rust_server.Common.{
  ℕ, suc, ◌+◌, ◌-◌, ◌*◌, ◌≡◌, Bool, true, false, ◌&&◌, ◌||◌, Option, none, some, List, [], ◌∷◌,
  length, if◌then◌else◌, ltb, ◌==◌, is_empty,
}
use witchcraft_rust_server.Http.{Text, eq_text, any}
use witchcraft_rust_server.Assoc.{lookup, insert}
use witchcraft_rust_server.HealthRegistry.{HealthState, healthy, warning}

abbrev pub idle_timeout : ℕ
idle_timeout = 5 * 60

pub record HostMetrics : Type 0 where
  pub service_name : Text
  pub node : Text
  pub last_update : ℕ
  pub response_2xx : ℕ
  pub response_5xx : ℕ
  pub io_error : ℕ

-- The two filters, where the instant of the check is `now`
unfoldable pub is_bad : ℕ → HostMetrics → Bool
is_bad now m =
    ltb now (m.last_update + idle_timeout)
    && (ltb m.response_2xx m.response_5xx || ltb m.response_2xx m.io_error)

abbrev pub filter : (HostMetrics → Bool) → List HostMetrics → List HostMetrics
filter p [] = []
filter p (m ∷ ms) = let rest = filter p ms in if p m then m ∷ rest else rest

-- `BTreeSet::insert`
abbrev pub add_node : Text → List Text → List Text
add_node node nodes = if any (eq_text node) nodes then nodes else node ∷ nodes

abbrev pub or_empty : Option (List Text) → List Text
or_empty none = []
or_empty (some nodes) = nodes

-- `into_grouping_map().collect::<BTreeSet<_>>()`
unfoldable pub group : List HostMetrics → List (Text × List Text)
group [] = []
group (m ∷ ms) =
    let rest = group ms in
    insert m.service_name (add_node m.node (or_empty (lookup m.service_name rest))) rest

-- `counts()`, at one service
unfoldable pub count : Text → List HostMetrics → ℕ
count service [] = 0
count service (m ∷ ms) =
    let rest = count service ms in if eq_text m.service_name service then suc rest else rest

unfoldable pub num_unhealthy_services : List (Text × List Text) → List HostMetrics → ℕ
unfolding count
num_unhealthy_services [] hosts = 0
num_unhealthy_services ((service, nodes) ∷ rest) hosts =
    let more = num_unhealthy_services rest hosts in
    if length nodes == count service hosts then suc more else more

pub record Answer : Type 0 where
  pub state : HealthState
  pub params : List (Text × List Text)

unfoldable pub result : ℕ → List HostMetrics → Answer
unfolding is_bad group num_unhealthy_services
result now hosts =
    let bad = group (filter (is_bad now) hosts) in
    if is_empty bad
    then record { state = healthy; params = [] }
    else if ltb 0 (num_unhealthy_services bad hosts)
    then record { state = warning; params = bad }
    else record { state = healthy; params = bad }
