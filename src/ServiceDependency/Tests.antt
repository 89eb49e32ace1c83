-- ===== src/ServiceDependency/Tests.antt =====
-- Runs of the service dependency check, over two services.
use witchcraft_rust_server.Common.{ℕ, ◌≡◌, ◌↔◌, refl, List, [], ◌∷◌}
use witchcraft_rust_server.Http.{Text}
use witchcraft_rust_server.HealthRegistry.{healthy, warning}
use witchcraft_rust_server.ServiceDependency.{
  HostMetrics, is_bad, group, count, num_unhealthy_services, result,
}
use witchcraft_rust_server.ServiceDependency.Nodes.{AreDistinct}
use witchcraft_rust_server.ServiceDependency.Warning.{IsDown, result-warning}

abbrev host : ℕ → ℕ → ℕ → ℕ → HostMetrics
host service node good bad = record {
  service_name = service ∷ [];
  node = node ∷ [];
  last_update = 1000;
  response_2xx = good;
  response_5xx = bad;
  io_error = 0;
}

-- The service 1 has two bad hosts; the service 2 has one of two.
abbrev hosts : List HostMetrics
hosts = host 1 10 1 2 ∷ host 2 10 1 5 ∷ host 1 11 0 9 ∷ host 2 11 5 1 ∷ []

one_down : (result 1100 hosts).state ≡ warning
unfolding result is_bad group count num_unhealthy_services
one_down = refl

all_idle : (result 1400 hosts).state ≡ healthy
unfolding result is_bad group
all_idle = refl

hosts-AreDistinct : AreDistinct hosts
hosts-AreDistinct = (refl, (refl, (refl, (refl, record {}))))

result-warning_example :
    ((result 1100 hosts).state ≡ warning) ↔ ((service : Text) × IsDown 1100 hosts service)
result-warning_example = result-warning 1100 hosts hosts-AreDistinct
