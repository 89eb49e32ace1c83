-- ===== src/Install/Tests.antt =====
-- The sizes of a server whose document has no `server` section.
use witchcraft_rust_server.Common.{◌≡◌, ◌≤◌, refl, false, some, arith}
use witchcraft_rust_server.Install.{
  Environment, RawServer, empty_server, max_connections, max_threads, server_of,
}

abbrev env : Environment
env = record { num_cpus = 6; container = false }

limits : max_connections (server_of env empty_server) ≡ 2560
unfolding max_connections max_threads server_of
limits = refl

-- The document's own number of processors counts for the defaults.
abbrev sixteen : RawServer
sixteen = record empty_server { processors = some 16 }

few : (server_of env sixteen).processors ≤ 18014398509481984
unfolding server_of
few = omega arith
