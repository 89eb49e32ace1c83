-- ===== src/ConnectionLimit/Tests.antt =====
-- A server with two connections at most, while it accepts one and another is closed.
use witchcraft_rust_server.Common.{◌+◌, ◌≡◌, ◌≤◌, ◌⊎◌, refl, false, none, some, []}
use witchcraft_rust_server.Http.{text}
use witchcraft_rust_server.Install.{
  InstallConfig, empty_server, max_connections, max_threads, server_of,
}
use witchcraft_rust_server.ConnectionLimit.{
  Reach, Server, Step, aborted, accept, accepting, accepts, acquire, acquires, close, closes, new,
  released, starts, then_step,
}
use witchcraft_rust_server.ConnectionLimit.Bounds.{connections_bounded}

abbrev config : InstallConfig
config = record {
  product_name = text "foo";
  product_version = text "1.2";
  port = 443;
  management_port = none;
  keystore = record { key_path = []; cert_path = [] };
  client_auth_truststore = none;
  context_path = text "/";
  use_console_log = false;
  server =
      server_of (record { num_cpus = 1; container = false })
        (record empty_server { max_connections = some 2 });
}

abbrev busy : Server
busy = acquire (close (accept (acquire (accept (acquire (new config))))))

busy-Reach : Reach config busy
unfolding new acquire accept close max_connections max_threads server_of
busy-Reach =
    then_step
      (then_step
        (then_step
          (then_step (then_step (then_step starts (acquires {n = 1} refl refl)) (accepts refl))
            (acquires {n = 0} refl refl))
          (accepts refl))
        (closes {n = 1} refl))
      (acquires {n = 0} refl refl)

connections_bounded_example :
    (busy.live + released busy.acceptor ≤ max_connections config.server)
    × (busy.active_connections ≡ busy.live)
    × ((max_connections config.server ≤ busy.live)
        ⊎ ((busy.acceptor ≡ aborted) ⊎ ((busy.acceptor ≡ accepting) ⊎ Step busy (acquire busy))))
connections_bounded_example = connections_bounded busy-Reach
