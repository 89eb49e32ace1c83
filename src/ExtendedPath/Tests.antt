-- ===== src/ExtendedPath/Tests.antt =====
-- Services installed below a context path.
use witchcraft_rust_server.Common.{false, ◌≡◌, refl, none, some, List, [], ◌∷◌, ◌++◌}
use witchcraft_rust_server.Split.{split}
use witchcraft_rust_server.Install.{Environment, RawInstall, built, deserialize, validate}
use witchcraft_rust_server.Routing.{literal}
use witchcraft_rust_server.ExtendedPath.{EndpointMetadata, app, api, extend_path, install, new}
use witchcraft_rust_server.ExtendedPath.Installed.{Mounted, install-Mounted}

abbrev env : Environment
env = record { num_cpus = 4; container = false }

-- A document with `context-path: /a/b`
abbrev raw : RawInstall
raw = record {
  product_name = b'p' ∷ [];
  product_version = b'1' ∷ [];
  port = 8080;
  management_port = none;
  keystore = none;
  client_auth_truststore = none;
  context_path = some (b'/' ∷ b'a' ∷ b'/' ∷ b'b' ∷ []);
  use_console_log = none;
  server = none;
}

abbrev ping : EndpointMetadata
ping = record {
  endpoint = record { id = 0; method = b'G' ∷ []; path = literal (b'x' ∷ []) ∷ [] };
  template = b'/' ∷ b'x' ∷ [];
  service_name = b's' ∷ [];
  name = b'n' ∷ [];
  deprecated = none;
}

accepted : deserialize env raw ≡ some (built env raw)
unfolding deserialize validate
accepted = refl

rejected : deserialize env (record raw { context_path = some (b'/' ∷ b'a' ∷ b'/' ∷ []) }) ≡ none
unfolding deserialize validate
rejected = refl

extended :
    extend_path ping (b'/' ∷ b'a' ∷ []) (some (b'/' ∷ b'b' ∷ []))
    ≡ some (record ping {
      endpoint = record ping.endpoint {
        path = literal (b'a' ∷ []) ∷ literal (b'b' ∷ []) ∷ literal (b'x' ∷ []) ∷ [];
      };
      template = b'/' ∷ b'a' ∷ b'/' ∷ b'b' ∷ b'/' ∷ b'x' ∷ [];
    })
unfolding extend_path new split
extended = refl

install-Mounted_example :
    (out : List EndpointMetadata) × (install
        (built env raw)
        []
        ((app, ping ∷ []) ∷ (api, ping ∷ ping ∷ []) ∷ [])
      ≡ some ([] ++ out))
    × Mounted (built env raw).context_path ((app, ping ∷ []) ∷ (api, ping ∷ ping ∷ []) ∷ []) out
install-Mounted_example =
    install-Mounted env raw (built env raw) ((app, ping ∷ []) ∷ (api, ping ∷ ping ∷ []) ∷ []) []
      accepted
