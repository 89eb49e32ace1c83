-- ===== src/ResponseHeaders/Tests.antt =====
-- A response through the layers that add headers.
use witchcraft_rust_server.Common.{ℕ, ◌≡◌, refl, Bool, true, false, Option, none, some, [], ◌∷◌}
use witchcraft_rust_server.Http.{Text, text}
use witchcraft_rust_server.Assoc.{lookup}
use witchcraft_rust_server.Install.{InstallConfig, empty_server, server_of}
use witchcraft_rust_server.ResponseHeaders.{
  Request, Response, Service, content_security_policy_value, contains, http_11, is_ie, no_caching,
  not_resolved, with_headers,
}
use witchcraft_rust_server.ResponseHeaders.Conditions.{
  Chosen, IsCacheable, IsDeprecated, IsExplorer, KeepsAlive,
}
use witchcraft_rust_server.ResponseHeaders.Added.{with_headers-changes}
use witchcraft_rust_server.ResponseHeaders.Looks.{changes, overridden}

abbrev config : InstallConfig
config = record {
  product_name = text "foo";
  product_version = text "1.2";
  port = 443;
  management_port = none;
  keystore = record { key_path = []; cert_path = [] };
  client_auth_truststore = none;
  context_path = text "/";
  use_console_log = false;
  server =
      server_of (record { num_cpus = 1; container = false })
        (record empty_server { idle_connection_timeout = some 30000 });
}

-- Numbers below ten
abbrev decimal : ℕ → Text
decimal n = n ∷ []

abbrev visible : Text → Bool
visible t = true

abbrev request : Request
request = record {
  method = text "GET";
  version = http_11;
  headers =
      (text "user-agent", text "Mozilla/5.0 (Windows NT 6.3; Trident/7.0; rv:11.0)" ∷ []) ∷ [];
  route = some not_resolved;
}

abbrev answer : Response
answer = record {
  status = 200;
  headers = (text "content-type", text "text/plain" ∷ []) ∷ [];
  body = text "hello";
}

abbrev service : Service
service req = some answer

explorer : is_ie visible request ≡ true
unfolding is_ie contains
explorer = refl

uncached : no_caching service (record request { method = text "PUT" }) ≡ some answer
unfolding no_caching
uncached = refl

with_headers-changes_example :
    (r : Response) × (with_headers decimal visible (some (text "a1")) config service request
      ≡ some r)
    × (r.status ≡ 200)
    × (r.body ≡ text "hello")
    × (deprecated : Option Text) × Chosen (IsDeprecated not_resolved) (text "true") deprecated
    × (alive : Option Text) × KeepsAlive decimal config.server http_11 alive
    × (caching : Option Text) × Chosen
        (IsCacheable request answer.headers)
        (text "no-cache, no-store, must-revalidate")
        caching
    × (explorer : Option Text) × Chosen
        (IsExplorer visible request)
        content_security_policy_value
        explorer
    × ((name : Text)
        → lookup name r.headers
          ≡ overridden name
              (changes deprecated alive (text "foo/1.2") caching explorer (text "a1"))
              (lookup name answer.headers))
with_headers-changes_example =
    with_headers-changes decimal visible (text "a1") config service request not_resolved answer refl
      refl
