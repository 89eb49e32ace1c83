-- ===== src/ResponseHeaders/Added.antt =====
-- no_caching.rs, server_header.rs, keep_alive_header.rs, deprecation_header.rs, trace_id_header.rs,
-- web_security.rs: what the headers of a response are, layer upon layer.
use witchcraft_rust_server.Common.{ℕ, ◌≡◌, Bool, not, ◌&&◌, Option, some, ◌++◌, is_some}
use witchcraft_rust_server.Http.{Text, eq_text, text}
use witchcraft_rust_server.Assoc.{lookup}
use witchcraft_rust_server.Install.{InstallConfig}
use witchcraft_rust_server.ResponseHeaders.Conditions.{
  Chosen, IsCacheable, IsDeprecated, IsExplorer, KeepsAlive, guarded, guarded-Chosen,
  IsCacheable-iff, IsDeprecated-iff, IsExplorer-iff, keeps_alive-KeepsAlive,
}
use witchcraft_rust_server.ResponseHeaders.{
  Request, Response, Route, Service, cache_control, content_security_policy_value, do_not_cache,
  is_deprecated, is_ie, keep_alive_value, keeps_alive, server, server_value, with_headers,
}
use witchcraft_rust_server.ResponseHeaders.Looks.{
  changes, finished, finished-Looks, overridden, with_headers-finished,
}

-- A request that was routed, on a thread with a context of tracing, and that the inner service answers:
-- the layers do not panic, keep the status and the body, and set these headers and no other. Always:
-- the trace id, the five of security, and `Server` with the product's name, a slash and its version.
-- `Deprecation: true` exactly where the endpoint was found and is deprecated; `Keep-Alive` with the
-- time-out in whole seconds, rounded down, exactly where one is configured and the version is before
-- 2; `Cache-Control` exactly in the answer to a GET that has none; and the policy's second name exactly
-- where the first `User-Agent` is readable and has `MSIE 10` or `rv:11.0` in it. All other headers are
-- as the inner service set them.
pub with_headers-changes :
    (decimal : ℕ → Text) (is_visible : Text → Bool) (id : Text) (config : InstallConfig)
    (inner : Service) (req : Request) (route : Route) (r0 : Response)
    → req.route ≡ some route
    → inner req ≡ some r0
    → (r : Response) × (with_headers decimal is_visible (some id) config inner req ≡ some r)
      × (r.status ≡ r0.status)
      × (r.body ≡ r0.body)
      × (deprecated : Option Text) × Chosen (IsDeprecated route) (text "true") deprecated
      × (alive : Option Text) × KeepsAlive decimal config.server req.version alive
      × (caching : Option Text) × Chosen
          (IsCacheable req r0.headers)
          (text "no-cache, no-store, must-revalidate")
          caching
      × (explorer : Option Text) × Chosen
          (IsExplorer is_visible req)
          content_security_policy_value
          explorer
      × ((name : Text)
          → lookup name r.headers
            ≡ overridden name
                (changes deprecated alive
                  (config.product_name ++ (text "/" ++ config.product_version))
                  caching
                  explorer
                  id)
                (lookup name r0.headers))
unfolding server_value
with_headers-changes decimal is_visible id config inner req route r0 h k =
    let alive = keep_alive_value decimal config.server in
    let ie = is_ie is_visible req in
    let product = server_value config in
    let fresh =
      eq_text req.method (text "GET") && not (is_some (lookup cache_control r0.headers)) in
    let look = finished-Looks req route alive product ie id r0 in
    (
      finished req route alive product ie id r0,
      with_headers-finished decimal is_visible id config inner req route r0 h k,
      (look server).kept_status,
      (look server).kept_body,
      guarded (is_deprecated route) (text "true"),
      guarded-Chosen (IsDeprecated route) (is_deprecated route) (text "true")
          (IsDeprecated-iff route),
      keeps_alive req.version alive,
      keeps_alive-KeepsAlive decimal config.server req.version,
      guarded fresh do_not_cache,
      guarded-Chosen (IsCacheable req r0.headers) fresh do_not_cache
          (IsCacheable-iff req r0.headers),
      guarded ie content_security_policy_value,
      guarded-Chosen (IsExplorer is_visible req) ie content_security_policy_value
          (IsExplorer-iff is_visible req),
      λ name. (look name).looks,
    )
