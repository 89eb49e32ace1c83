-- ===== src/ResponseHeaders/Looks.antt =====
-- The layers that add headers: the list of the changes that they make to a response.
use witchcraft_rust_server.Common.{
  ℕ, ◌≡◌, refl, ap, ◌∙◌, Bool, true, false, not, ◌&&◌, Option, none, some, List, [], ◌∷◌, ◌++◌,
  subst, if◌then◌else◌, is_some,
}
use witchcraft_rust_server.Http.{Text, eq_text, text}
use witchcraft_rust_server.Assoc.{lookup}
use witchcraft_rust_server.Assoc.Lookup.{lookup-insert_at}
use witchcraft_rust_server.Install.{InstallConfig}
use witchcraft_rust_server.ResponseHeaders.Conditions.{guarded}
use witchcraft_rust_server.ResponseHeaders.{
  Request, Response, Route, Service, cache_control, content_security_policy,
  content_security_policy_value, deprecate, identify, deprecation, deprecation_header, do_not_cache,
  is_deprecated, is_ie, keep_alive, keep_alive_header, keep_alive_value, keeps_alive, no_caching,
  secure, server, server_header, server_value, set, set_some, set_vacant, then_set, trace_id,
  trace_id_header, web_security, with_headers, x_content_security_policy,
}

-- What a list of changes, the last one first, makes of a header
abbrev pub overridden : Text → List (Text × Option Text) → Option (List Text) → Option (List Text)
overridden name [] d = d
overridden name ((k, none) ∷ t) d = overridden name t d
overridden name ((k, some v) ∷ t) d = if eq_text k name then some (v ∷ []) else overridden name t d

-- The headers of security, where the first is that of an Internet Explorer
abbrev pub secure_changes : Option Text → List (Text × Option Text)
secure_changes explorer =
    (x_content_security_policy, explorer)
    ∷ (text "x-xss-protection", some (text "1; mode=block"))
    ∷ (text "x-frame-options", some (text "sameorigin"))
    ∷ (text "x-content-type-options", some (text "nosniff"))
    ∷ (text "referrer-policy", some (text "strict-origin-when-cross-origin"))
    ∷ (content_security_policy, some content_security_policy_value)
    ∷ []

-- The header of a response, after the changes to another one's
pub record Looks (r : Response) (t : List (Text × Option Text)) (r0 : Response) (name : Text)
    : Type 0 where
  pub looks : lookup name r.headers ≡ overridden name t (lookup name r0.headers)
  pub kept_status : r.status ≡ r0.status
  pub kept_body : r.body ≡ r0.body

module _ {r r0 : Response} {t : List (Text × Option Text)} {name : Text} where
  set-Looks : (k v : Text) → Looks r t r0 name → Looks (set k v r) ((k, some v) ∷ t) r0 name
  set-Looks k v h = record {
    looks =
        lookup-insert_at k name (v ∷ []) r.headers
        ∙ ap (λ x. if eq_text k name then some (v ∷ []) else x) h.looks;
    kept_status = h.kept_status;
    kept_body = h.kept_body;
  }

  set_some-Looks :
      (k : Text) (o : Option Text) → Looks r t r0 name → Looks (set_some k o r) ((k, o) ∷ t) r0 name
  set_some-Looks k none h = record {
    looks = h.looks;
    kept_status = h.kept_status;
    kept_body = h.kept_body;
  }
  set_some-Looks k (some v) h = set-Looks k v h

  if_set-Looks :
      (b : Bool) (k v : Text)
      → Looks r t r0 name
      → Looks (if b then set k v r else r) ((k, guarded b v) ∷ t) r0 name
  if_set-Looks true k v h = set-Looks k v h
  if_set-Looks false k v h = record {
    looks = h.looks;
    kept_status = h.kept_status;
    kept_body = h.kept_body;
  }

  -- A header that is set only where it is not there
  vacant-Looks :
      (k v : Text) (o : Option (List Text))
      → Looks r t r0 name
      → Looks (if is_some o then r else set k v r) ((k, guarded (not (is_some o)) v) ∷ t) r0 name
  vacant-Looks k v none h = set-Looks k v h
  vacant-Looks k v (some values) h = record {
    looks = h.looks;
    kept_status = h.kept_status;
    kept_body = h.kept_body;
  }

module _ {r r0 : Response} {t : List (Text × Option Text)} {name : Text} where
  secure-Looks :
      (ie : Bool)
      → Looks r t r0 name
      → Looks (secure ie r) (secure_changes (guarded ie content_security_policy_value) ++ t) r0 name
  secure-Looks ie h = if_set-Looks ie x_content_security_policy content_security_policy_value (
      set-Looks (text "x-xss-protection") (text "1; mode=block") (
        set-Looks (text "x-frame-options") (text "sameorigin") (
          set-Looks (text "x-content-type-options") (text "nosniff") (
            set-Looks (text "referrer-policy") (text "strict-origin-when-cross-origin")
              (set-Looks content_security_policy content_security_policy_value h)))))

unchanged : (r : Response) (name : Text) → Looks r [] r name
unchanged r name = record { looks = refl; kept_status = refl; kept_body = refl }

-- All changes of the layers, the last one first, with the values of those that depend on the request,
-- its endpoint or the configuration
abbrev pub changes :
    Option Text → Option Text → Text → Option Text → Option Text → Text → List (Text × Option Text)
changes deprecated alive product caching explorer id =
    (deprecation, deprecated)
    ∷ (keep_alive, alive)
    ∷ (server, some product)
    ∷ (cache_control, caching)
    ∷ (secure_changes explorer ++ ((trace_id, some id) ∷ []))

-- What `NoCachingService` sees of the header is what the inner service has set.
caching_unchanged :
    (ie : Bool) (id : Text) (r : Response)
    → lookup cache_control (secure ie (set trace_id id r)).headers ≡ lookup cache_control r.headers
caching_unchanged true id r =
    (secure-Looks {name = cache_control} true
      (set-Looks trace_id id (unchanged r cache_control))).looks
caching_unchanged false id r =
    (secure-Looks {name = cache_control} false
      (set-Looks trace_id id (unchanged r cache_control))).looks

no_caching-Looks :
    (get : Bool) {r r0 : Response} {t : List (Text × Option Text)} {name : Text}
    → lookup cache_control r.headers ≡ lookup cache_control r0.headers
    → Looks r t r0 name
    → Looks
        (if get then set_vacant cache_control do_not_cache r else r)
        ((
          cache_control,
          guarded (get && not (is_some (lookup cache_control r0.headers))) do_not_cache,
        )
          ∷ t)
        r0
        name
no_caching-Looks false same h = record {
  looks = h.looks;
  kept_status = h.kept_status;
  kept_body = h.kept_body;
}
no_caching-Looks true {r} {r0} {t} {name} same h =
    subst
      (λ o.
        Looks (set_vacant cache_control do_not_cache r)
          ((cache_control, guarded (not (is_some o)) do_not_cache) ∷ t) r0 name)
      same (vacant-Looks cache_control do_not_cache (lookup cache_control r.headers) h)

-- The response that the layers make of the one of the inner service
abbrev pub finished : Request → Route → Option Text → Text → Bool → Text → Response → Response
finished req route alive product ie id r0 =
    let secured : Response = secure ie (set trace_id id r0) in
    let cached : Response =
      if eq_text req.method (text "GET")
      then set_vacant cache_control do_not_cache secured
      else secured in
    let kept : Response =
      set_some keep_alive (keeps_alive req.version alive) (set server product cached) in
    if is_deprecated route then set deprecation (text "true") kept else kept

pub finished-Looks :
    (req : Request) (route : Route) (alive : Option Text) (product : Text) (ie : Bool) (id : Text)
    (r0 : Response) (name : Text)
    → Looks
        (finished req route alive product ie id r0)
        (changes
          (guarded (is_deprecated route) (text "true"))
          (keeps_alive req.version alive)
          product
          (guarded
            (eq_text req.method (text "GET") && not (is_some (lookup cache_control r0.headers)))
            do_not_cache)
          (guarded ie content_security_policy_value)
          id)
        r0
        name
finished-Looks req route alive product ie id r0 name =
    if_set-Looks (is_deprecated route) deprecation (text "true") (
      set_some-Looks keep_alive (keeps_alive req.version alive) (
        set-Looks server product (
          no_caching-Looks (eq_text req.method (text "GET")) (caching_unchanged ie id r0)
            (secure-Looks ie (set-Looks trace_id id (unchanged r0 name))))))

pub with_headers-finished :
    (decimal : ℕ → Text) (is_visible : Text → Bool) (id : Text) (config : InstallConfig)
    (inner : Service) (req : Request) (route : Route) (r0 : Response)
    → req.route ≡ some route
    → inner req ≡ some r0
    → with_headers decimal is_visible (some id) config inner req
      ≡ some (
          finished req route
            (keep_alive_value decimal config.server)
            (server_value config)
            (is_ie is_visible req)
            id
            r0)
unfolding with_headers deprecation_header keep_alive_header server_header no_caching web_security
    trace_id_header
with_headers-finished decimal is_visible id config inner req route r0 h k =
    let alive = keep_alive_value decimal config.server in
    let ie = is_ie is_visible req in
    let product = server_value config in
    let kept : Option Response → Option Response = λ (o : Option Response).
      then_set
        (then_set
          (then_set (then_set (identify (some id) o) (secure ie)) λ r.
            if eq_text req.method (text "GET") then set_vacant cache_control do_not_cache r else r)
          (set server product))
        (set_some keep_alive (keeps_alive req.version alive)) in
    ap (λ x. deprecate x (kept (inner req))) h ∙ ap (λ x. deprecate (some route) (kept x)) k
