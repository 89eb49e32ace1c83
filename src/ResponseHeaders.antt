-- ===== src/ResponseHeaders.antt =====
-- The layers of witchcraft-server/src/service that add headers to a response, as `start` of
-- server.rs stacks them. A service is what a request is answered, where `none` is the panic of an
-- `expect` or an `unwrap`. A `HeaderMap` is a map from names, in lower case, to lists of values. The
-- context of tracing is that of the thread, and `is_visible` is what `to_str` asks of a value.
pub mod Conditions
pub mod Looks
pub mod Added
mod Tests
use witchcraft_rust_server.Common.{
  ℕ, ◌/◌, ◌≤◌, Bool, true, false, ◌&&◌, ◌||◌, Option, none, some, List, [], ◌∷◌, ◌++◌,
  if◌then◌else◌, leb, ◌==◌, is_some,
}
use witchcraft_rust_server.Http.{Text, eq_text, text}
use witchcraft_rust_server.Assoc.{insert, lookup}
use witchcraft_rust_server.Install.{InstallConfig, ServerConfig}
use witchcraft_rust_server.ExtendedPath.{EndpointMetadata}

abbrev pub HeaderMap : Type 0
HeaderMap = List (Text × List Text)

-- `Version`, in its order
pub data Version : Type 0 where
  http_09 http_10 http_11 http_2 http_3 : Version

-- The extension `Route`, as far as a layer here asks for it
pub data Route : Type 0 where
  resolved : EndpointMetadata → Route
  not_resolved : Route

pub record Request : Type 0 where
  pub method : Text
  pub version : Version
  pub headers : HeaderMap
  pub route : Option Route

pub record Response : Type 0 where
  pub status : ℕ
  pub headers : HeaderMap
  pub body : Text

abbrev pub Service : Type 0
Service = Request → Option Response

-- `HeaderMap::insert`
abbrev pub set : Text → Text → Response → Response
set name value r = record r { headers = insert name (value ∷ []) r.headers }

abbrev pub then_set : Option Response → (Response → Response) → Option Response
then_set none f = none
then_set (some r) f = some (f r)

abbrev pub cache_control : Text
cache_control = text "cache-control"

abbrev pub do_not_cache : Text
do_not_cache = text "no-cache, no-store, must-revalidate"

-- `if let Entry::Vacant(e)`
abbrev pub set_vacant : Text → Text → Response → Response
set_vacant name value r = if is_some (lookup name r.headers) then r else set name value r

-- `NoCachingService::call`
unfoldable pub no_caching : Service → Service
no_caching inner req =
    then_set (inner req)
      λ r. if eq_text req.method (text "GET") then set_vacant cache_control do_not_cache r else r

-- `ServerHeaderLayer::new` and `ServerHeaderService::call`
unfoldable pub server_value : InstallConfig → Text
server_value c = c.product_name ++ (text "/" ++ c.product_version)

abbrev pub server : Text
server = text "server"

unfoldable pub server_header : Text → Service → Service
server_header value inner req = then_set (inner req) (set server value)

abbrev pub keep_alive : Text
keep_alive = text "keep-alive"

-- `KeepAliveHeaderLayer::new`, where `decimal` prints a number
unfoldable pub keep_alive_value : (ℕ → Text) → ServerConfig → Option Text
keep_alive_value decimal c = elim c.idle_connection_timeout [
  | none ↦ none
  | some d ↦ some (text "timeout=" ++ decimal (d / 1000))
]

abbrev pub keeps_alive : Version → Option Text → Option Text
keeps_alive http_09 value = value
keeps_alive http_10 value = value
keeps_alive http_11 value = value
keeps_alive http_2 value = none
keeps_alive http_3 value = none

abbrev pub set_some : Text → Option Text → Response → Response
set_some name none r = r
set_some name (some value) r = set name value r

-- `KeepAliveHeaderService::call`
unfoldable pub keep_alive_header : Option Text → Service → Service
keep_alive_header value inner req =
    then_set (inner req) (set_some keep_alive (keeps_alive req.version value))

abbrev pub deprecation : Text
deprecation = text "deprecation"

abbrev pub is_deprecated : Route → Bool
is_deprecated (resolved endpoint) = is_some endpoint.deprecated
is_deprecated not_resolved = false

abbrev pub deprecate : Option Route → Option Response → Option Response
deprecate none answer = none
deprecate (some route) answer =
    then_set answer λ r. if is_deprecated route then set deprecation (text "true") r else r

-- `DeprecationHeaderService::call`
unfoldable pub deprecation_header : Service → Service
deprecation_header inner req = deprecate req.route (inner req)

abbrev pub trace_id : Text
trace_id = text "x-b3-traceid"

abbrev pub identify : Option Text → Option Response → Option Response
identify current none = none
identify none (some r) = none
identify (some id) (some r) = some (set trace_id id r)

-- `TraceIdHeaderService::call`, where `current` is the id of the context of tracing
unfoldable pub trace_id_header : Option Text → Service → Service
trace_id_header current inner req = identify current (inner req)

-- `str::starts_with` and `str::contains`
unfoldable pub starts_with : Text → Text → Bool
starts_with [] s = true
starts_with (p ∷ ps) [] = false
starts_with (p ∷ ps) (b ∷ bs) = p == b && starts_with ps bs

unfoldable pub contains : Text → Text → Bool
unfolding starts_with
contains pattern [] = starts_with pattern []
contains pattern (b ∷ bs) = starts_with pattern (b ∷ bs) || contains pattern bs

abbrev pub content_security_policy : Text
content_security_policy = text "content-security-policy"

abbrev pub content_security_policy_value : Text
content_security_policy_value =
    text
      "default-src 'self'; img-src 'self'; style-src 'self' 'unsafe-inline'; frame-ancestors 'self';"

abbrev pub x_content_security_policy : Text
x_content_security_policy = text "x-content-security-policy"

-- `HeaderMap::get`: the first of the values
abbrev pub get : Text → HeaderMap → Option Text
get name headers = elim (lookup name headers) [
  | none ↦ none
  | some values ↦ elim values [ [] ↦ none | v ∷ vs ↦ some v ]
]

-- The test for an Internet Explorer, where `to_str` reads a value of visible characters
unfoldable pub is_ie : (Text → Bool) → Request → Bool
unfolding contains
is_ie is_visible req = elim (get (text "user-agent") req.headers) [
  | none ↦ false
  | some s ↦ is_visible s && (contains (text "MSIE 10") s || contains (text "rv:11.0") s)
]

abbrev pub secure : Bool → Response → Response
secure ie r =
    let r' : Response = set (text "x-xss-protection") (text "1; mode=block") (
      set (text "x-frame-options") (text "sameorigin") (
        set (text "x-content-type-options") (text "nosniff") (
          set (text "referrer-policy") (text "strict-origin-when-cross-origin")
            (set content_security_policy content_security_policy_value r)))) in
    if ie then set x_content_security_policy content_security_policy_value r' else r'

-- `WebSecurityService::call`
unfoldable pub web_security : (Text → Bool) → Service → Service
unfolding is_ie
web_security is_visible inner req = then_set (inner req) (secure (is_ie is_visible req))

-- The layers from `DeprecationHeaderLayer` to `TraceIdHeaderLayer` in `start`
unfoldable pub with_headers :
    (ℕ → Text) → (Text → Bool) → Option Text → InstallConfig → Service → Service
unfolding deprecation_header keep_alive_header keep_alive_value server_header server_value
    no_caching web_security trace_id_header
with_headers decimal is_visible current config inner = deprecation_header (
    keep_alive_header (keep_alive_value decimal config.server) (
      server_header (server_value config)
        (no_caching (web_security is_visible (trace_id_header current inner)))))
