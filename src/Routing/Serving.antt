-- ===== src/Routing/Serving.antt =====
-- RoutingService of witchcraft-server/src/service/routing.rs: what becomes of a request. The methods
-- are sorted by `sorted_by_key`.
use witchcraft_rust_server.Common.{
  Bool, ◌&&◌, Option, none, some, List, [], ◌∷◌, map, if◌then◌else◌, is_empty,
}
use witchcraft_rust_server.Http.{Text, eq_text, leb_text}
use witchcraft_rust_server.Sort.{sort}
use witchcraft_rust_server.Routing.{
  WitchcraftEndpoint, Endpoint, Regexes, Routes, get_elem?, lookup,
}

pub data Route : Type 0 where
  resolved : WitchcraftEndpoint → Route
  method_not_allowed : List Text → Route
  star_options : Route
  options : List Text → Route
  unresolved : Route

-- `Request`: the crate `http` gives the path of the uri.
pub record Request : Type 0 where
  pub method : Text
  pub uri : Text
  pub path : Text

-- The request that goes on to the inner service, with its extensions, or the panic of an `unwrap`
pub data Outcome : Type 0 where
  forwarded : Route → Option (List (Text × Text)) → Outcome
  panicked : Outcome

-- "OPTIONS"
abbrev pub options_method : Text
options_method = b'O' ∷ b'P' ∷ b'T' ∷ b'I' ∷ b'O' ∷ b'N' ∷ b'S' ∷ []

module _ (re : Regexes) where
  unfoldable pub routes_is_match : Routes → Text → Bool
  routes_is_match routes path = re.set_is_match (map (λ e. e.regex) routes) path

  -- `Routes::route`
  unfoldable pub route : Routes → Text → Option Endpoint
  route routes path = elim (re.set_first (map (λ e. e.regex) routes) path) [
    | none ↦ none
    | some i ↦ get_elem? routes i
  ]

  unfoldable pub matching_methods : List (Text × Routes) → Text → List Text
  unfolding routes_is_match
  matching_methods [] path = []
  matching_methods ((m, r) ∷ rest) path =
      let more = matching_methods rest path in if routes_is_match r path then m ∷ more else more

  unfoldable pub supported_methods : List (Text × Routes) → Text → List Text
  unfolding matching_methods
  supported_methods layer path = sort leb_text (matching_methods layer path)

  unfoldable pub route_of : List (Text × Routes) → Text → Text → Option Endpoint
  unfolding route
  route_of layer method path = elim (lookup method layer) [ none ↦ none | some r ↦ route r path ]

  unfoldable pub refuse : List (Text × Routes) → Request → Route
  unfolding supported_methods
  refuse layer req =
      let methods = supported_methods layer req.path in
      if eq_text req.method options_method
      then options methods
      else if is_empty methods
      then unresolved
      else method_not_allowed methods

  -- The route of a request and its endpoint
  unfoldable pub choose : List (Text × Routes) → Request → Route × Option Endpoint
  unfolding refuse route_of
  choose layer req =
      if eq_text req.method options_method && eq_text req.uri (b'*' ∷ [])
      then (star_options, none)
      else elim (route_of layer req.method req.path) [
        | some e ↦ (resolved e.endpoint, some e)
        | none ↦ (refuse layer req, none)
      ]

  unfoldable pub read_params : Text → Text → List Text → Option (List (Text × Text))
  read_params regex path [] = some []
  read_params regex path (name ∷ names) =
      let rest = read_params regex path names in
      elim (re.captures regex path name) [
        | none ↦ none
        | some value ↦ elim rest [ none ↦ none | some params ↦ some ((name, value) ∷ params) ]
      ]

  unfoldable pub forward_params : Route → Endpoint → Text → Outcome
  unfolding read_params
  forward_params r e path =
      if is_empty e.path_params
      then forwarded r none
      else elim (read_params e.regex path e.path_params) [
        | none ↦ panicked
        | some params ↦ forwarded r (some params)
      ]

  unfoldable pub call : List (Text × Routes) → Request → Outcome
  unfolding choose forward_params
  call layer req =
      let (r, endpoint) = choose layer req in
      elim endpoint [ none ↦ forwarded r none | some e ↦ forward_params r e req.path ]
