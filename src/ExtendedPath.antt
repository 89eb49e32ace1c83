-- ===== src/ExtendedPath.antt =====
-- witchcraft-server/src/endpoint/extended_path.rs, and the methods of witchcraft-server/src/witchcraft.rs
-- that install services. Of an endpoint there are its metadata; what `ConjureEndpoint::new` and
-- `ConjureBlockingEndpoint::new` add does not change these.
pub mod Installed
mod Tests
use witchcraft_rust_server.Common.{
  Bool, true, false, not, ◌&&◌, Option, none, some, List, [], ◌∷◌, ◌++◌, map, if◌then◌else◌,
  is_empty,
}
use witchcraft_rust_server.Http.{Text, eq_text, text}
use witchcraft_rust_server.Split.{split}
use witchcraft_rust_server.Install.{InstallConfig, ends_with, root, starts_with}
use witchcraft_rust_server.Routing.{PathSegment, WitchcraftEndpoint, literal, unwrap_or}

-- `EndpointMetadata`; the router's part of it is the method and the path.
pub record EndpointMetadata : Type 0 where
  pub endpoint : WitchcraftEndpoint
  pub template : Text
  pub service_name : Text
  pub name : Text
  pub deprecated : Option Text

-- `str::strip_prefix`, for one byte that is known to be there
abbrev strip : Text → Text
strip [] = []
strip (b ∷ bs) = bs

-- `ExtendedPathEndpoint::new`: `none` is the panic of the assertion.
unfoldable pub new : EndpointMetadata → Text → Option EndpointMetadata
new inner path_prefix =
    if not (starts_with b'/' path_prefix && not (ends_with b'/' path_prefix))
    then none
    else some (record inner {
      endpoint = record inner.endpoint {
        path = map literal (split b'/' (strip path_prefix)) ++ inner.endpoint.path;
      };
      template = path_prefix ++ inner.template;
    })

-- The context path as a prefix
abbrev pub base : Text → Text
base context_path = if eq_text context_path root then [] else context_path

-- `extend_path`
unfoldable pub extend_path : EndpointMetadata → Text → Option Text → Option EndpointMetadata
unfolding new
extend_path endpoint context_path prefix =
    let full = base context_path ++ unwrap_or prefix [] in
    if is_empty full then some endpoint else new endpoint full

abbrev pub api_prefix : Text
api_prefix = text "/api"

-- `app` and `blocking_app`; `api` and `blocking_api`
pub data Mount : Type 0 where
  app api : Mount

abbrev pub prefix_of : Mount → Option Text
prefix_of app = none
prefix_of api = some api_prefix

-- The iterator that `endpoints` and `blocking_endpoints` append to the installed ones
unfoldable pub extend_all :
    Text → Option Text → List EndpointMetadata → Option (List EndpointMetadata)
unfolding extend_path
extend_all context_path prefix [] = some []
extend_all context_path prefix (e ∷ es) =
    let rest = extend_all context_path prefix es in
    elim (extend_path e context_path prefix) [
      | none ↦ none
      | some x ↦ elim rest [ none ↦ none | some xs ↦ some (x ∷ xs) ]
    ]

unfoldable pub endpoints :
    InstallConfig
    → List EndpointMetadata
    → Option Text
    → List EndpointMetadata
    → Option (List EndpointMetadata)
unfolding extend_all
endpoints install_config installed prefix es =
    elim (extend_all install_config.context_path prefix es) [
      | none ↦ none
      | some xs ↦ some (installed ++ xs)
    ]

-- A server's `init`, as the services that it installs in turn
unfoldable pub install :
    InstallConfig
    → List EndpointMetadata
    → List (Mount × List EndpointMetadata)
    → Option (List EndpointMetadata)
unfolding endpoints
install install_config installed [] = some installed
install install_config installed ((at, es) ∷ services) =
    elim (endpoints install_config installed (prefix_of at) es) [
      | none ↦ none
      | some more ↦ install install_config more services
    ]
