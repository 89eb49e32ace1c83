-- ===== src/ExtendedPath/Installed.antt =====
-- extended_path.rs and witchcraft.rs: where the endpoints of a server with a validated configuration
-- are found.
use witchcraft_rust_server.Common.{
  ℕ, true, false, ◌≡◌, ◌⊎◌, inl, inr, refl, sym, ap, ◌∙◌, Option, none, some, List, [], ◌∷◌, ◌++◌,
  append_assoc, append-nil, map, if◌then◌else◌, All, Bool-cases, arith, subst, is_empty,
}
use witchcraft_rust_server.Http.{Text, eq_text}
use witchcraft_rust_server.Split.Parts.{Without, slashed, slashed-join, split-cases}
use witchcraft_rust_server.Install.{
  Environment, InstallConfig, RawInstall, built, deserialize, ends_with, is_valid, root,
  starts_with, validate,
}
use witchcraft_rust_server.Routing.{literal, unwrap_or}
use witchcraft_rust_server.ExtendedPath.{
  EndpointMetadata, Mount, app, api, api_prefix, base, endpoints, extend_all, extend_path, install,
  new, prefix_of,
}

deserialize-valid :
    (env : Environment) (raw : RawInstall) (c : InstallConfig)
    → deserialize env raw ≡ some c
    → is_valid c.context_path ≡ true
unfolding deserialize validate
deserialize-valid env raw c h = elim (Bool-cases (is_valid (built env raw).context_path)) [
  | inl e ↦
      let k : ◌≡◌ {A = Option InstallConfig} (some (built env raw)) (some c) = rw e at h in
      ground arith
  | inr e ↦
      absurd (let k : ◌≡◌ {A = Option InstallConfig} none (some c) = rw e at h in ground arith)
]

-- What `ExtendedPathEndpoint::new` asserts of a prefix
abbrev IsPrefix : Text → Type 0
IsPrefix t = (starts_with b'/' t ≡ true) × (ends_with b'/' t ≡ false)

base-cases : (p : Text) → is_valid p ≡ true → (base p ≡ []) ⊎ IsPrefix (base p)
unfolding is_valid
base-cases p h = elim (Bool-cases (eq_text p root)) [
  | inl e ↦ inl (rw e refl)
  | inr e ↦ inr (rw e (ground arith))
]

ends_with-append :
    (c : ℕ) (xs : Text) (y : ℕ) (ys : Text) → ends_with c (xs ++ (y ∷ ys)) ≡ ends_with c (y ∷ ys)
ends_with-append c [] y ys = refl
ends_with-append c (x ∷ []) y ys = refl
ends_with-append c (x ∷ z ∷ xs) y ys = ends_with-append c (z ∷ xs) y ys

starts_with-append :
    (c : ℕ) (xs ys : Text) → starts_with c xs ≡ true → starts_with c (xs ++ ys) ≡ true
starts_with-append c [] ys h = absurd (ground arith)
starts_with-append c (x ∷ xs) ys h = h

abbrev pub full_prefix : Text → Mount → Text
full_prefix p at = base p ++ unwrap_or (prefix_of at) []

full_prefix-cases :
    (p : Text) (at : Mount)
    → is_valid p ≡ true
    → (full_prefix p at ≡ []) ⊎ IsPrefix (full_prefix p at)
full_prefix-cases p app h =
    subst (λ t. (t ≡ []) ⊎ IsPrefix t) (sym (append-nil (base p))) (base-cases p h)
full_prefix-cases p api h = inr (elim (base-cases p h) [
  | inl e ↦ subst (λ t. IsPrefix (t ++ api_prefix)) (sym e) (refl, refl)
  | inr (s, n) ↦ (
    starts_with-append b'/' (base p) api_prefix s,
    ends_with-append b'/' (base p) b'/' (b'a' ∷ b'p' ∷ b'i' ∷ []),
  )
])

-- The endpoint with segments before its path, and their text before its template
abbrev prepended : List Text → EndpointMetadata → EndpointMetadata
prepended segments e = record e {
  endpoint = record e.endpoint { path = map literal segments ++ e.endpoint.path };
  template = slashed b'/' segments ++ e.template;
}

-- `x` is `e` below the context path and the prefix.
abbrev pub Extends : Text → Mount → EndpointMetadata → EndpointMetadata → Type 0
Extends p at e x =
    (segments : List Text) × All (Without b'/') segments
    × (slashed b'/' segments ≡ full_prefix p at)
    × (x ≡ prepended segments e)

new-Extends :
    (e : EndpointMetadata) (t : Text)
    → IsPrefix t
    → (segments : List Text) × All (Without b'/') segments
      × (slashed b'/' segments ≡ t)
      × (new e t ≡ some (prepended segments e))
unfolding new
new-Extends e [] (s, n) = absurd (ground arith)
new-Extends e (b ∷ bs) (s, n) =
    let (part, parts, q, a, j) = split-cases b'/' bs in
    let slash : b ≡ b'/' = ground arith in
    let text : slashed b'/' (part ∷ parts) ≡ b ∷ bs =
      slashed-join b'/' part parts ∙ ap (λ x. b'/' ∷ x) j ∙ ap (λ x. x ∷ bs) (sym slash) in
    let at_text : Text → EndpointMetadata = λ (t : Text). record e {
      endpoint = record e.endpoint { path = map literal (part ∷ parts) ++ e.endpoint.path };
      template = t ++ e.template;
    } in
    (part ∷ parts, a, text, rw (s, n, q) (ap (λ t. some (at_text t)) (sym text)))

extend_path-Extends :
    (p : Text) (at : Mount) (e : EndpointMetadata)
    → is_valid p ≡ true
    → (x : EndpointMetadata) × (extend_path e p (prefix_of at) ≡ some x) × Extends p at e x
unfolding extend_path
extend_path-Extends p at e h = elim (full_prefix-cases p at h) [
  | inl z ↦ (e, rw z refl, ([], record {}, sym z, refl))
  | inr i ↦
      let (segments, a, text, q) = new-Extends e (full_prefix p at) i in
      (prepended segments e, not_empty (full_prefix p at) i ∙ q, (segments, a, text, refl))
]
  where
    not_empty : (t : Text) → IsPrefix t → (if is_empty t then some e else new e t) ≡ new e t
    not_empty [] (s, n) = absurd (ground arith)
    not_empty (b ∷ bs) i = refl

-- The endpoints `xs` are those of one service, in order.
abbrev pub AllExtend : Text → Mount → List EndpointMetadata → List EndpointMetadata → Type 0
AllExtend p at [] [] = Unit
AllExtend p at [] (x ∷ xs) = ⊥
AllExtend p at (e ∷ es) [] = ⊥
AllExtend p at (e ∷ es) (x ∷ xs) = Extends p at e x × AllExtend p at es xs

extend_all-Extends :
    (p : Text) (at : Mount) (es : List EndpointMetadata)
    → is_valid p ≡ true
    → (xs : List EndpointMetadata) × (extend_all p (prefix_of at) es ≡ some xs)
      × AllExtend p at es xs
unfolding extend_all
extend_all-Extends p at [] h = ([], refl, record {})
extend_all-Extends p at (e ∷ es) h =
    let (x, q, ex) = extend_path-Extends p at e h in
    let (xs, r, al) = extend_all-Extends p at es h in (x ∷ xs, rw (extend_all, q, r) refl, (ex, al))

-- The endpoints `out` are those of the services, in order.
abbrev pub Mounted : Text → List (Mount × List EndpointMetadata) → List EndpointMetadata → Type 0
Mounted p [] out = out ≡ []
Mounted p ((at, es) ∷ services) out =
    (xs : List EndpointMetadata) × (rest : List EndpointMetadata) × (out ≡ xs ++ rest)
    × AllExtend p at es xs
    × Mounted p services rest

install-valid :
    (c : InstallConfig) (services : List (Mount × List EndpointMetadata))
    (installed : List EndpointMetadata)
    → is_valid c.context_path ≡ true
    → (out : List EndpointMetadata) × (install c installed services ≡ some (installed ++ out))
      × Mounted c.context_path services out
unfolding install endpoints
install-valid c [] installed h = ([], ap (λ t. some t) (sym (append-nil installed)), refl)
install-valid c ((at, es) ∷ services) installed h =
    let (xs, q, al) = extend_all-Extends c.context_path at es h in
    let (rest, r, mo) = install-valid c services (installed ++ xs) h in
    (
      xs ++ rest,
      rw (install, endpoints, q) (r ∙ ap (λ t. some t) (append_assoc installed xs rest)),
      (xs, rest, refl, al, mo),
    )

-- Whatever a document says, if it is accepted, no service that is installed meets the assertion on
-- the prefix; each endpoint of each service is installed, in order, after those that were there, with
-- segments before its own that have no slash and that spell the context path and then the service's
-- prefix, with this text before its template, and is otherwise as it was.
pub install-Mounted :
    (env : Environment) (raw : RawInstall) (c : InstallConfig)
    (services : List (Mount × List EndpointMetadata)) (installed : List EndpointMetadata)
    → deserialize env raw ≡ some c
    → (out : List EndpointMetadata) × (install c installed services ≡ some (installed ++ out))
      × Mounted c.context_path services out
install-Mounted env raw c services installed h =
    install-valid c services installed (deserialize-valid env raw c h)
