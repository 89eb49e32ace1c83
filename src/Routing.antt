-- ===== src/Routing.antt =====
-- witchcraft-server/src/service/routing.rs: which endpoint a request goes to. Text is a list of
-- bytes. The crate `regex` is a parameter; `sort_by` and `sorted_by_key` are the stable sorts of the
-- standard library and of itertools. A `HashMap` is an association list, and the code does not depend
-- on its order.
pub mod Serving
pub mod Priority
pub mod Best
pub mod Groups
pub mod Methods
pub mod Outcomes
pub mod Refusals
mod Tests
use Prim.Native.Nat.{compare, Ordering}
use mathlib.Core.List.{filter_map}
use witchcraft_rust_server.Http.{Text, eq_text, leb_text, any}
use witchcraft_rust_server.Sort.{sort}
use witchcraft_rust_server.Common.{
  ℕ, zero, suc, ◌+◌, ◌≡◌, Bool, true, false, not, ◌&&◌, ◌||◌, Option, none, some, List, [], ◌∷◌,
  ◌++◌, map, if◌then◌else◌, ltb, ◌==◌, length, is_empty,
}

pub data PathSegment : Type 0 where
  literal : Text → PathSegment
  parameter : Text → Option Text → PathSegment

-- `dyn WitchcraftEndpoint`: its identity, and what the router asks of it.
pub record WitchcraftEndpoint : Type 0 where
  pub id : ℕ
  pub method : Text
  pub path : List PathSegment

-- What the router uses of the crate `regex`, on the source of a pattern: `set_first` is the first of
-- `RegexSet::matches`, and `captures pattern path name` is a group of the captures.
pub record Regexes : Type 0 where
  pub escape : Text → Text
  pub is_match : Text → Text → Bool
  pub captures : Text → Text → Text → Option Text
  pub set_first : List Text → Text → Option ℕ
  pub set_is_match : List Text → Text → Bool

-- "[^/]+?"
abbrev pub default_regex : Text
default_regex = b'[' ∷ b'^' ∷ b'/' ∷ b']' ∷ b'+' ∷ b'?' ∷ []

pub record Endpoint : Type 0 where
  pub endpoint : WitchcraftEndpoint
  pub regex : Text
  pub literal_chars : ℕ
  pub path_params : List Text
  pub custom_path_params : ℕ

abbrev pub unwrap_or : Option Text → Text → Text
unwrap_or none d = d
unwrap_or (some t) d = t

module _ (re : Regexes) where
  unfoldable pub segment_regex : PathSegment → Text
  segment_regex (literal s) = re.escape s
  segment_regex (parameter name regex) =
      (b'(' ∷ b'?' ∷ b'P' ∷ b'<' ∷ [])
      ++ (name ++ ((b'>' ∷ []) ++ (unwrap_or regex default_regex ++ (b')' ∷ []))))

  unfoldable pub segments_regex : List PathSegment → Text
  unfolding segment_regex
  segments_regex [] = b'$' ∷ []
  segments_regex (s ∷ rest) = b'/' ∷ (segment_regex s ++ segments_regex rest)

  unfoldable pub path_regex : List PathSegment → Text
  unfolding segments_regex
  path_regex path = b'^' ∷ segments_regex path

-- The counts of the second loop of `Endpoint::new`
unfoldable pub literal_chars : List PathSegment → ℕ
literal_chars [] = 0
literal_chars (literal s ∷ rest) = (length s + 1) + literal_chars rest
literal_chars (parameter _ _ ∷ rest) = literal_chars rest

unfoldable pub path_params : List PathSegment → List Text
path_params [] = []
path_params (literal _ ∷ rest) = path_params rest
path_params (parameter name _ ∷ rest) = name ∷ path_params rest

abbrev is_custom : Option Text → ℕ
is_custom regex = if eq_text (unwrap_or regex default_regex) default_regex then 0 else 1

unfoldable pub custom_path_params : List PathSegment → ℕ
custom_path_params [] = 0
custom_path_params (literal _ ∷ rest) = custom_path_params rest
custom_path_params (parameter _ regex ∷ rest) = is_custom regex + custom_path_params rest

-- `Endpoint::new`
unfoldable pub new_endpoint : Regexes → WitchcraftEndpoint → Endpoint
unfolding path_regex
new_endpoint re e = record {
  endpoint = e;
  regex = path_regex re e.path;
  literal_chars = literal_chars e.path;
  path_params = path_params e.path;
  custom_path_params = custom_path_params e.path;
}

-- `Ordering::then_with`, `Ordering::reverse`
abbrev then_with : Ordering → Ordering → Ordering
then_with Ordering.lt o = Ordering.lt
then_with Ordering.eq o = o
then_with Ordering.gt o = Ordering.gt

abbrev reverse : Ordering → Ordering
reverse Ordering.lt = Ordering.gt
reverse Ordering.eq = Ordering.eq
reverse Ordering.gt = Ordering.lt

unfoldable pub cmp_priority : Endpoint → Endpoint → Ordering
cmp_priority e f = reverse (
    then_with
      (then_with (compare e.literal_chars f.literal_chars)
        (compare (length e.path_params) (length f.path_params)))
      (compare e.custom_path_params f.custom_path_params))

abbrev is_le : Ordering → Bool
is_le Ordering.gt = false
is_le _ = true

unfoldable pub precedes : Endpoint → Endpoint → Bool
unfolding cmp_priority
precedes e f = is_le (cmp_priority e f)

-- The endpoints of one method
abbrev pub Routes : Type 0
Routes = List Endpoint

unfoldable pub new_routes : List Endpoint → Routes
new_routes = sort precedes

abbrev pub get_elem? {ℓ} : {A : Type ℓ} → List A → ℕ → Option A
get_elem? [] i = none
get_elem? (x ∷ xs) zero = some x
get_elem? (x ∷ xs) (suc i) = get_elem? xs i

abbrev pub lookup {ℓ} : {A : Type ℓ} → Text → List (Text × A) → Option A
lookup k [] = none
lookup k ((j, a) ∷ rest) = if eq_text j k then some a else lookup k rest

-- `into_group_map_by`: each endpoint is pushed to the group of its method.
unfoldable pub add_to_group : Endpoint → List (Text × List Endpoint) → List (Text × List Endpoint)
add_to_group e [] = (e.endpoint.method, e ∷ []) ∷ []
add_to_group e ((m, g) ∷ rest) =
    if eq_text m e.endpoint.method then (m, g ++ (e ∷ [])) ∷ rest else (m, g) ∷ add_to_group e rest

unfoldable pub group_all : List (Text × List Endpoint) → List Endpoint → List (Text × List Endpoint)
group_all groups [] = groups
group_all groups (e ∷ es) = group_all (add_to_group e groups) es

unfoldable pub into_group_map : List Endpoint → List (Text × List Endpoint)
unfolding group_all
into_group_map es = group_all [] es

-- `RoutingLayer::new`
unfoldable pub new_groups : List (Text × List Endpoint) → List (Text × Routes)
new_groups [] = []
new_groups ((m, g) ∷ rest) = (m, new_routes g) ∷ new_groups rest

unfoldable pub new_layer : Regexes → List WitchcraftEndpoint → List (Text × Routes)
unfolding new_groups into_group_map
new_layer re ws = new_groups (into_group_map (map (new_endpoint re) ws))

-- The documented behaviour of a `RegexSet`, over `is_match` of its patterns.
abbrev pub first_index : (Text → Bool) → List Text → Option ℕ
first_index p [] = none
first_index p (t ∷ ts) =
    let rest = first_index p ts in
    if p t then some 0 else elim rest [ none ↦ none | some i ↦ some (suc i) ]

pub record RegexLaws (re : Regexes) : Type 0 where
  pub set_first_lem :
      (ts : List Text) (path : Text)
      → re.set_first ts path ≡ first_index (λ t. re.is_match t path) ts
  pub set_is_match_lem :
      (ts : List Text) (path : Text) → re.set_is_match ts path ≡ any (λ t. re.is_match t path) ts
