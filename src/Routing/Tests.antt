-- ===== src/Routing/Tests.antt =====
-- Runs of the router on concrete requests, with a regex engine that knows literal patterns only.
use witchcraft_rust_server.Common.{
  ◌≡◌, ◌↔◌, inl, inr, refl, Bool, true, none, some, List, [], ◌∷◌, ◌++◌, Mem,
}
use witchcraft_rust_server.Http.{Text, eq_text, any, leb_text}
use witchcraft_rust_server.Sort.{sort}
use witchcraft_rust_server.Routing.Serving.{
  Request, resolved, method_not_allowed, options, unresolved, choose, call, forwarded,
  options_method, forward_params,
}
use witchcraft_rust_server.Routing.{
  Endpoint, Regexes, RegexLaws, WitchcraftEndpoint, first_index, literal, new_endpoint, new_layer,
  precedes, new_routes, add_to_group, path_params,
}
use witchcraft_rust_server.Routing.Best.{matches}
use witchcraft_rust_server.Routing.Outcomes.{endpoints, choose-best}
use witchcraft_rust_server.Routing.Refusals.{method_not_allowed-exact}

abbrev literal_matches : Text → Text → Bool
literal_matches pattern path = eq_text pattern ((b'^' ∷ path) ++ (b'$' ∷ []))

abbrev literal_regexes : Regexes
literal_regexes = record {
  escape = λ t. t;
  is_match = literal_matches;
  captures = λ p t n. none;
  set_first = λ ts path. first_index (λ t. literal_matches t path) ts;
  set_is_match = λ ts path. any (λ t. literal_matches t path) ts;
}

literal_laws : RegexLaws literal_regexes
literal_laws = record { set_first_lem = λ ts path. refl; set_is_match_lem = λ ts path. refl }

abbrev get : Text
get = b'G' ∷ b'E' ∷ b'T' ∷ []

abbrev put : Text
put = b'P' ∷ b'U' ∷ b'T' ∷ []

abbrev a_path : Text
a_path = b'/' ∷ b'a' ∷ []

abbrev b_path : Text
b_path = b'/' ∷ b'b' ∷ []

abbrev get_a : WitchcraftEndpoint
get_a = record { id = 0; method = get; path = literal (b'a' ∷ []) ∷ [] }

abbrev put_a : WitchcraftEndpoint
put_a = record { id = 1; method = put; path = literal (b'a' ∷ []) ∷ [] }

abbrev both : List WitchcraftEndpoint
both = get_a ∷ put_a ∷ []

abbrev request : Text → Text → Request
request method path = record { method = method; uri = path; path = path }

call-get :
    call literal_regexes (new_layer literal_regexes both) (request get a_path)
    ≡ forwarded (resolved get_a) none
unfolding call new_layer new_endpoint forward_params add_to_group new_routes sort leb_text
    path_params
call-get = refl

call-post :
    call literal_regexes (new_layer literal_regexes both) (request (b'X' ∷ []) a_path)
    ≡ forwarded (method_not_allowed (get ∷ put ∷ [])) none
unfolding call new_layer new_endpoint add_to_group new_routes sort leb_text path_params
call-post = refl

matches-put : matches literal_regexes a_path (new_endpoint literal_regexes put_a) ≡ true
unfolding new_endpoint
matches-put = refl

choose-best_example :
    (e : Endpoint) × (choose literal_regexes (new_layer literal_regexes both) (request put a_path)
      ≡ (resolved e.endpoint, some e))
    × Mem e (endpoints literal_regexes both)
    × (e.endpoint.method ≡ put)
    × (matches literal_regexes a_path e ≡ true)
    × (precedes e (new_endpoint literal_regexes put_a) ≡ true)
unfolding new_endpoint
choose-best_example =
    choose-best literal_regexes literal_laws both (request put a_path)
      (new_endpoint literal_regexes put_a) refl (inr (inl refl)) refl matches-put

choose-unresolved :
    choose literal_regexes (new_layer literal_regexes both) (request get b_path)
    ≡ (unresolved, none)
unfolding choose new_layer new_endpoint add_to_group new_routes sort leb_text path_params
choose-unresolved = refl

choose-post :
    choose literal_regexes (new_layer literal_regexes both) (request (b'X' ∷ []) a_path)
    ≡ (method_not_allowed (get ∷ put ∷ []), none)
unfolding choose new_layer new_endpoint add_to_group new_routes sort leb_text path_params
choose-post = refl

method_not_allowed-exact_example :
    ((m : Text)
      → Mem m (get ∷ put ∷ []) ↔ (
          (f : Endpoint) × Mem f (endpoints literal_regexes both)
          × (f.endpoint.method ≡ m)
          × (matches literal_regexes a_path f ≡ true)))
    × ¬ Mem (b'X' ∷ []) (get ∷ put ∷ [])
method_not_allowed-exact_example =
    method_not_allowed-exact literal_regexes literal_laws both (request (b'X' ∷ []) a_path)
      (get ∷ put ∷ []) choose-post

choose-options :
    choose literal_regexes (new_layer literal_regexes both) (request options_method a_path)
    ≡ (options (get ∷ put ∷ []), none)
unfolding choose new_layer new_endpoint add_to_group new_routes sort leb_text path_params
choose-options = refl
