-- ===== src/UnverifiedJwt/Tests.antt =====
-- Runs of the reading of tokens, where decoding copies and a token is its payload.
use witchcraft_rust_server.Common.{◌≡◌, refl, none, some, [], ◌∷◌}
use witchcraft_rust_server.Http.{Text}
use witchcraft_rust_server.UnverifiedJwt.{Readers, parse, call}

abbrev copies : Readers Text
copies = record { decode = some; from_slice = some; to_str = some }

-- "a.b.c"
abbrev three : Text
three = 97 ∷ 46 ∷ 98 ∷ 46 ∷ 99 ∷ []

reads_middle : call copies (some three) ≡ some (98 ∷ [])
unfolding call
reads_middle = refl

two_parts : parse copies (97 ∷ 46 ∷ 98 ∷ []) ≡ none
unfolding parse
two_parts = refl

four_parts : parse copies (97 ∷ 46 ∷ 98 ∷ 46 ∷ 46 ∷ []) ≡ none
unfolding parse
four_parts = refl
