-- ===== src/RequestId/Tests.antt =====
-- Runs of the text of request ids.
use witchcraft_rust_server.Common.{◌≡◌, refl, [], ◌∷◌}
use witchcraft_rust_server.Http.{Text}
use witchcraft_rust_server.RequestId.{fmt}

abbrev id : Text
id = 0 ∷ 1 ∷ 10 ∷ 16 ∷ 171 ∷ 205 ∷ 239 ∷ 255 ∷ []

id_text : fmt (171 ∷ 5 ∷ []) ≡ 97 ∷ 98 ∷ 48 ∷ 53 ∷ []
unfolding fmt
id_text = refl
