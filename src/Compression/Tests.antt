-- ===== src/Compression/Tests.antt =====
-- Runs of the compression of rolling_file.rs, where the encoder copies and ends with one byte more.
use witchcraft_rust_server.Common.{◌≡◌, refl, none, some, [], ◌∷◌, ◌++◌, map}
use witchcraft_rust_server.Http.{Text}
use witchcraft_rust_server.Compression.{
  Files, Encoder, works, open_source, ended, compress_all, compress,
}

abbrev copier : Encoder
copier = record { E = Text; new = []; write = λ e t. (e ++ t, t); shutdown = λ e. 0 ∷ [] }

abbrev init : Text → Text
init [] = []
init (b ∷ []) = []
init (b ∷ c ∷ bs) = b ∷ init (c ∷ bs)

abbrev log : Text
log = 4 ∷ 5 ∷ 6 ∷ []

abbrev empty_dir : Files
empty_dir = record { raw = none; tmp = none; gz = none }

-- The process dies in the middle of the copy.
abbrev torn : Files
torn = record { raw = some log; tmp = some (4 ∷ 5 ∷ []); gz = none }

all_works :
    compress_all copier (map works (0 ∷ 0 ∷ 1 ∷ 0 ∷ 0 ∷ 0 ∷ 0 ∷ [])) open_source torn
    ≡ (ended, record { raw = none; tmp = none; gz = some (4 ∷ 5 ∷ 6 ∷ 0 ∷ []) })
unfolding compress_all compress
all_works = refl
