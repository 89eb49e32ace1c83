-- ===== src/Split.antt =====
-- `str::split` at a byte, as unverified_jwt.rs and extended_path.rs use it, and the joining of parts.
pub mod Parts
use witchcraft_rust_server.Common.{ℕ, List, [], ◌∷◌, ◌++◌, if◌then◌else◌, ◌==◌}
use witchcraft_rust_server.Http.{Text}

abbrev pub cons_head : ℕ → List Text → List Text
cons_head b [] = (b ∷ []) ∷ []
cons_head b (part ∷ parts) = (b ∷ part) ∷ parts

-- `s.split(sep)`
unfoldable pub split : ℕ → Text → List Text
split sep [] = [] ∷ []
split sep (b ∷ bs) = let rest = split sep bs in if b == sep then [] ∷ rest else cons_head b rest

abbrev pub join : ℕ → List Text → Text
join sep [] = []
join sep (part ∷ []) = part
join sep (part ∷ next ∷ parts) = part ++ (sep ∷ join sep (next ∷ parts))
