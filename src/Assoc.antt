-- ===== src/Assoc.antt =====
-- The maps of the standard library whose keys are text, as lists of pairs in the order in which their
-- keys were inserted first.
pub mod Lookup
pub mod Keys
use witchcraft_rust_server.Common.{
  Bool, true, false, Option, none, some, List, [], ◌∷◌, if◌then◌else◌,
}
use witchcraft_rust_server.Http.{Text, eq_text}

abbrev pub lookup {ℓ} : {V : Type ℓ} → Text → List (Text × V) → Option V
lookup key [] = none
lookup key ((k, v) ∷ rest) = if eq_text k key then some v else lookup key rest

-- A value in the place of the one at its key, or at the end
abbrev pub insert {ℓ} : {V : Type ℓ} → Text → V → List (Text × V) → List (Text × V)
insert key value [] = (key, value) ∷ []
insert key value ((k, v) ∷ rest) =
    if eq_text k key then (key, value) ∷ rest else (k, v) ∷ insert key value rest
