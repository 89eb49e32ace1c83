-- ===== src/Sort.antt =====
-- The stable sorts of the standard library and of itertools: `sort_by`, `sort_by_key` and `sorted_by_key`.
pub mod Order
use witchcraft_rust_server.Common.{Bool, true, false, List, [], ◌∷◌, if◌then◌else◌}

module _ {A : Type 0} (le : A → A → Bool) where
  unfoldable pub insert : A → List A → List A
  insert x [] = x ∷ []
  insert x (y ∷ ys) = if le x y then x ∷ (y ∷ ys) else y ∷ insert x ys

  -- A stable sort: of two equal elements the first stays the first.
  unfoldable pub sort : List A → List A
  unfolding insert
  sort [] = []
  sort (x ∷ xs) = insert x (sort xs)
