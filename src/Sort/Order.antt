-- ===== src/Sort/Order.antt =====
-- Sorting keeps the elements, and puts them in order.
use witchcraft_rust_server.Common.{
  ◌≡◌, subst, ◌⊎◌, inl, inr, sym, ap, Bool, true, false, List, [], ◌∷◌, Bool-cases, Mem,
  if◌then◌else◌, ◌∙◌,
}
use witchcraft_rust_server.Sort.{insert, sort}

module _ {A : Type 0} (le : A → A → Bool) where
  Mem-insert : (a x : A) (xs : List A) → Mem a (insert le x xs) → (a ≡ x) ⊎ Mem a xs
  unfolding insert
  Mem-insert a x [] m = m
  Mem-insert a x (y ∷ ys) m = elim (Bool-cases (le x y)) [
    | inl t ↦ subst (λ b. Mem a (if b then x ∷ (y ∷ ys) else y ∷ insert le x ys)) t m
    | inr t ↦ elim (subst (λ b. Mem a (if b then x ∷ (y ∷ ys) else y ∷ insert le x ys)) t m) [
      | inl e ↦ inr (inl e)
      | inr k ↦ elim (Mem-insert a x ys k) [ inl e ↦ inl e | inr k' ↦ inr (inr k') ]
    ]
  ]

  insert-Mem : (a x : A) (xs : List A) → (a ≡ x) ⊎ Mem a xs → Mem a (insert le x xs)
  unfolding insert
  insert-Mem a x [] m = m
  insert-Mem a x (y ∷ ys) m = elim (Bool-cases (le x y)) [
    | inl t ↦ subst (λ b. Mem a (if b then x ∷ (y ∷ ys) else y ∷ insert le x ys)) (sym t) m
    | inr t ↦
        subst (λ b. Mem a (if b then x ∷ (y ∷ ys) else y ∷ insert le x ys)) (sym t)
          (elim m [
            | inl e ↦ inr (insert-Mem a x ys (inl e))
            | inr k ↦ elim k [ inl e ↦ inl e | inr k' ↦ inr (insert-Mem a x ys (inr k')) ]
          ])
  ]

  pub sort-Mem : (a : A) (xs : List A) → Mem a xs → Mem a (sort le xs)
  unfolding sort
  sort-Mem a [] m = m
  sort-Mem a (x ∷ xs) (inl e) = insert-Mem a x (sort le xs) (inl e)
  sort-Mem a (x ∷ xs) (inr m) = insert-Mem a x (sort le xs) (inr (sort-Mem a xs m))

  pub Mem-sort : (a : A) (xs : List A) → Mem a (sort le xs) → Mem a xs
  unfolding sort
  Mem-sort a [] m = m
  Mem-sort a (x ∷ xs) m = elim (Mem-insert a x (sort le xs) m) [
    | inl e ↦ inl e
    | inr k ↦ inr (Mem-sort a xs k)
  ]

  -- Each element comes before all the later ones.
  abbrev pub IsSorted : List A → Type 0
  IsSorted [] = Unit
  IsSorted (x ∷ xs) = ((y : A) → Mem y xs → le x y ≡ true) × IsSorted xs

  module _ (total : (a b : A) → le a b ≡ false → le b a ≡ true)
      (trans : (a b c : A) → le a b ≡ true → le b c ≡ true → le a c ≡ true) where
    insert-IsSorted : (x : A) (xs : List A) → IsSorted xs → IsSorted (insert le x xs)
    unfolding insert
    insert-IsSorted x [] s = ((λ y m. elim m [ ]), tt)
    insert-IsSorted x (y ∷ ys) (h, s) = elim (Bool-cases (le x y)) [
      | inl t ↦
          subst (λ b. IsSorted (if b then x ∷ (y ∷ ys) else y ∷ insert le x ys)) (sym t)
            ((λ z m. elim m [ inl e ↦ ap (le x) e ∙ t | inr k ↦ trans x y z t (h z k) ]), (h, s))
      | inr t ↦
          subst (λ b. IsSorted (if b then x ∷ (y ∷ ys) else y ∷ insert le x ys)) (sym t)
            (
              (λ z m. elim (Mem-insert z x ys m) [
                | inl e ↦ ap (le y) e ∙ total x y t
                | inr k ↦ h z k
              ]),
              insert-IsSorted x ys s,
            )
    ]

    pub sort-IsSorted : (xs : List A) → IsSorted (sort le xs)
    unfolding sort
    sort-IsSorted [] = tt
    sort-IsSorted (x ∷ xs) = insert-IsSorted x (sort le xs) (sort-IsSorted xs)
