-- ===== src/Split/Parts.antt =====
-- The parts of a text between separators.
use witchcraft_rust_server.Common.{
  ℕ, false, ◌≡◌, true, refl, sym, ap, ◌∙◌, append-nil, append_assoc, List, [], ◌∷◌, ◌++◌, ◌==◌,
  Bool-cases, inl, inr, All, arith,
}
use witchcraft_rust_server.Http.{Text}
use witchcraft_rust_server.Split.{cons_head, split, join}

-- A text without the separator
abbrev pub Without : ℕ → Text → Type 0
Without sep [] = Unit
Without sep (b ∷ bs) = ((b == sep) ≡ false) × Without sep bs

join-cons_head :
    (sep b : ℕ) (part : Text) (parts : List Text)
    → join sep (cons_head b (part ∷ parts)) ≡ b ∷ join sep (part ∷ parts)
join-cons_head sep b part [] = refl
join-cons_head sep b part (next ∷ parts) = refl

-- What `split` gives is not empty, has no dots, and gives the text again.
pub split-cases :
    (sep : ℕ) (s : Text)
    → (part : Text) × (parts : List Text) × (split sep s ≡ part ∷ parts)
      × All (Without sep) (part ∷ parts)
      × (join sep (part ∷ parts) ≡ s)
unfolding split
split-cases sep [] = ([], [], refl, (record {}, record {}), refl)
split-cases sep (b ∷ bs) =
    let (part, parts, e, (n, a), j) = split-cases sep bs in
    elim (Bool-cases (b == sep)) [
      | inl h ↦
          let is_dot : b ≡ sep = ground arith in
          ([], part ∷ parts, rw h (ap (λ x. [] ∷ x) e), (record {}, (n, a)), rw (j, is_dot) refl)
      | inr h ↦ (
        b ∷ part,
        parts,
        rw h (ap (cons_head b) e),
        ((h, n), a),
        join-cons_head sep b part parts ∙ ap (λ x. b ∷ x) j,
      )
    ]

pub split-Without : (sep : ℕ) (t : Text) → Without sep t → split sep t ≡ t ∷ []
unfolding split
split-Without sep [] n = refl
split-Without sep (b ∷ bs) (h, n) = rw h (ap (cons_head b) (split-Without sep bs n))

equal_self : (n : ℕ) → (n == n) ≡ true
equal_self n = ground arith

pub split-append :
    (sep : ℕ) (t s : Text) → Without sep t → split sep (t ++ (sep ∷ s)) ≡ t ∷ split sep s
unfolding split
split-append sep [] s n = rw (equal_self sep) refl
split-append sep (b ∷ bs) s (h, n) = rw h (ap (cons_head b) (split-append sep bs s n))

-- The path of a request that has these segments
abbrev pub slashed : ℕ → List Text → Text
slashed sep [] = []
slashed sep (part ∷ parts) = sep ∷ (part ++ slashed sep parts)

pub slashed-join :
    (sep : ℕ) (part : Text) (parts : List Text)
    → slashed sep (part ∷ parts) ≡ sep ∷ join sep (part ∷ parts)
slashed-join sep part [] = ap (λ x. sep ∷ x) (append-nil part)
slashed-join sep part (next ∷ parts) = ap (λ x. sep ∷ (part ++ x)) (slashed-join sep next parts)

pub slashed-append :
    (sep : ℕ) (xs ys : List Text) → slashed sep (xs ++ ys) ≡ slashed sep xs ++ slashed sep ys
slashed-append sep [] ys = refl
slashed-append sep (x ∷ xs) ys =
    ap (λ t. sep ∷ t)
      (ap (λ t. x ++ t) (slashed-append sep xs ys)
        ∙ sym (append_assoc x (slashed sep xs) (slashed sep ys)))
