-- ===== src/ServiceLog/Nearest.antt =====
-- logging/service.rs: the longest prefix of a key that has a value.
use witchcraft_rust_server.Common.{
  ℕ, suc, ◌≤◌, ◌≡◌, ◌⊎◌, inl, inr, refl, sym, ap, ◌∙◌, true, Option, none, some, List, [], ◌∷◌,
  ◌++◌, append-nil, append_assoc, length, Option-cases, and-left, and-right, arith,
}
use witchcraft_rust_server.Http.{Text, eq_text, eq_text_refl, eq_text→eq}
use witchcraft_rust_server.ServiceLog.{eq_path, nearest, or_else}

pub eq_path_refl : (k : List Text) → eq_path k k ≡ true
eq_path_refl [] = refl
eq_path_refl (a ∷ k) = rw (eq_text_refl a) (eq_path_refl k)

pub eq_path→eq : (k j : List Text) → eq_path k j ≡ true → k ≡ j
eq_path→eq [] [] h = refl
eq_path→eq [] (b ∷ j) h = absurd (ground arith)
eq_path→eq (a ∷ k) [] h = absurd (ground arith)
eq_path→eq (a ∷ k) (b ∷ j) h =
    let e = eq_text→eq a b (and-left (eq_text a b) (eq_path k j) h) in
    let f = eq_path→eq k j (and-right (eq_text a b) (eq_path k j) h) in λ i. e i ∷ f i

abbrev pub tail : List Text → List Text
tail [] = []
tail (k ∷ ks) = ks

abbrev pub head_or : Text → List Text → Text
head_or d [] = d
head_or d (k ∷ ks) = k

-- No prefix of the key is longer than `n` and has a value.
abbrev pub NoLonger : (List Text → Option ℕ) → List Text → List Text → ℕ → Type 0
NoLonger content before key n =
    (longer rest : List Text) (u : ℕ)
    → key ≡ longer ++ rest
    → content (before ++ longer) ≡ some u
    → length longer ≤ n

abbrev pub NoValue : (List Text → Option ℕ) → List Text → List Text → Type 0
NoValue content before key =
    (mid rest : List Text) → key ≡ mid ++ rest → content (before ++ mid) ≡ none

-- What `nearest` finds: the value of a prefix such that no longer one has a value, or else `best`.
abbrev pub Nearest : (List Text → Option ℕ) → List Text → List Text → Option ℕ → Option ℕ → Type 0
Nearest content before key best r =
    ((mid : List Text) × (rest : List Text) × (v : ℕ) × (key ≡ mid ++ rest)
      × (content (before ++ mid) ≡ some v)
      × (r ≡ some v)
      × NoLonger content before key (length mid))
    ⊎ ((r ≡ best) × NoValue content before key)

module _ (content : List Text → Option ℕ) where
  pub none-some : (key : List Text) (u : ℕ) → content key ≡ none → content key ≡ some u → ⊥
  none-some key u n s =
      let k : ◌≡◌ {A = Option ℕ} none (some u) = sym n ∙ s in absurd (ground arith)

  -- The prefixes of a longer key
  deeper :
      (before : List Text) (k : Text) (key longer rest : List Text)
      → k ∷ key ≡ longer ++ rest
      → (longer ≡ [])
        ⊎ ((more : List Text) × (length longer ≡ suc (length more))
            × (key ≡ more ++ rest)
            × (before ++ longer ≡ (before ++ (k ∷ [])) ++ more))
  deeper before k key [] rest e = inl refl
  deeper before k key (j ∷ more) rest e =
      let same : k ≡ j = ap (head_or k) e in
      inr (
        more,
        refl,
        ap tail e,
        ap (λ x. before ++ (x ∷ more)) (sym same) ∙ sym (append_assoc before (k ∷ []) more),
      )

  deeper-NoLonger :
      (before : List Text) (k : Text) (key : List Text) (n : ℕ)
      → NoLonger content (before ++ (k ∷ [])) key n
      → NoLonger content before (k ∷ key) (suc n)
  deeper-NoLonger before k key n h longer rest u e c = elim (deeper before k key longer rest e) [
    | inl z ↦ rw z (omega arith)
    | inr (more, l, q, b) ↦ omega (arith, l, h more rest u q (ap content (sym b) ∙ c))
  ]

  deeper-NoLonger_here :
      (before : List Text) (k : Text) (key : List Text)
      → NoValue content (before ++ (k ∷ [])) key
      → NoLonger content before (k ∷ key) 0
  deeper-NoLonger_here before k key h longer rest u e c = elim (deeper before k key longer rest e) [
    | inl z ↦ rw z (omega arith)
    | inr (more, l, q, b) ↦ absurd (none-some (before ++ longer) u (ap content b ∙ h more rest q) c)
  ]

  deeper-NoValue :
      (before : List Text) (k : Text) (key : List Text)
      → content before ≡ none
      → NoValue content (before ++ (k ∷ [])) key
      → NoValue content before (k ∷ key)
  deeper-NoValue before k key n h mid rest e = elim (deeper before k key mid rest e) [
    | inl z ↦ ap content (ap (λ x. before ++ x) z ∙ append-nil before) ∙ n
    | inr (more, l, q, b) ↦ ap content b ∙ h more rest q
  ]

  nil_prefix : (mid rest : List Text) → [] ≡ mid ++ rest → mid ≡ []
  nil_prefix [] rest e = refl
  nil_prefix (k ∷ mid) rest e =
      let z : 0 ≡ suc (length (mid ++ rest)) = ap (λ (l : List Text). length l) e in
      absurd (ground arith)

  pub nearest-Nearest :
      (before key : List Text) (best : Option ℕ)
      → Nearest content before key best (nearest content before key best)
  nearest-Nearest before [] best = elim (Option-cases (content before)) [
    | inl n ↦ inr (
      rw n refl,
      λ mid rest e.
          ap content (ap (λ x. before ++ x) (nil_prefix mid rest e) ∙ append-nil before) ∙ n,
    )
    | inr (v, e) ↦ inl (
      [],
      [],
      v,
      refl,
      ap content (append-nil before) ∙ e,
      rw e refl,
      λ longer rest u q c.
          omega (arith, ap (λ (l : List Text). length l) (nil_prefix longer rest q)),
    )
  ]
  nearest-Nearest before (k ∷ key) best =
      elim (nearest-Nearest (before ++ (k ∷ [])) key (or_else (content before) best)) [
        | inl (mid, rest, v, q, c, r, m) ↦ inl (
          k ∷ mid,
          rest,
          v,
          ap (λ x. k ∷ x) q,
          ap content (sym (append_assoc before (k ∷ []) mid)) ∙ c,
          r,
          deeper-NoLonger before k key (length mid) m,
        )
        | inr (r, m) ↦ elim (Option-cases (content before)) [
          | inl n ↦ inr (r ∙ ap (λ x. or_else x best) n, deeper-NoValue before k key n m)
          | inr (v, e) ↦ inl (
            [],
            k ∷ key,
            v,
            refl,
            ap content (append-nil before) ∙ e,
            r ∙ ap (λ x. or_else x best) e,
            deeper-NoLonger_here before k key m,
          )
        ]
      ]
