-- ===== src/Assoc/Lookup.antt =====
-- Maps as lists of pairs: what is found at a key.
use witchcraft_rust_server.Common.{
  ◌≡◌, ◌≢◌, refl, sym, ap, ◌∙◌, true, false, some, List, [], ◌∷◌, if◌then◌else◌, Bool-cases, inl,
  inr, arith,
}
use witchcraft_rust_server.Http.{Text, eq_text, eq_text_refl, eq_text→eq}
use witchcraft_rust_server.Assoc.{lookup, insert}

pub eq_text-not : (s t : Text) → eq_text s t ≡ false → s ≢ t
eq_text-not s t h e =
    let k : true ≡ false = sym (eq_text_refl t) ∙ (ap (λ x. eq_text x t) (sym e) ∙ h) in
    ground arith

pub not-eq_text : (s t : Text) → s ≢ t → eq_text s t ≡ false
not-eq_text s t n = elim (Bool-cases (eq_text s t)) [
  | inl e ↦ absurd (n (eq_text→eq s t e))
  | inr e ↦ e
]

module _ {V : Type 0} where
  pub lookup-insert :
      (key : Text) (v : V) (m : List (Text × V)) → lookup key (insert key v m) ≡ some v
  lookup-insert key v [] = rw (eq_text_refl key) refl
  lookup-insert key v ((k, u) ∷ m) = elim (Bool-cases (eq_text k key)) [
    | inl e ↦ rw e (rw (eq_text_refl key) refl)
    | inr e ↦ rw e (rw e (lookup-insert key v m))
  ]

  pub lookup-insert_other :
      (key other : Text) (v : V) (m : List (Text × V))
      → eq_text key other ≡ false
      → lookup other (insert key v m) ≡ lookup other m
  lookup-insert_other key other v [] h = rw h refl
  lookup-insert_other key other v ((k, u) ∷ m) h = elim (Bool-cases (eq_text k key)) [
    | inl e ↦
        let k_other : eq_text k other ≡ false =
          ap (λ x. eq_text x other) (eq_text→eq k key e) ∙ h in
        rw (e, h, k_other) refl
    | inr e ↦ elim (Bool-cases (eq_text k other)) [
      | inl f ↦ rw (e, f) refl
      | inr f ↦ rw (e, f) (lookup-insert_other key other v m h)
    ]
  ]

  pub lookup-eq_text :
      (key t : Text) (m : List (Text × V)) → eq_text key t ≡ true → lookup t m ≡ lookup key m
  lookup-eq_text key t m e = ap (λ x. lookup x m) (sym (eq_text→eq key t e))

  -- The map after an insertion, as a function of the key
  pub lookup-insert_at :
      (key t : Text) (v : V) (m : List (Text × V))
      → lookup t (insert key v m) ≡ (if eq_text key t then some v else lookup t m)
  lookup-insert_at key t v m = elim (Bool-cases (eq_text key t)) [
    | inl e ↦
        lookup-eq_text key t (insert key v m) e
        ∙ lookup-insert key v m
        ∙ sym (ap (λ b. if b then some v else lookup t m) e)
    | inr e ↦ lookup-insert_other key t v m e ∙ sym (ap (λ b. if b then some v else lookup t m) e)
  ]
