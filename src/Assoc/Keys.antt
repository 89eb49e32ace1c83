-- ===== src/Assoc/Keys.antt =====
-- Maps as lists of pairs: no key stands twice.
use witchcraft_rust_server.Common.{
  ◌≡◌, refl, sym, ap, ◌∙◌, true, Option, none, some, List, [], ◌∷◌, Bool-cases, inl, inr, Mem,
  arith,
}
use witchcraft_rust_server.Http.{Text, eq_text, eq_text_refl, eq_text→eq}
use witchcraft_rust_server.Assoc.{lookup, insert}
use witchcraft_rust_server.Assoc.Lookup.{
  eq_text-not, not-eq_text, lookup-insert_other, lookup-eq_text,
}

module _ {V : Type 0} where
  abbrev pub Distinct : List (Text × V) → Type 0
  Distinct [] = Unit
  Distinct ((k, v) ∷ m) = (lookup k m ≡ none) × Distinct m

  pub insert-Distinct :
      (key : Text) (v : V) (m : List (Text × V)) → Distinct m → Distinct (insert key v m)
  insert-Distinct key v [] d = (refl, record {})
  insert-Distinct key v ((k, u) ∷ m) (n, d) = elim (Bool-cases (eq_text k key)) [
    | inl e ↦ rw e (lookup-eq_text k key m e ∙ n, d)
    | inr e ↦ rw e (
      lookup-insert_other key k v m (not-eq_text key k (λ p. eq_text-not k key e (sym p))) ∙ n,
      insert-Distinct key v m d,
    )
  ]

  pub lookup-Mem : (t : Text) (v : V) (m : List (Text × V)) → lookup t m ≡ some v → Mem (t, v) m
  lookup-Mem t v [] h = absurd (ground arith)
  lookup-Mem t v ((k, u) ∷ m) h = elim (Bool-cases (eq_text k t)) [
    | inl e ↦
        let same : ◌≡◌ {A = Option V} (some u) (some v) = rw e at h in
        let u_v : u ≡ v = cc in inl (λ i. (sym (eq_text→eq k t e) i, sym u_v i))
    | inr e ↦ inr (lookup-Mem t v m (rw e at h))
  ]

  pub Mem-lookup :
      (t : Text) (v : V) (m : List (Text × V)) → Distinct m → Mem (t, v) m → lookup t m ≡ some v
  Mem-lookup t v [] d n = elim n [ ]
  Mem-lookup t v ((k, u) ∷ m) (n, d) (inl e) =
      let here : eq_text k t ≡ true = ap (λ x. eq_text k x.0) e ∙ eq_text_refl k in
      rw here (ap some (sym (ap (λ x. x.1) e)))
  Mem-lookup t v ((k, u) ∷ m) (n, d) (inr i) =
      let found = Mem-lookup t v m d i in
      elim (Bool-cases (eq_text k t)) [
        | inl e ↦
            let lost : lookup t m ≡ none = lookup-eq_text k t m e ∙ n in
            let absurd_eq : ◌≡◌ {A = Option V} none (some v) = sym lost ∙ found in
            absurd (ground arith)
        | inr e ↦ rw e found
      ]
