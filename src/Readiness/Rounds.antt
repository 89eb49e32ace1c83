-- ===== src/Readiness/Rounds.antt =====
-- readiness.rs: the loop of `run_checks` ends.
use witchcraft_rust_server.Common.{
  ℕ, zero, suc, ◌+◌, ◌≤◌, ◌<◌, ◌≡◌, ◌≢◌, refl, sym, ap, ◌∙◌, subst, Bool, true, false, Option, none,
  some, List, [], ◌∷◌, ◌++◌, is_some, length, inl, inr, ◌⊎◌, Bool-cases, Mem, if◌then◌else◌, arith,
}
use witchcraft_rust_server.Http.{Text, eq_text, eq_text_refl}
use witchcraft_rust_server.Assoc.{lookup}
use witchcraft_rust_server.Readiness.{Metadata, World, visit_all, round, rounds, run_checks}
use witchcraft_rust_server.Readiness.Complete.{
  visit-old, visit-new, add_result, rounds-stop, rounds-again,
}

-- How many of these types have no result
abbrev pub missing : List Text → List (Text × Metadata) → ℕ
missing [] results = 0
missing (t ∷ ts) results = (if is_some (lookup t results) then 0 else 1) + missing ts results

lookup-append :
    (t k : Text) (m : Metadata) (results : List (Text × Metadata))
    → is_some (lookup t results) ≡ true
    → is_some (lookup t (results ++ ((k, m) ∷ []))) ≡ true
lookup-append t k m [] h = ground arith
lookup-append t k m ((k', m') ∷ results) h = elim (Bool-cases (eq_text k' t)) [
  | inl e ↦ rw e refl
  | inr e ↦ rw e (lookup-append t k m results (rw e at h))
]

lookup-added :
    (k : Text) (m : Metadata) (results : List (Text × Metadata))
    → is_some (lookup k (results ++ ((k, m) ∷ []))) ≡ true
lookup-added k m [] = rw (eq_text_refl k) refl
lookup-added k m ((k', m') ∷ results) = elim (Bool-cases (eq_text k' k)) [
  | inl e ↦ rw e refl
  | inr e ↦ rw e (lookup-added k m results)
]

missing-append :
    (known : List Text) (k : Text) (m : Metadata) (results : List (Text × Metadata))
    → missing known (results ++ ((k, m) ∷ [])) ≤ missing known results
missing-append [] k m results = omega arith
missing-append (t ∷ ts) k m results =
    let rest = missing-append ts k m results in
    elim (Bool-cases (is_some (lookup t results))) [
      | inl e ↦ rw (e, lookup-append t k m results e) (omega (arith, rest))
      | inr e ↦ ground arith
    ]

missing-added :
    (known : List Text) (k : Text) (m : Metadata) (results : List (Text × Metadata))
    → Mem k known
    → is_some (lookup k results) ≡ false
    → missing known (results ++ ((k, m) ∷ [])) < missing known results
missing-added [] k m results n h = elim n [ ]
missing-added (t ∷ ts) k m results (inl e) h =
    let here : is_some (lookup t results) ≡ false =
      ap (λ x. is_some (lookup x results)) (sym e) ∙ h in
    let there : is_some (lookup t (results ++ ((k, m) ∷ []))) ≡ true =
      ap (λ x. is_some (lookup x (results ++ ((k, m) ∷ [])))) (sym e) ∙ lookup-added k m results in
    let rest = missing-append ts k m results in rw (here, there) (omega arith)
missing-added (t ∷ ts) k m results (inr n) h =
    let rest = missing-added ts k m results n h in
    elim (Bool-cases (is_some (lookup t results))) [
      | inl e ↦ rw (e, lookup-append t k m results e) (omega (arith, rest))
      | inr e ↦ ground arith
    ]

missing-nil : (known : List Text) → missing known [] ≡ length known
missing-nil [] = refl
missing-nil (t ∷ ts) = omega (arith, missing-nil ts)

not-none : {A : Type 0} (a : A) → ◌≢◌ {A = Option A} (some a) none
not-none a h = ground arith

module _ {C : Type 0} (world : World C) (known : List Text) where
  -- All checks are of these types.
  abbrev pub AreKnown : List (Text × C) → Type 0
  AreKnown cs = (type_ : Text) (check : C) → Mem (type_, check) cs → Mem type_ known

  visit_all-missing :
      (cs : List (Text × C)) (w : world.W) (p : Bool) (results : List (Text × Metadata))
      → AreKnown cs
      → (missing known (visit_all world cs (w, p, results)).2 ≤ missing known results)
        × (((visit_all world cs (w, p, results)).1 ≡ p)
            ⊎ (missing known (visit_all world cs (w, p, results)).2 < missing known results))
  visit_all-missing [] w p results a = (omega arith, inl refl)
  visit_all-missing ((t, c) ∷ cs) w p results a =
      let a' : AreKnown cs = λ t' c' m. a t' c' (inr m) in
      elim (Bool-cases (is_some (lookup t results))) [
        | inl e ↦
            subst
              (λ s.
                (missing known (visit_all world cs s).2 ≤ missing known results)
                × (((visit_all world cs s).1 ≡ p)
                    ⊎ (missing known (visit_all world cs s).2 < missing known results)))
              (sym (visit-old world t c w p results e))
              (visit_all-missing cs (world.others w) p results a')
        | inr e ↦
            let fewer =
              missing-added known t (record { type_ = t; successful = (world.result c w).1 })
                results (a t c (inl refl)) e in
            let rest =
              (visit_all-missing cs (world.others (world.result c w).0) true
                (add_result world t c w results) a').0 in
            subst
              (λ s.
                (missing known (visit_all world cs s).2 ≤ missing known results)
                × (((visit_all world cs s).1 ≡ p)
                    ⊎ (missing known (visit_all world cs s).2 < missing known results)))
              (sym (visit-new world t c w p results e)) (omega arith, inr (omega arith))
      ]

  rounds-returns :
      (fuel : ℕ) (w : world.W) (results : List (Text × Metadata))
      → ((v : world.W) → AreKnown (world.checks v))
      → missing known results < fuel
      → rounds world fuel w results ≢ none
  rounds-returns zero w results a l = absurd (omega arith)
  rounds-returns (suc fuel) w results a l =
      let after = round world w results in
      elim (Bool-cases after.1) [
        | inr e ↦ λ n. not-none (after.0, results) (sym (rounds-stop world fuel w results e) ∙ n)
        | inl e ↦ elim (visit_all-missing (world.checks w) (world.others w) false results (a w)).1 [
          | inl f ↦ absurd (ground arith)
          | inr f ↦ λ n.
              rounds-returns fuel after.0 after.2 a (omega arith)
                (sym (rounds-again world fuel w results e) ∙ n)
        ]
      ]

  -- Where no more types than these are ever registered, also by the checks while they run, the loop
  -- ends after at most one round more than there are types.
  pub run_checks-returns :
      (fuel : ℕ) (w : world.W)
      → ((v : world.W) → AreKnown (world.checks v))
      → length known < fuel
      → run_checks world fuel w ≢ none
  unfolding run_checks
  run_checks-returns fuel w a l = rounds-returns fuel w [] a (omega (arith, missing-nil known))
