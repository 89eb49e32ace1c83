-- ===== src/Readiness/Complete.antt =====
-- readiness.rs: the results have each check that is registered when the loop ends.
use witchcraft_rust_server.Common.{
  ℕ, zero, suc, ◌≡◌, refl, sym, ap, ◌∙◌, subst, Bool, true, false, Option, some, List, [], ◌∷◌,
  ◌++◌, is_some, ◌⊎◌, inl, inr, Bool-cases, Mem, arith,
}
use witchcraft_rust_server.Http.{Text}
use witchcraft_rust_server.Assoc.{lookup}
use witchcraft_rust_server.Readiness.{Metadata, World, visit, visit_all, round, rounds, run_checks}

some-pair :
    {A B : Type 0} (a a' : A) (b b' : B)
    → ◌≡◌ {A = Option (A × B)} (some (a, b)) (some (a', b'))
    → (a ≡ a') × (b ≡ b')
some-pair a a' b b' h = (cc, cc)

module _ {C : Type 0} (world : World C) where
  abbrev Has : Text → List (Text × Metadata) → Type 0
  Has type_ results = is_some (lookup type_ results) ≡ true

  abbrev pub add_result : Text → C → world.W → List (Text × Metadata) → List (Text × Metadata)
  add_result t c w results =
      results ++ ((t, record { type_ = t; successful = (world.result c w).1 }) ∷ [])

  pub visit-old :
      (t : Text) (c : C) (w : world.W) (p : Bool) (results : List (Text × Metadata))
      → Has t results
      → visit world (t, c) (w, p, results) ≡ (world.others w, p, results)
  visit-old t c w p results h = rw h refl

  pub visit-new :
      (t : Text) (c : C) (w : world.W) (p : Bool) (results : List (Text × Metadata))
      → is_some (lookup t results) ≡ false
      → visit world (t, c) (w, p, results)
        ≡ (world.others (world.result c w).0, true, add_result t c w results)
  visit-new t c w p results h = rw h refl

  -- Progress is not taken back.
  visit_all-true :
      (cs : List (Text × C)) (w : world.W) (results : List (Text × Metadata))
      → (visit_all world cs (w, true, results)).1 ≡ true
  visit_all-true [] w results = refl
  visit_all-true ((t, c) ∷ cs) w results = elim (Bool-cases (is_some (lookup t results))) [
    | inl e ↦
        ap (λ s. (visit_all world cs s).1) (visit-old t c w true results e)
        ∙ visit_all-true cs (world.others w) results
    | inr e ↦
        ap (λ s. (visit_all world cs s).1) (visit-new t c w true results e)
        ∙ visit_all-true cs (world.others (world.result c w).0) (add_result t c w results)
  ]

  -- From the one world to the other, no check has run: only other threads have done something.
  pub data OnlyOthers (v : world.W) : world.W → Type 0 where
    no_time : OnlyOthers v v
    and_others : {w : world.W} → OnlyOthers v w → OnlyOthers v (world.others w)

  -- A round without progress finds a result for each check, and runs none.
  record Still (v : world.W) (cs : List (Text × C)) (results : List (Text × Metadata))
      (after : world.W × Bool × List (Text × Metadata)) : Type 0 where
    same : after.2 ≡ results
    only_others : OnlyOthers v after.0
    all_found : (type_ : Text) (check : C) → Mem (type_, check) cs → Has type_ results

  visit_all-Still :
      (v : world.W) (cs : List (Text × C)) (w : world.W) (results : List (Text × Metadata))
      → OnlyOthers v w
      → (visit_all world cs (w, false, results)).1 ≡ false
      → Still v cs results (visit_all world cs (w, false, results))
  visit_all-Still v [] w results o h = record {
    same = refl;
    only_others = o;
    all_found = λ t c m. elim m [ ];
  }
  visit_all-Still v ((t, c) ∷ cs) w results o h = elim (Bool-cases (is_some (lookup t results))) [
    | inl e ↦
        let first = ap (visit_all world cs) (visit-old t c w false results e) in
        let rest : Still v cs results (visit_all world cs (world.others w, false, results)) =
          visit_all-Still v cs (world.others w) results (and_others o)
            (sym (ap (λ s. s.1) first) ∙ h) in
        record {
          same = ap (λ s. s.2) first ∙ rest.same;
          only_others = subst (λ s. OnlyOthers v s.0) (sym first) rest.only_others;
          all_found = λ t' c' m. elim m [
            | inl p ↦ ap (λ x. is_some (lookup x.0 results)) p ∙ e
            | inr n ↦ rest.all_found t' c' n
          ];
        }
    | inr e ↦
        let first = ap (λ s. (visit_all world cs s).1) (visit-new t c w false results e) in
        let k : true ≡ false =
          sym (
            first
            ∙ visit_all-true cs (world.others (world.result c w).0) (add_result t c w results))
          ∙ h in
        absurd (ground arith)
  ]

  round-Still :
      (w : world.W) (results : List (Text × Metadata))
      → (round world w results).1 ≡ false
      → Still w (world.checks w) results (round world w results)
  round-Still w results h =
      visit_all-Still w (world.checks w) (world.others w) results (and_others no_time) h

  pub rounds-stop :
      (fuel : ℕ) (w : world.W) (before : List (Text × Metadata))
      → (round world w before).1 ≡ false
      → rounds world (suc fuel) w before ≡ some ((round world w before).0, before)
  unfolding rounds
  rounds-stop fuel w before e =
      rw e (ap (λ r. some ((round world w before).0, r)) (round-Still w before e).same)

  pub rounds-again :
      (fuel : ℕ) (w : world.W) (before : List (Text × Metadata))
      → (round world w before).1 ≡ true
      → rounds world (suc fuel) w before
        ≡ rounds world fuel (round world w before).0 (round world w before).2
  unfolding rounds
  rounds-again fuel w before e = rw e refl

  -- A check that is registered stays so: there is nothing to remove one.
  pub record Stays : Type 0 where
    pub while_running :
        (c : C) (w : world.W) (x : Text × C)
        → Mem x (world.checks w)
        → Mem x (world.checks (world.result c w).0)
    pub while_others :
        (w : world.W) (x : Text × C)
        → Mem x (world.checks w)
        → Mem x (world.checks (world.others w))

  visit_all-Stays :
      Stays
      → (cs : List (Text × C)) (w : world.W) (p : Bool) (results : List (Text × Metadata))
        (x : Text × C)
      → Mem x (world.checks w)
      → Mem x (world.checks (visit_all world cs (w, p, results)).0)
  visit_all-Stays stays [] w p results x m = m
  visit_all-Stays stays ((t, c) ∷ cs) w p results x m =
      elim (Bool-cases (is_some (lookup t results))) [
        | inl e ↦
            subst (λ s. Mem x (world.checks (visit_all world cs s).0))
              (sym (visit-old t c w p results e))
              (visit_all-Stays stays cs (world.others w) p results x (stays.while_others w x m))
        | inr e ↦
            subst (λ s. Mem x (world.checks (visit_all world cs s).0))
              (sym (visit-new t c w p results e))
              (visit_all-Stays stays cs (world.others (world.result c w).0) true
                (add_result t c w results) x
                (stays.while_others (world.result c w).0 x (stays.while_running c w x m)))
      ]

  rounds_complete :
      Stays
      → (fuel : ℕ) (w w' : world.W) (before results : List (Text × Metadata))
      → rounds world fuel w before ≡ some (w', results)
      → (v : world.W) × OnlyOthers v w'
        × ((x : Text × C) → Mem x (world.checks w) → Mem x (world.checks v))
        × ((x : Text × C) → Mem x (world.checks v) → Has x.0 results)
  unfolding rounds
  rounds_complete stays zero w w' before results h = absurd (ground arith)
  rounds_complete stays (suc fuel) w w' before results h =
      let after = round world w before in
      elim (Bool-cases after.1) [
        | inl e ↦
            let (v, o, grown, all) =
              rounds_complete stays fuel after.0 w' after.2 results
                (sym (rounds-again fuel w before e) ∙ h) in
            (
              v,
              o,
              (λ x m. grown x (
                  visit_all-Stays stays (world.checks w) (world.others w) false before x
                    (stays.while_others w x m))),
              all,
            )
        | inr e ↦
            let same =
              some-pair after.0 w' before results (sym (rounds-stop fuel w before e) ∙ h) in
            let still = round-Still w before e in
            (
              w,
              subst (OnlyOthers w) same.0 still.only_others,
              (λ x m. m),
              (λ x m. subst (Has x.0) same.1 (still.all_found x.0 x.1 m)),
            )
      ]

  -- When `run_checks` answers, whatever checks and other threads have registered in the meantime, there
  -- is a result for each check that was registered when it was called, and for each one that was
  -- registered at a later time since when no check has run: only a check that another thread has
  -- registered since then may be without one.
  pub run_checks_complete :
      Stays
      → (fuel : ℕ) (w w' : world.W) (results : List (Text × Metadata))
      → run_checks world fuel w ≡ some (w', results)
      → (v : world.W) × OnlyOthers v w'
        × ((type_ : Text) (check : C)
            → (Mem (type_, check) (world.checks w)) ⊎ (Mem (type_, check) (world.checks v))
            → is_some (lookup type_ results) ≡ true)
  unfolding run_checks
  run_checks_complete stays fuel w w' results h =
      let (v, o, grown, all) = rounds_complete stays fuel w w' [] results h in
      (
        v,
        o,
        λ t c m. elim m [
          | inl early ↦ all (t, c) (grown (t, c) early)
          | inr late ↦ all (t, c) late
        ],
      )
