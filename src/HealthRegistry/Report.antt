-- ===== src/HealthRegistry/Report.antt =====
-- registry.rs: what the report says of each type.
use witchcraft_rust_server.Common.{
  ℕ, ◌+◌, ◌<◌, ◌≡◌, ◌↔◌, refl, sym, ap, ◌∙◌, subst, Bool, true, false, Option, none, some, List, [],
  ◌∷◌, Bool-cases, inl, inr, Mem,
}
use witchcraft_rust_server.Http.{Text, eq_text, eq_text→eq}
use witchcraft_rust_server.Assoc.{lookup}
use witchcraft_rust_server.Assoc.Lookup.{lookup-insert, lookup-insert_other}
use witchcraft_rust_server.Assoc.Keys.{Distinct, insert-Distinct, lookup-Mem, Mem-lookup}
use witchcraft_rust_server.HealthRegistry.{
  HealthCheckResult, InstalledCheck, Registry, Row, make_check, register, register_if_absent, store,
  run_check, entry_or_insert, store_at, is_stale, stale_checks, row, rows, staleness_row,
  staleness_type, run_checks, warning, healthy,
}
use witchcraft_rust_server.HealthRegistry.Expected.{
  Last, expected, is_stale-shown, shown, shown-last_of,
}
use witchcraft_rust_server.HealthRegistry.History.{
  Event, registers, registers_if_absent, runs, apply, registry, lookup-registry,
}

module _ {P : Type 0} where
  -- The row of a type with this result
  abbrev pub row_with : Text → Option (Last P) → Option (Row P)
  row_with t none = none
  row_with t (some l) =
      some (record { type_ = t; state = l.state; params = l.params; stale_health_checks = [] })

  -- The row on staleness
  abbrev pub Warns : Row P → Type 0
  Warns r =
      (r.type_ ≡ staleness_type)
      × (r.params ≡ none)
      × ((t : Text) → Mem t r.stale_health_checks → r.state ≡ warning)
      × (((t : Text) → ¬ Mem t r.stale_health_checks) → r.state ≡ healthy)

  staleness_row-Warns : (stale : List Text) → Warns (staleness_row stale)
  unfolding staleness_row
  staleness_row-Warns [] = (refl, refl, (λ t m. elim m [ ]), (λ h. refl))
  staleness_row-Warns (s ∷ stale) = (refl, refl, (λ t m. refl), (λ h. absurd (h s (inl refl))))

module _ {C P : Type 0} where
  lookup-rows :
      (t : Text) (checks : Registry C P)
      → lookup t (rows checks) ≡ row_with t (shown (lookup t checks))
  lookup-rows t [] = refl
  lookup-rows t ((k, i) ∷ rest) = elim (Bool-cases (eq_text k t)) [
    | inl e ↦ rw e (ap (λ x. some (row x i)) (eq_text→eq k t e))
    | inr e ↦ rw e (lookup-rows t rest)
  ]

  stale_checks-Mem :
      (now : ℕ) (t : Text) (i : InstalledCheck C P) (checks : Registry C P)
      → Mem (t, i) checks
      → is_stale now i ≡ true
      → Mem t (stale_checks now checks)
  unfolding stale_checks
  stale_checks-Mem now t i [] m h = elim m [ ]
  stale_checks-Mem now t i ((k, j) ∷ rest) (inl e) h =
      let stale : is_stale now j ≡ true = ap (λ x. is_stale now x.1) (sym e) ∙ h in
      rw stale (inl (ap (λ x. x.0) e))
  stale_checks-Mem now t i ((k, j) ∷ rest) (inr m) h =
      let more = stale_checks-Mem now t i rest m h in
      elim (Bool-cases (is_stale now j)) [ inl e ↦ rw e (inr more) | inr e ↦ rw e more ]

  Mem-stale_checks :
      (now : ℕ) (t : Text) (checks : Registry C P)
      → Mem t (stale_checks now checks)
      → (i : InstalledCheck C P) × Mem (t, i) checks × (is_stale now i ≡ true)
  unfolding stale_checks
  Mem-stale_checks now t [] m = elim m [ ]
  Mem-stale_checks now t ((k, j) ∷ rest) m = elim (Bool-cases (is_stale now j)) [
    | inl e ↦ elim (rw e at m) [
      | inl p ↦ (j, inl (λ i. (p i, j)), e)
      | inr n ↦ let (i, n', h) = Mem-stale_checks now t rest n in (i, inr n', h)
    ]
    | inr e ↦ let (i, n', h) = Mem-stale_checks now t rest (rw e at m) in (i, inr n', h)
  ]

module _ {C P : Type 0} (is_match : Text → Bool) (type_of : C → Text) where
  entry_or_insert-Distinct :
      (now : ℕ) (c : C) (checks : Registry C P) (found : Option (InstalledCheck C P))
      → Distinct checks
      → Distinct (entry_or_insert is_match type_of now c checks found).0
  entry_or_insert-Distinct now c checks none d =
      insert-Distinct (type_of c) (make_check is_match type_of now c) checks d
  entry_or_insert-Distinct now c checks (some i) d = d

  store_at-Distinct :
      (now : ℕ) (t : Text) (r : Option (HealthCheckResult P)) (found : Option (InstalledCheck C P))
      (checks : Registry C P)
      → Distinct checks
      → Distinct (store_at is_match type_of now t r found checks)
  store_at-Distinct now t r none checks d = d
  store_at-Distinct now t r (some i) checks d =
      insert-Distinct t (store is_match type_of now r i) checks d

  apply-Distinct :
      (now : ℕ) (e : Event C P) (checks : Registry C P)
      → Distinct checks
      → Distinct (apply is_match type_of now e checks)
  unfolding apply register register_if_absent run_check
  apply-Distinct now (registers c) checks d = elim (Bool-cases (is_match (type_of c))) [
    | inl e ↦ rw e (insert-Distinct (type_of c) (make_check is_match type_of now c) checks d)
    | inr e ↦ rw e d
  ]
  apply-Distinct now (registers_if_absent c) checks d = elim (Bool-cases (is_match (type_of c))) [
    | inl e ↦ rw e (entry_or_insert-Distinct now c checks (lookup (type_of c) checks) d)
    | inr e ↦ rw e d
  ]
  apply-Distinct now (runs t r) checks d = store_at-Distinct now t r (lookup t checks) checks d

  registry-Distinct : (events : List (ℕ × Event C P)) → Distinct (registry is_match type_of events)
  unfolding registry
  registry-Distinct [] = record {}
  registry-Distinct ((now, e) ∷ before) =
      apply-Distinct now e (registry is_match type_of before) (registry-Distinct before)

  Mem-stale_checks-shown :
      (now : ℕ) (t : Text) (checks : Registry C P)
      → Distinct checks
      → Mem t (stale_checks now checks)
        ↔ ((l : Last P) × (shown (lookup t checks) ≡ some l) × (l.time + 300 < now))
  Mem-stale_checks-shown now t checks d = (
    (λ m.
        let (i, n, h) = Mem-stale_checks now t checks m in
        (is_stale-shown now (lookup t checks)).0 (i, Mem-lookup t i checks d n, h)),
    (λ late.
        let (i, e, h) = (is_stale-shown now (lookup t checks)).1 late in
        stale_checks-Mem now t i checks (lookup-Mem t i checks e) h),
  )

  -- The report after any history. The row of a type, but for the type of the row on staleness, shows
  -- the state and the parameters of the result that counts, and there is none where the type is not
  -- registered: a registration counts as repairing, a run as its result, or as an error where the check
  -- panicked. The row on staleness has exactly the types whose result was stored more than 300 seconds
  -- ago, warns where there is one, and is healthy where there is none.
  pub run_checks-reports :
      (events : List (ℕ × Event C P)) (now : ℕ)
      → ((t : Text)
          → eq_text staleness_type t ≡ false
          → lookup t (run_checks now (registry is_match type_of events))
            ≡ row_with t (expected is_match type_of t events))
        × ((r : Row P) × (lookup staleness_type (run_checks now (registry is_match type_of events))
              ≡ some r)
            × Warns r
            × ((t : Text)
                → Mem t r.stale_health_checks ↔ (
                    (l : Last P) × (expected is_match type_of t events ≡ some l)
                    × (l.time + 300 < now))))
  unfolding run_checks staleness_row
  run_checks-reports events now =
      let checks = registry is_match type_of events in
      let stale = stale_checks now checks in
      let shows : (t : Text) → shown (lookup t checks) ≡ expected is_match type_of t events = λ t.
        ap shown (lookup-registry is_match type_of events t)
        ∙ shown-last_of is_match type_of t events in
      (
        (λ t h.
            lookup-insert_other staleness_type t (staleness_row stale) (rows checks) h
            ∙ lookup-rows t checks
            ∙ ap (row_with t) (shows t)),
        (
          staleness_row stale,
          lookup-insert staleness_type (staleness_row stale) (rows checks),
          staleness_row-Warns stale,
          λ t.
              subst (λ o. Mem t stale ↔ ((l : Last P) × (o ≡ some l) × (l.time + 300 < now)))
                (shows t) (Mem-stale_checks-shown now t checks (registry-Distinct events)),
        ),
      )
