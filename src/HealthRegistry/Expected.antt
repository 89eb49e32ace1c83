-- ===== src/HealthRegistry/Expected.antt =====
-- registry.rs: what the report is to say of each type, by what happened to the registry alone.
use witchcraft_rust_server.Common.{
  ℕ, ◌+◌, ◌<◌, ◌≡◌, ◌↔◌, refl, ap, ◌∙◌, Bool, true, Option, none, some, List, [], ◌∷◌, Bool-cases,
  if◌then◌else◌, inl, inr, arith,
}
use witchcraft_rust_server.Http.{Text, eq_text}
use witchcraft_rust_server.HealthRegistry.{
  HealthCheckResult, HealthState, InstalledCheck, error, is_stale, repairing, result_or_panic,
  store, make_check, computing_for_the_first_time, panic_error,
}
use witchcraft_rust_server.HealthRegistry.History.{
  Event, registers, registers_if_absent, runs, after_event, last_of,
}

-- The result of a check that counts, and when it was stored
pub record Last (P : Type 0) : Type 0 where
  pub state : HealthState
  pub params : Option P
  pub time : ℕ

module _ {P : Type 0} where
  abbrev pub first_result : ℕ → Last P
  first_result now = record { state = repairing; params = none; time = now }

  abbrev pub if_absent : Last P → Option (Last P) → Last P
  if_absent new none = new
  if_absent new (some before) = before

  -- A run, of which none is a panic, counts only where the type is registered.
  abbrev pub run_result : ℕ → Option (HealthCheckResult P) → Option (Last P) → Option (Last P)
  run_result now r none = none
  run_result now none (some before) = some (record { state = error; params = none; time = now })
  run_result now (some r) (some before) =
      some (record { state = r.state; params = r.params; time = now })

module _ {C P : Type 0} (is_match : Text → Bool) (type_of : C → Text) where
  abbrev pub expect : ℕ → Event C P → Text → Option (Last P) → Option (Last P)
  expect now (registers c) t before =
      if is_match (type_of c)
      then (if eq_text (type_of c) t then some (first_result now) else before)
      else before
  expect now (registers_if_absent c) t before =
      if is_match (type_of c)
      then (if eq_text (type_of c) t then some (if_absent (first_result now) before) else before)
      else before
  expect now (runs type_ r) t before = if eq_text type_ t then run_result now r before else before

  -- The result that the report is to show of a type, after the events, the last one first
  abbrev pub expected : Text → List (ℕ × Event C P) → Option (Last P)
  expected t [] = none
  expected t ((now, e) ∷ before) = expect now e t (expected t before)

module _ {C P : Type 0} where
  abbrev pub shown : Option (InstalledCheck C P) → Option (Last P)
  shown none = none
  shown (some i) = some (record {
    state = i.result.result.state;
    params = i.result.result.params;
    time = i.result.time;
  })

  pub is_stale-shown :
      (now : ℕ) (o : Option (InstalledCheck C P))
      → ((i : InstalledCheck C P) × (o ≡ some i) × (is_stale now i ≡ true))
        ↔ ((l : Last P) × (shown o ≡ some l) × (l.time + 300 < now))
  is_stale-shown now none = ((λ (i, e, h). cc), (λ (l, e, h). cc))
  is_stale-shown now (some j) = (
    (λ (i, e, h).
        let same : j ≡ i = cc in
        (
          record {
            state = j.result.result.state;
            params = j.result.result.params;
            time = j.result.time;
          },
          refl,
          (let k : is_stale now j ≡ true = ap (is_stale now) same ∙ h in ground arith),
        )),
    (λ (l, e, h). (
      j,
      refl,
      (let k : j.result.time ≡ l.time =
            ap (λ (o : Option (Last P)). elim o [ none ↦ 0 | some x ↦ x.time ]) e in
          ground arith),
    )),
  )

module _ {C P : Type 0} (is_match : Text → Bool) (type_of : C → Text) where
  shown-after_event :
      (now : ℕ) (e : Event C P) (t : Text) (o : Option (InstalledCheck C P))
      → shown (after_event is_match type_of now e t o) ≡ expect is_match type_of now e t (shown o)
  unfolding after_event make_check store result_or_panic computing_for_the_first_time panic_error
  shown-after_event now (registers c) t o = elim (Bool-cases (is_match (type_of c))) [
    | inr m ↦ rw m refl
    | inl m ↦ elim (Bool-cases (eq_text (type_of c) t)) [
      | inl e ↦ rw (m, e) refl
      | inr e ↦ rw (m, e) refl
    ]
  ]
  shown-after_event now (registers_if_absent c) t none = elim (Bool-cases (is_match (type_of c))) [
    | inr m ↦ rw m refl
    | inl m ↦ elim (Bool-cases (eq_text (type_of c) t)) [
      | inl e ↦ rw (m, e) refl
      | inr e ↦ rw (m, e) refl
    ]
  ]
  shown-after_event now (registers_if_absent c) t (some i) =
      elim (Bool-cases (is_match (type_of c))) [
        | inr m ↦ rw m refl
        | inl m ↦ elim (Bool-cases (eq_text (type_of c) t)) [
          | inl e ↦ rw (m, e) refl
          | inr e ↦ rw (m, e) refl
        ]
      ]
  shown-after_event now (runs type_ r) t none = elim (Bool-cases (eq_text type_ t)) [
    | inl e ↦ rw e refl
    | inr e ↦ rw e refl
  ]
  shown-after_event now (runs type_ none) t (some i) = elim (Bool-cases (eq_text type_ t)) [
    | inl e ↦ rw e refl
    | inr e ↦ rw e refl
  ]
  shown-after_event now (runs type_ (some r)) t (some i) = elim (Bool-cases (eq_text type_ t)) [
    | inl e ↦ rw e refl
    | inr e ↦ rw e refl
  ]

  pub shown-last_of :
      (t : Text) (events : List (ℕ × Event C P))
      → shown (last_of is_match type_of t events) ≡ expected is_match type_of t events
  unfolding last_of
  shown-last_of t [] = refl
  shown-last_of t ((now, e) ∷ before) =
      shown-after_event now e t (last_of is_match type_of t before)
      ∙ ap (expect is_match type_of now e t) (shown-last_of t before)
