-- ===== src/HealthRegistry/History.antt =====
-- registry.rs: after any history, the registry is the map of what happened last to each type.
use witchcraft_rust_server.Common.{
  ℕ, ◌≡◌, refl, ap, ◌∙◌, Bool, Option, none, some, List, [], ◌∷◌, if◌then◌else◌, Bool-cases, inl,
  inr,
}
use witchcraft_rust_server.Http.{Text, eq_text}
use witchcraft_rust_server.Assoc.{lookup}
use witchcraft_rust_server.Assoc.Lookup.{lookup-eq_text, lookup-insert_at}
use witchcraft_rust_server.HealthRegistry.{
  HealthCheckResult, InstalledCheck, Registry, make_check, register, register_if_absent, store,
  run_check, entry_or_insert, store_at,
}

pub data Event (C P : Type 0) : Type 0 where
  registers : C → Event C P
  registers_if_absent : C → Event C P
  runs : Text → Option (HealthCheckResult P) → Event C P

module _ {C P : Type 0} (is_match : Text → Bool) (type_of : C → Text) where
  -- After a panic, the registry is what it was.
  abbrev or_same : Registry C P → Option (Registry C P) → Registry C P
  or_same checks none = checks
  or_same checks (some checks') = checks'

  abbrev or_same_pair : Registry C P → Option (Registry C P × C) → Registry C P
  or_same_pair checks none = checks
  or_same_pair checks (some (checks', c)) = checks'

  unfoldable pub apply : ℕ → Event C P → Registry C P → Registry C P
  unfolding register register_if_absent run_check
  apply now (registers c) checks = or_same checks (register is_match type_of now c checks)
  apply now (registers_if_absent c) checks =
      or_same_pair checks (register_if_absent is_match type_of now c checks)
  apply now (runs type_ r) checks = run_check is_match type_of now type_ r checks

  -- The events, the last first
  unfoldable pub registry : List (ℕ × Event C P) → Registry C P
  unfolding apply
  registry [] = []
  registry ((now, e) ∷ before) = apply now e (registry before)

  abbrev or_new : InstalledCheck C P → Option (InstalledCheck C P) → Option (InstalledCheck C P)
  or_new i none = some i
  or_new i (some j) = some j

  abbrev stored :
      ℕ → Option (HealthCheckResult P) → Option (InstalledCheck C P) → Option (InstalledCheck C P)
  stored now r none = none
  stored now r (some i) = some (store is_match type_of now r i)

  -- What an event does to the check of one type
  unfoldable pub after_event :
      ℕ → Event C P → Text → Option (InstalledCheck C P) → Option (InstalledCheck C P)
  unfolding make_check store
  after_event now (registers c) t before =
      if is_match (type_of c)
      then (if eq_text (type_of c) t then some (make_check is_match type_of now c) else before)
      else before
  after_event now (registers_if_absent c) t before =
      if is_match (type_of c)
      then (if eq_text (type_of c) t
          then or_new (make_check is_match type_of now c) before
          else before)
      else before
  after_event now (runs type_ r) t before = if eq_text type_ t then stored now r before else before

  -- The check of a type, with its last result, by the events alone
  unfoldable pub last_of : Text → List (ℕ × Event C P) → Option (InstalledCheck C P)
  unfolding after_event
  last_of t [] = none
  last_of t ((now, e) ∷ before) = after_event now e t (last_of t before)

  lookup-entry_or_insert :
      (now : ℕ) (c : C) (checks : Registry C P) (t : Text) (found : Option (InstalledCheck C P))
      → lookup (type_of c) checks ≡ found
      → lookup t (entry_or_insert is_match type_of now c checks found).0 ≡ (
          if eq_text (type_of c) t
          then or_new (make_check is_match type_of now c) (lookup t checks)
          else lookup t checks)
  lookup-entry_or_insert now c checks t none f =
      lookup-insert_at (type_of c) t (make_check is_match type_of now c) checks
      ∙ elim (Bool-cases (eq_text (type_of c) t)) [
        | inl e ↦
            let absent : lookup t checks ≡ none = lookup-eq_text (type_of c) t checks e ∙ f in
            simp (e, absent)
        | inr e ↦ simp e
      ]
  lookup-entry_or_insert now c checks t (some i) f = elim (Bool-cases (eq_text (type_of c) t)) [
    | inl e ↦
        let present : lookup t checks ≡ some i = lookup-eq_text (type_of c) t checks e ∙ f in
        simp (e, present)
    | inr e ↦ simp e
  ]

  lookup-store_at :
      (now : ℕ) (type_ : Text) (r : Option (HealthCheckResult P)) (checks : Registry C P) (t : Text)
      (found : Option (InstalledCheck C P))
      → lookup type_ checks ≡ found
      → lookup t (store_at is_match type_of now type_ r found checks)
        ≡ (if eq_text type_ t then stored now r (lookup t checks) else lookup t checks)
  lookup-store_at now type_ r checks t none f = elim (Bool-cases (eq_text type_ t)) [
    | inl e ↦
        let absent : lookup t checks ≡ none = lookup-eq_text type_ t checks e ∙ f in
        simp (e, absent)
    | inr e ↦ simp e
  ]
  lookup-store_at now type_ r checks t (some i) f =
      lookup-insert_at type_ t (store is_match type_of now r i) checks
      ∙ elim (Bool-cases (eq_text type_ t)) [
        | inl e ↦
            let present : lookup t checks ≡ some i = lookup-eq_text type_ t checks e ∙ f in
            simp (e, present)
        | inr e ↦ simp e
      ]

  lookup-apply :
      (now : ℕ) (e : Event C P) (checks : Registry C P) (t : Text)
      → lookup t (apply now e checks) ≡ after_event now e t (lookup t checks)
  unfolding apply after_event register register_if_absent run_check
  lookup-apply now (registers c) checks t = elim (Bool-cases (is_match (type_of c))) [
    | inl e ↦ rw e (lookup-insert_at (type_of c) t (make_check is_match type_of now c) checks)
    | inr e ↦ rw e refl
  ]
  lookup-apply now (registers_if_absent c) checks t = elim (Bool-cases (is_match (type_of c))) [
    | inl e ↦ rw e (lookup-entry_or_insert now c checks t (lookup (type_of c) checks) refl)
    | inr e ↦ rw e refl
  ]
  lookup-apply now (runs type_ r) checks t =
      lookup-store_at now type_ r checks t (lookup type_ checks) refl

  -- After any history, the registry has for each type the check that was registered last, or first
  -- where the others were registered only if absent, with the result of its last run since then.
  pub lookup-registry :
      (events : List (ℕ × Event C P)) (t : Text) → lookup t (registry events) ≡ last_of t events
  unfolding registry last_of
  lookup-registry [] t = refl
  lookup-registry ((now, e) ∷ before) t =
      lookup-apply now e (registry before) t ∙ ap (after_event now e t) (lookup-registry before t)
