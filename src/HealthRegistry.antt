-- ===== src/HealthRegistry.antt =====
-- witchcraft-server/src/health/registry.rs: the registry of health checks, the task of each check and
-- the report. A check is opaque, the regex of the types is an argument, and instants are numbers of
-- seconds. A result has a state and the rest of its data; the messages of the results that the
-- registry makes itself are left out.
pub mod History
pub mod Expected
pub mod Report
mod Tests
use witchcraft_rust_server.Common.{
  ℕ, ◌+◌, ◌*◌, Bool, true, false, ◌≡◌, Option, none, some, List, [], ◌∷◌, map, if◌then◌else◌, ltb,
  is_empty,
}
use witchcraft_rust_server.Http.{Text, eq_text}
use witchcraft_rust_server.Assoc.{lookup, insert}

abbrev pub staleness_threshold : ℕ
staleness_threshold = 5 * 60

-- "HEALTH_CHECK_COMPUTATION_STALENESS"
unfoldable pub staleness_type : Text
staleness_type =
    72 ∷ 69 ∷ 65 ∷ 76 ∷ 84 ∷ 72 ∷ 95 ∷ 67 ∷ 72 ∷ 69 ∷ 67 ∷ 75 ∷ 95 ∷ 67 ∷ 79 ∷ 77 ∷ 80 ∷ 85 ∷ 84
    ∷ 65 ∷ 84 ∷ 73 ∷ 79 ∷ 78 ∷ 95 ∷ 83 ∷ 84 ∷ 65 ∷ 76 ∷ 69 ∷ 78 ∷ 69 ∷ 83 ∷ 83 ∷ []

pub data HealthState : Type 0 where
  healthy repairing warning error : HealthState

pub record HealthCheckResult (P : Type 0) : Type 0 where
  pub state : HealthState
  pub params : Option P

unfoldable pub computing_for_the_first_time : {P : Type 0} → HealthCheckResult P
computing_for_the_first_time = record { state = repairing; params = none }

unfoldable pub panic_error : {P : Type 0} → HealthCheckResult P
panic_error = record { state = error; params = none }

pub record TimestampedResult (P : Type 0) : Type 0 where
  pub result : HealthCheckResult P
  pub time : ℕ

pub record InstalledCheck (C P : Type 0) : Type 0 where
  pub check : C
  pub result : TimestampedResult P

abbrev pub Registry : Type 0 → Type 0 → Type 0
Registry C P = List (Text × InstalledCheck C P)

-- A row of the status, with the parameter `staleHealthChecks` of the last one
pub record Row (P : Type 0) : Type 0 where
  pub type_ : Text
  pub state : HealthState
  pub params : Option P
  pub stale_health_checks : List Text

module _ {C P : Type 0} (is_match : Text → Bool) (type_of : C → Text) where
  unfoldable pub make_check : ℕ → C → InstalledCheck C P
  unfolding computing_for_the_first_time
  make_check now check = record {
    check = check;
    result = record { result = computing_for_the_first_time; time = now };
  }

  -- Where none is a panic. The check that is replaced is dropped, which ends its task.
  unfoldable pub register : ℕ → C → Registry C P → Option (Registry C P)
  unfolding make_check
  register now check checks =
      if is_match (type_of check)
      then some (insert (type_of check) (make_check now check) checks)
      else none

  abbrev pub entry_or_insert : ℕ → C → Registry C P → Option (InstalledCheck C P) → Registry C P × C
  entry_or_insert now check checks (some e) = (checks, e.check)
  entry_or_insert now check checks none =
      (insert (type_of check) (make_check now check) checks, check)

  unfoldable pub register_if_absent : ℕ → C → Registry C P → Option (Registry C P × C)
  unfolding make_check
  register_if_absent now check checks =
      if is_match (type_of check)
      then some (entry_or_insert now check checks (lookup (type_of check) checks))
      else none

  -- What `run_check` stores, where none is a check that has panicked
  unfoldable pub result_or_panic : Option (HealthCheckResult P) → HealthCheckResult P
  unfolding panic_error
  result_or_panic none = panic_error
  result_or_panic (some r) = r

  unfoldable pub store : ℕ → Option (HealthCheckResult P) → InstalledCheck C P → InstalledCheck C P
  unfolding result_or_panic
  store now r i = record i { result = record { result = result_or_panic r; time = now } }

  -- A round of `run_check` of the check that is installed with a type
  abbrev pub store_at :
      ℕ
      → Text
      → Option (HealthCheckResult P)
      → Option (InstalledCheck C P)
      → Registry C P
      → Registry C P
  store_at now type_ r none checks = checks
  store_at now type_ r (some i) checks = insert type_ (store now r i) checks

  unfoldable pub run_check : ℕ → Text → Option (HealthCheckResult P) → Registry C P → Registry C P
  unfolding store
  run_check now type_ r checks = store_at now type_ r (lookup type_ checks) checks

abbrev pub is_stale : {C P : Type 0} → ℕ → InstalledCheck C P → Bool
is_stale now i = ltb (i.result.time + staleness_threshold) now

unfoldable pub stale_checks : {C P : Type 0} → ℕ → Registry C P → List Text
stale_checks now [] = []
stale_checks now ((t, i) ∷ rest) =
    let more = stale_checks now rest in if is_stale now i then t ∷ more else more

abbrev pub row : {C P : Type 0} → Text → InstalledCheck C P → Row P
row t i = record {
  type_ = t;
  state = i.result.result.state;
  params = i.result.result.params;
  stale_health_checks = [];
}

abbrev pub rows : {C P : Type 0} → Registry C P → List (Text × Row P)
rows [] = []
rows ((t, i) ∷ rest) = (t, row t i) ∷ rows rest

unfoldable pub staleness_row : {P : Type 0} → List Text → Row P
staleness_row stale = record {
  type_ = staleness_type;
  state = if is_empty stale then healthy else warning;
  params = none;
  stale_health_checks = stale;
}

unfoldable pub run_checks : {C P : Type 0} → ℕ → Registry C P → List (Text × Row P)
run_checks now checks =
    insert staleness_type (staleness_row (stale_checks now checks)) (rows checks)
