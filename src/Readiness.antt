-- ===== src/Readiness.antt =====
-- witchcraft-server/src/readiness.rs, and the answer of status.rs to it. A check is opaque, and what
-- goes on around the registry is a world: it has the map of the checks, which a check may change while
-- it runs, and which other threads may change at any time while the lock is not held: `others` is what
-- they do between two steps of the loop. The regex of the types is an argument.
pub mod Rounds
pub mod Complete
mod Tests
use witchcraft_rust_server.Common.{
  ℕ, zero, suc, ◌≡◌, Bool, true, false, ◌&&◌, Option, none, some, List, [], ◌∷◌, ◌++◌,
  if◌then◌else◌, is_some,
}
use witchcraft_rust_server.Http.{Text, eq_text}
use witchcraft_rust_server.Assoc.{lookup}

pub record Metadata : Type 0 where
  pub type_ : Text
  pub successful : Bool

-- `register_inner`, where none is a panic
unfoldable pub register :
    {C : Type 0} → (Text → Bool) → (C → Text) → C → List (Text × C) → Option (List (Text × C))
register is_match type_of check checks =
    if is_match (type_of check)
    then (if is_some (lookup (type_of check) checks)
        then none
        else some (checks ++ ((type_of check, check) ∷ [])))
    else none

pub record World (C : Type 0) : Type 1 where
  pub W : Type 0
  pub checks : W → List (Text × C)
  pub result : C → W → W × Bool
  pub others : W → W

module _ {C : Type 0} (world : World C) where
  -- The body of the `for` loop
  abbrev pub visit :
      Text × C → world.W × Bool × List (Text × Metadata) → world.W × Bool × List (Text × Metadata)
  visit (type_, check) (w, progress, results) =
      if is_some (lookup type_ results)
      then (world.others w, progress, results)
      else (let (w', successful) = world.result check w in
          (
            world.others w',
            true,
            results ++ ((type_, record { type_ = type_; successful = successful }) ∷ []),
          ))

  abbrev pub visit_all :
      List (Text × C)
      → world.W × Bool × List (Text × Metadata)
      → world.W × Bool × List (Text × Metadata)
  visit_all [] s = s
  visit_all (c ∷ cs) s = visit_all cs (visit c s)

  -- A round: the map is cloned, and the lock is given up.
  abbrev pub round : world.W → List (Text × Metadata) → world.W × Bool × List (Text × Metadata)
  round w results = visit_all (world.checks w) (world.others w, false, results)

  -- The `while` loop, with fuel: none where the fuel is spent.
  unfoldable pub rounds :
      ℕ → world.W → List (Text × Metadata) → Option (world.W × List (Text × Metadata))
  rounds zero w results = none
  rounds (suc fuel) w results =
      let (w', progress, results') = round w results in
      let rest = rounds fuel w' results' in if progress then rest else some (w', results')

  unfoldable pub run_checks : ℕ → world.W → Option (world.W × List (Text × Metadata))
  unfolding rounds
  run_checks fuel w = rounds fuel w []

-- The status of the response of the readiness endpoint, in status.rs
abbrev pub all_successful : List (Text × Metadata) → Bool
all_successful [] = true
all_successful ((k, m) ∷ rest) = m.successful && all_successful rest

unfoldable pub serialize_status : List (Text × Metadata) → ℕ
serialize_status value = if all_successful value then 200 else 503
