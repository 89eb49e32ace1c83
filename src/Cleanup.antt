-- ===== src/Cleanup.antt =====
-- witchcraft-server/src/logging/cleanup.rs: old files in the directory of the logs. The directory is
-- a list of what `next_entry` gives, times are seconds, and the log lines are left out. The attempts
-- to remove a file are the answer.
pub mod Removal
mod Tests
use witchcraft_rust_server.Common.{
  ℕ, ◌+◌, ◌-◌, ◌*◌, ◌≡◌, Bool, true, false, not, ◌&&◌, Option, none, some, List, [], ◌∷◌,
  if◌then◌else◌, ltb, leb,
}

abbrev pub max_age : ℕ
max_age = 31 * 24 * 60 * 60

pub record Metadata : Type 0 where
  pub is_dir : Bool
  pub modified : Option ℕ

pub record Entry : Type 0 where
  pub path : ℕ
  pub metadata : Option Metadata

pub data NextEntry : Type 0 where
  read : Entry → NextEntry
  read_failed : NextEntry

-- `now.duration_since(modified)`: none where the file is from the future
unfoldable pub duration_since : ℕ → ℕ → Option ℕ
duration_since now modified = if ltb now modified then none else some (now - modified)

-- What a round of the loop does with an entry
pub data Verdict : Type 0 where
  skip : Verdict
  remove : Verdict
  give_up : Verdict

abbrev judge_age : Option ℕ → Verdict
judge_age none = skip
judge_age (some age) = if ltb age max_age then skip else remove

unfoldable pub judge : ℕ → Option Metadata → Verdict
unfolding duration_since
judge now none = skip
judge now (some m) = if m.is_dir then skip else elim m.modified [
  | none ↦ give_up
  | some modified ↦ judge_age (duration_since now modified)
]

-- The paths of the files it tries to remove, and whether it ends without an error
unfoldable pub cleanup_logs_inner : ℕ → List NextEntry → List ℕ × Bool
unfolding judge
cleanup_logs_inner now [] = ([], true)
cleanup_logs_inner now (read_failed ∷ rest) = ([], false)
cleanup_logs_inner now (read entry ∷ rest) =
    let (removed, ok) = cleanup_logs_inner now rest in
    elim (judge now entry.metadata) [
      | skip ↦ (removed, ok)
      | remove ↦ (entry.path ∷ removed, ok)
      | give_up ↦ ([], true)
    ]
