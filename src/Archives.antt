-- ===== src/Archives.antt =====
-- witchcraft-server/src/logging/logger/rolling_file.rs: which archives of a log are deleted, and the
-- number of the next one. A date is the number of days since the first one of the crate `chrono`;
-- the files that the directory has are an argument, and removing one is an entry of the answer.
-- The sums of the lengths of files are taken not to pass 64 bits.
pub mod Retention
pub mod Names
mod Tests
use witchcraft_rust_server.Common.{
  ℕ, zero, suc, ◌+◌, ◌-◌, ◌*◌, ◌≡◌, Bool, true, false, ◌&&◌, ◌||◌, Option, none, some, List, [],
  ◌∷◌, if◌then◌else◌, ltb, leb, ◌==◌, ◌++◌,
}
use witchcraft_rust_server.Sort.{sort}

pub record ArchivedLog : Type 0 where
  pub path : ℕ
  pub date : ℕ
  pub number : ℕ
  pub len : ℕ

-- The order of `(l.date, l.number)`
unfoldable pub not_after : ArchivedLog → ArchivedLog → Bool
not_after a b = ltb a.date b.date || (a.date == b.date && leb a.number b.number)

abbrev pub total : List ArchivedLog → ℕ
total [] = 0
total (l ∷ ls) = l.len + total ls

-- `date_cutoff.pred_opt().unwrap()`, again and again: none is the panic before the first date.
unfoldable pub cutoff : ℕ → ℕ → Option ℕ
cutoff date zero = some date
cutoff zero (suc days) = none
cutoff (suc date) (suc days) = cutoff date days

-- The loop: the logs removed, in order, and the logs left
unfoldable pub clear_loop : ℕ → ℕ → ℕ → List ArchivedLog → List ArchivedLog × List ArchivedLog
clear_loop date_cutoff max_archive_size total_size [] = ([], [])
clear_loop date_cutoff max_archive_size total_size (log ∷ logs) =
    let (removed, kept) = clear_loop date_cutoff max_archive_size (total_size - log.len) logs in
    if leb date_cutoff log.date && ltb total_size max_archive_size
    then ([], log ∷ logs)
    else (log ∷ removed, kept)

unfoldable pub clear_old_archives :
    ℕ → ℕ → ℕ → List ArchivedLog → Option (List ArchivedLog × List ArchivedLog)
unfolding clear_loop cutoff
clear_old_archives date max_archive_size max_archive_days logs =
    elim (cutoff date max_archive_days) [
      | none ↦ none
      | some date_cutoff ↦
          some (clear_loop date_cutoff max_archive_size (total logs) (sort not_after logs))
    ]

abbrev max_opt : ℕ → Option ℕ → Option ℕ
max_opt n none = some n
max_opt n (some m) = if leb m n then some n else some m

-- The highest number among the logs of a date
unfoldable pub max_number : ℕ → List ArchivedLog → Option ℕ
max_number date [] = none
max_number date (l ∷ ls) =
    let rest = max_number date ls in if l.date == date then max_opt l.number rest else rest

-- `RollingFileAppender::new`: the index of the next archive
unfoldable pub next_archive_index : ℕ → List ArchivedLog → List ArchivedLog → ℕ
unfolding max_number
next_archive_index date archived uncompressed = elim (max_number date (archived ++ uncompressed)) [
  | none ↦ 0
  | some n ↦ n + 1
]
