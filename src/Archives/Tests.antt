-- ===== src/Archives/Tests.antt =====
-- Runs of the clean-up of rolling_file.rs, on the logs of its test.
use witchcraft_rust_server.Common.{ℕ, ◌-◌, ◌≡◌, refl, some, List, [], ◌∷◌}
use witchcraft_rust_server.Sort.{sort, insert}
use witchcraft_rust_server.Archives.{ArchivedLog, not_after, clear_old_archives}
use witchcraft_rust_server.Archives.Retention.{Cleared, clear_old_archives-Cleared}

abbrev log : ℕ → ℕ → ℕ → ArchivedLog
log date number len = record { path = 0; date = date; number = number; len = len }

abbrev logs : List ArchivedLog
logs = log 9 1 5 ∷ log 10 0 6 ∷ log 9 0 7 ∷ log 2 0 1 ∷ []

clear-logs :
    clear_old_archives 10 12 3 logs ≡ some (log 2 0 1 ∷ log 9 0 7 ∷ [], log 9 1 5 ∷ log 10 0 6 ∷ [])
unfolding clear_old_archives sort insert not_after
clear-logs = refl

clear_old_archives-Cleared_example :
    Cleared
      (10 - 3)
      12
      (sort not_after logs)
      (log 2 0 1 ∷ log 9 0 7 ∷ [], log 9 1 5 ∷ log 10 0 6 ∷ [])
clear_old_archives-Cleared_example =
    clear_old_archives-Cleared 10 12 3 logs
      (log 2 0 1 ∷ log 9 0 7 ∷ [], log 9 1 5 ∷ log 10 0 6 ∷ []) clear-logs
