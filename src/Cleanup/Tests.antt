-- ===== src/Cleanup/Tests.antt =====
-- A run of logging/cleanup.rs.
use witchcraft_rust_server.Common.{ℕ, ◌≡◌, inl, inr, refl, false, none, some, List, [], ◌∷◌, Mem}
use witchcraft_rust_server.Cleanup.{NextEntry, read, read_failed, cleanup_logs_inner}

abbrev file : ℕ → ℕ → NextEntry
file path modified =
    read (record {
      path = path;
      metadata = some (record { is_dir = false; modified = some modified });
    })

abbrev directory : List NextEntry
directory =
    file 1 5
    ∷ file 2 4000000
    ∷ read (record { path = 3; metadata = none })
    ∷ file 4 6
    ∷ read_failed
    ∷ file 5 0
    ∷ []

removed : cleanup_logs_inner 3000000 directory ≡ (1 ∷ 4 ∷ [], false)
unfolding cleanup_logs_inner
removed = refl

four : Mem 4 (cleanup_logs_inner 3000000 directory).0
unfolding cleanup_logs_inner
four = inr (inl refl)
