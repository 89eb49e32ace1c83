-- ===== src/Archives/Names.antt =====
-- rolling_file.rs: the number of the next archive is new.
use witchcraft_rust_server.Common.{
  ℕ, ◌≡◌, ◌<◌, ◌≤◌, ap, List, [], ◌∷◌, ◌++◌, Mem, Mem-append, ◌⊎◌, inl, inr, arith, some, ◌==◌,
  Option-cases, Bool-cases, leb,
}
use witchcraft_rust_server.Archives.{ArchivedLog, max_number, next_archive_index}

max_number-bound :
    (date : ℕ) (ls : List ArchivedLog) (l : ArchivedLog)
    → Mem l ls
    → l.date ≡ date
    → (n : ℕ) × (max_number date ls ≡ some n) × (l.number ≤ n)
unfolding max_number
max_number-bound date [] l m d = elim m [ ]
max_number-bound date (x ∷ ls) l (inl e) d =
    let d' = ap (λ y. y.date) e in
    let n' = ap (λ y. y.number) e in
    elim (Option-cases (max_number date ls)) [
      | inl h ↦ (x.number, ground arith, ground arith)
      | inr (n, h) ↦ elim (Bool-cases (leb n x.number)) [
        | inl t ↦ (x.number, ground arith, ground arith)
        | inr t ↦ (n, ground arith, ground arith)
      ]
    ]
max_number-bound date (x ∷ ls) l (inr m) d =
    let (n, h, b) = max_number-bound date ls l m d in
    elim (Bool-cases (x.date == date)) [
      | inr t ↦ (n, ground arith, b)
      | inl t ↦ elim (Bool-cases (leb n x.number)) [
        | inl u ↦ (x.number, ground arith, ground arith)
        | inr u ↦ (n, ground arith, b)
      ]
    ]

-- The next archive index is above the number of every log of the day, compressed or not.
pub next_archive_index-fresh :
    (date : ℕ) (archived uncompressed : List ArchivedLog) (l : ArchivedLog)
    → Mem l archived ⊎ Mem l uncompressed
    → l.date ≡ date
    → l.number < next_archive_index date archived uncompressed
unfolding next_archive_index
next_archive_index-fresh date archived uncompressed l m d =
    let (n, h, b) =
      max_number-bound date (archived ++ uncompressed) l (Mem-append l archived uncompressed m) d in
    ground arith
