-- ===== src/Cleanup/Removal.antt =====
-- logging/cleanup.rs: the files that are removed.
use witchcraft_rust_server.Common.{
  ℕ, ◌+◌, ◌≡◌, ◌≤◌, ◌⊎◌, inl, inr, refl, Bool, true, false, some, List, [], ◌∷◌, Mem, arith, sym,
  subst, Option-cases,
}
use witchcraft_rust_server.Cleanup.{
  Entry, Metadata, NextEntry, read, read_failed, judge, duration_since, cleanup_logs_inner, Verdict,
  skip, remove, give_up, max_age,
}

-- A file, not a directory, modified at least 31 days ago
abbrev pub IsOld : ℕ → Entry → Type 0
IsOld now e =
    (m : Metadata) × (t : ℕ) × (e.metadata ≡ some m)
    × (m.is_dir ≡ false)
    × (m.modified ≡ some t)
    × (t + max_age ≤ now)

abbrev pub Found : ℕ → ℕ → List NextEntry → Type 0
Found now path entries = (e : Entry) × Mem (read e) entries × (e.path ≡ path) × IsOld now e

judge-IsOld : (now : ℕ) (e : Entry) → judge now e.metadata ≡ remove → IsOld now e
unfolding judge duration_since
judge-IsOld now e h = elim (Option-cases e.metadata) [
  | inl n ↦ ground arith
  | inr (m, n) ↦ elim (Option-cases m.modified) [
    | inl k ↦ ground arith
    | inr (t, k) ↦ (m, t, n, ground arith, k, ground arith)
  ]
]

Verdict-cases : (v : Verdict) → (v ≡ skip) ⊎ (v ≡ remove) ⊎ (v ≡ give_up)
Verdict-cases skip = inl refl
Verdict-cases remove = inr (inl refl)
Verdict-cases give_up = inr (inr refl)

abbrev proceed : Verdict → ℕ → List ℕ × Bool → List ℕ × Bool
proceed v path rest = elim v [
  | skip ↦ rest
  | remove ↦ (path ∷ rest.0, rest.1)
  | give_up ↦ ([], true)
]

-- Every path that the clean-up removes is that of a file of the directory which is no directory
-- and was last modified 31 days ago or earlier.
pub cleanup-IsOld :
    (now path : ℕ) (entries : List NextEntry)
    → Mem path (cleanup_logs_inner now entries).0
    → Found now path entries
unfolding cleanup_logs_inner
cleanup-IsOld now path [] m = elim m [ ]
cleanup-IsOld now path (read_failed ∷ rest) m = elim m [ ]
cleanup-IsOld now path (read entry ∷ rest) m =
    let deeper : Mem path (cleanup_logs_inner now rest).0 → Found now path (read entry ∷ rest) =
      λ k. let (e, a, b, c) = cleanup-IsOld now path rest k in (e, inr a, b, c) in
    elim (Verdict-cases (judge now entry.metadata)) [
      | inl v ↦
          deeper (subst (λ w. Mem path (proceed w entry.path (cleanup_logs_inner now rest)).0) v m)
      | inr (inl v) ↦
          elim (subst (λ w. Mem path (proceed w entry.path (cleanup_logs_inner now rest)).0) v m) [
            | inl p ↦ (entry, inl refl, sym p, judge-IsOld now entry v)
            | inr k ↦ deeper k
          ]
      | inr (inr v) ↦
          elim (subst (λ w. Mem path (proceed w entry.path (cleanup_logs_inner now rest)).0) v
            m) [ ]
    ]
