-- ===== src/Archives/Retention.antt =====
-- rolling_file.rs: the archives that are kept.
use witchcraft_rust_server.Common.{
  ℕ, zero, suc, ◌+◌, ◌-◌, ◌≡◌, ◌<◌, ◌≤◌, refl, sym, ap, List, [], ◌∷◌, ◌++◌, Mem, ◌⊎◌, inl, inr,
  arith, some, Option-cases, ◌∙◌, Bool-cases, leb, ltb, true, false, ◌&&◌, subst, subst⁻¹,
}
use witchcraft_rust_server.Sort.{sort, insert}
use witchcraft_rust_server.Sort.Order.{IsSorted, sort-IsSorted}
use witchcraft_rust_server.Archives.{
  ArchivedLog, not_after, total, cutoff, clear_loop, clear_old_archives,
}

not_after-total : (a b : ArchivedLog) → not_after a b ≡ false → not_after b a ≡ true
unfolding not_after
not_after-total a b h = ground arith

not_after_trans :
    (a b c : ArchivedLog) → not_after a b ≡ true → not_after b c ≡ true → not_after a c ≡ true
unfolding not_after
not_after_trans a b c h k = ground arith

not_after-date : (a b : ArchivedLog) (d : ℕ) → not_after a b ≡ true → d ≤ a.date → d ≤ b.date
unfolding not_after
not_after-date a b d h l = ground arith

cutoff-sub : (date days c : ℕ) → cutoff date days ≡ some c → c + days ≡ date
unfolding cutoff
cutoff-sub date zero c h = ground arith
cutoff-sub zero (suc days) c h = ground arith
cutoff-sub (suc date) (suc days) c h = let e = cutoff-sub date days c h in omega arith

total-insert :
    (x : ArchivedLog) (xs : List ArchivedLog) → total (insert not_after x xs) ≡ x.len + total xs
unfolding insert
total-insert x [] = refl
total-insert x (y ∷ ys) = let h = total-insert x ys in ground arith

total-sort : (xs : List ArchivedLog) → total (sort not_after xs) ≡ total xs
unfolding sort
total-sort [] = refl
total-sort (x ∷ xs) = total-insert x (sort not_after xs) ∙ ap (λ n. x.len + n) (total-sort xs)

-- The log had a reason to go: it was too old, or the logs from it on were too large.
abbrev pub Expired : ℕ → ℕ → List ArchivedLog → List ArchivedLog → Type 0
Expired c size [] kept = Unit
Expired c size (l ∷ ls) kept =
    ((l.date < c) ⊎ (size ≤ total ((l ∷ ls) ++ kept))) × Expired c size ls kept

abbrev pub AllFrom : ℕ → List ArchivedLog → Type 0
AllFrom c ls = (l : ArchivedLog) → Mem l ls → c ≤ l.date

-- The removed logs are the first ones and each had a reason to go; those kept are recent enough and
-- small enough.
abbrev pub Cleared : ℕ → ℕ → List ArchivedLog → List ArchivedLog × List ArchivedLog → Type 0
Cleared c size logs (removed, kept) =
    (removed ++ kept ≡ logs)
    × Expired c size removed kept
    × ((kept ≡ []) ⊎ (total kept < size))
    × AllFrom c kept

clear_loop-stop :
    (c size n : ℕ) (x : ArchivedLog) (ls : List ArchivedLog)
    → (leb c x.date && ltb n size) ≡ true
    → clear_loop c size n (x ∷ ls) ≡ ([], x ∷ ls)
unfolding clear_loop
clear_loop-stop c size n x ls t = ground arith

clear_loop-next :
    (c size n : ℕ) (x : ArchivedLog) (ls : List ArchivedLog)
    → (leb c x.date && ltb n size) ≡ false
    → clear_loop c size n (x ∷ ls)
      ≡ (x ∷ (clear_loop c size (n - x.len) ls).0, (clear_loop c size (n - x.len) ls).1)
unfolding clear_loop
clear_loop-next c size n x ls t = ground arith

clear_loop-Cleared :
    (c size n : ℕ) (ls : List ArchivedLog)
    → IsSorted not_after ls
    → n ≡ total ls
    → Cleared c size ls (clear_loop c size n ls)
unfolding clear_loop
clear_loop-Cleared c size n [] s e = (refl, tt, inl refl, λ l m. elim m [ ])
clear_loop-Cleared c size n (x ∷ ls) (b, s) e =
    let (h, r, k, a) = clear_loop-Cleared c size (n - x.len) ls s (omega arith) in
    let h' = ap total h in
    elim (Bool-cases (leb c x.date && ltb n size)) [
      | inl t ↦ subst⁻¹ (Cleared c size (x ∷ ls)) (clear_loop-stop c size n x ls t) (
        refl,
        tt,
        inr (ground arith),
        λ l m. elim m [
          | inl u ↦ let d = ap (λ y. y.date) u in ground arith
          | inr u ↦ not_after-date x l c (b l u) (ground arith)
        ],
      )
      | inr t ↦
          subst⁻¹ (Cleared c size (x ∷ ls)) (clear_loop-next c size n x ls t)
            (ap (◌∷◌ x) h, (ground arith, r), k, a)
    ]

-- Where it does not panic, the clean-up of a directory deletes the oldest archives, each of which
-- is older than the days allowed or has, with the later ones, the size allowed or more; it keeps
-- the others, which are of the days allowed and together below the size allowed, or none.
pub clear_old_archives-Cleared :
    (date size days : ℕ) (logs : List ArchivedLog) (cleared : List ArchivedLog × List ArchivedLog)
    → clear_old_archives date size days logs ≡ some cleared
    → Cleared (date - days) size (sort not_after logs) cleared
unfolding clear_old_archives
clear_old_archives-Cleared date size days logs cleared h = elim (Option-cases (cutoff date days)) [
  | inl n ↦ ground arith
  | inr (c, q) ↦
      let e = cutoff-sub date days c q in
      let k : clear_loop c size (total logs) (sort not_after logs) ≡ cleared = ground arith in
      subst (λ d. Cleared d size (sort not_after logs) cleared) (omega arith)
        (subst (Cleared c size (sort not_after logs)) k (
          clear_loop-Cleared c size (total logs) (sort not_after logs)
            (sort-IsSorted not_after not_after-total not_after_trans logs) (sym (total-sort logs))))
]
