-- ===== src/ConfigReload/Unchanged.antt =====
-- configs.rs: a reload is skipped only where it would read the same configuration.
use witchcraft_rust_server.Common.{
  and-left, and-right, ℕ, ◌≡◌, refl, sym, ap, ◌∙◌, subst, true, not, Option, none, some, List, [],
  ◌∷◌, ◌==◌, is_some, arith, Mem, ◌⊎◌, inl, inr, Bool-cases,
}
use witchcraft_rust_server.Http.{Text, eq_text, eq_text→eq}
use witchcraft_rust_server.Assoc.{insert}
use witchcraft_rust_server.ConfigReload.{
  World, ConfigFiles, Libraries, add, add_all, parse, same_hash, ok_unchanged, err_unchanged,
  up_to_date,
}

-- What the deserialisers are relied on for: the reads that the callback sees are those of the world,
-- and the value depends on the text and on these reads alone.
pub record LibraryLaws {T R : Type 0} (lib : Libraries T R) : Type 0 where
  pub reads_true :
      (w : World) (raw path : Text) (r : Option Text)
      → Mem (path, r) (lib.deserialize w raw).1
      → w path ≡ r
  pub reads_only :
      (v w : World) (raw : Text)
      → ((path : Text) (r : Option Text) → Mem (path, r) (lib.deserialize v raw).1 → w path ≡ r)
      → lib.deserialize w raw ≡ lib.deserialize v raw

not_some : {A : Type 0} (o : Option A) → not (is_some o) ≡ true → o ≡ none
not_some none h = refl
not_some (some a) h = ground arith

insert-Mem :
    (path : Text) (hash : ℕ) (ok : List (Text × ℕ)) → Mem (path, hash) (insert path hash ok)
insert-Mem path hash [] = inl refl
insert-Mem path hash ((p, h) ∷ rest) = elim (Bool-cases (eq_text p path)) [
  | inl e ↦ rw e (inl refl)
  | inr e ↦ rw e (inr (insert-Mem path hash rest))
]

insert-keeps :
    (path q : Text) (hash k : ℕ) (ok : List (Text × ℕ))
    → Mem (q, k) ok
    → (q ≡ path → k ≡ hash)
    → Mem (q, k) (insert path hash ok)
insert-keeps path q hash k [] m same = elim m [ ]
insert-keeps path q hash k ((p, h) ∷ rest) m same = elim (Bool-cases (eq_text p path)) [
  | inl e ↦ rw e (elim m [
    | inl r ↦
        let q' : q ≡ path = ap (λ x. x.0) r ∙ eq_text→eq p path e in inl (λ i. (q' i, same q' i))
    | inr n ↦ inr n
  ])
  | inr e ↦ rw e (elim m [ inl r ↦ inl r | inr n ↦ inr (insert-keeps path q hash k rest n same) ])
]

insert-Mem-cases :
    (path q : Text) (hash k : ℕ) (ok : List (Text × ℕ))
    → Mem (q, k) (insert path hash ok)
    → (◌≡◌ {A = Text × ℕ} (q, k) (path, hash)) ⊎ Mem (q, k) ok
insert-Mem-cases path q hash k [] (inl e) = inl e
insert-Mem-cases path q hash k [] (inr m) = elim m [ ]
insert-Mem-cases path q hash k ((p, h) ∷ rest) m = elim (Bool-cases (eq_text p path)) [
  | inl e ↦ elim (rw e at m) [ inl r ↦ inl r | inr n ↦ inr (inr n) ]
  | inr e ↦ elim (rw e at m) [
    | inl r ↦ inr (inl r)
    | inr n ↦ elim (insert-Mem-cases path q hash k rest n) [ inl r ↦ inl r | inr o ↦ inr (inr o) ]
  ]
]

module _ {T R : Type 0} (lib : Libraries T R) (w₀ : World) where
  -- The read is on record.
  abbrev Recorded : Text → Option Text → ConfigFiles → Type 0
  Recorded path (some bytes) files = Mem (path, lib.digest bytes) files.ok_files
  Recorded path none files = Mem path files.err_files

  -- What is on record is as in the world.
  abbrev Consistent : ConfigFiles → Type 0
  Consistent files =
      (path : Text) (hash : ℕ)
      → Mem (path, hash) files.ok_files
      → (bytes : Text) × (w₀ path ≡ some bytes) × (hash ≡ lib.digest bytes)

  add-Consistent :
      (path : Text) (r : Option Text) (files : ConfigFiles)
      → w₀ path ≡ r
      → Consistent files
      → Consistent (add lib path r files)
  unfolding add
  add-Consistent path none files e c q k m = c q k m
  add-Consistent path (some bytes) files e c q k m =
      elim (insert-Mem-cases path q (lib.digest bytes) k files.ok_files m) [
        | inl r ↦ (bytes, ap (λ x. w₀ x.0) r ∙ e, ap (λ x. x.1) r)
        | inr n ↦ c q k n
      ]

  add-Recorded :
      (path : Text) (r : Option Text) (files : ConfigFiles) → Recorded path r (add lib path r files)
  unfolding add
  add-Recorded path none files = inl refl
  add-Recorded path (some bytes) files = insert-Mem path (lib.digest bytes) files.ok_files

  add-keeps :
      (path q : Text) (r s : Option Text) (files : ConfigFiles)
      → w₀ path ≡ r
      → w₀ q ≡ s
      → Consistent files
      → Recorded q s files
      → Recorded q s (add lib path r files)
  unfolding add
  add-keeps path q none none files e f c m = inr m
  add-keeps path q none (some b) files e f c m = m
  add-keeps path q (some a) none files e f c m = m
  add-keeps path q (some a) (some b) files e f c m =
      insert-keeps path q (lib.digest a) (lib.digest b) files.ok_files m (λ p.
        let d : some b ≡ some a = sym f ∙ (ap w₀ p ∙ e) in let d' : b ≡ a = cc in ap lib.digest d')

  -- Each read is on record when all are added.
  add_all-Recorded :
      (reads : List (Text × Option Text)) (files : ConfigFiles)
      → ((path : Text) (r : Option Text) → Mem (path, r) reads → w₀ path ≡ r)
      → Consistent files
      → (q : Text) (s : Option Text) → w₀ q ≡ s
      → Mem (q, s) reads ⊎ Recorded q s files
      → Recorded q s (add_all lib reads files)
  unfolding add_all
  add_all-Recorded [] files t c q s f (inl m) = elim m [ ]
  add_all-Recorded [] files t c q s f (inr m) = m
  add_all-Recorded ((path, r) ∷ reads) files t c q s f (inl (inl e)) =
      let here : Recorded q s (add lib path r files) =
        subst (λ x. Recorded x.0 x.1 (add lib path r files)) (sym e) (add-Recorded path r files) in
      add_all-Recorded reads (add lib path r files) (λ p o m. t p o (inr m))
        (add-Consistent path r files (t path r (inl refl)) c) q s f (inr here)
  add_all-Recorded ((path, r) ∷ reads) files t c q s f (inl (inr m)) =
      add_all-Recorded reads (add lib path r files) (λ p o n. t p o (inr n))
        (add-Consistent path r files (t path r (inl refl)) c) q s f (inl m)
  add_all-Recorded ((path, r) ∷ reads) files t c q s f (inr m) =
      add_all-Recorded reads (add lib path r files) (λ p o n. t p o (inr n))
        (add-Consistent path r files (t path r (inl refl)) c) q s f
        (inr (add-keeps path q r s files (t path r (inl refl)) f c m))

ok_unchanged-Mem :
    {T R : Type 0} (lib : Libraries T R) (w : World) (ok : List (Text × ℕ))
    → ok_unchanged lib w ok ≡ true
    → (path : Text) (hash : ℕ) → Mem (path, hash) ok
    → same_hash lib (w path) hash ≡ true
ok_unchanged-Mem lib w [] h path hash m = elim m [ ]
ok_unchanged-Mem lib w ((p, k) ∷ ok) h path hash (inl e) =
    ap (λ x. same_hash lib (w x.0) x.1) e
    ∙ and-left (same_hash lib (w p) k) (ok_unchanged lib w ok) h
ok_unchanged-Mem lib w ((p, k) ∷ ok) h path hash (inr m) =
    ok_unchanged-Mem lib w ok (and-right (same_hash lib (w p) k) (ok_unchanged lib w ok) h) path
      hash m

err_unchanged-Mem :
    {T R : Type 0} (lib : Libraries T R) (w : World) (err : List Text)
    → err_unchanged lib w err ≡ true
    → (path : Text) → Mem path err
    → w path ≡ none
err_unchanged-Mem lib w [] h path m = elim m [ ]
err_unchanged-Mem lib w (p ∷ err) h path (inl e) =
    ap w e ∙ not_some (w p) (and-left (not (is_some (w p))) (err_unchanged lib w err) h)
err_unchanged-Mem lib w (p ∷ err) h path (inr m) =
    err_unchanged-Mem lib w err (and-right (not (is_some (w p))) (err_unchanged lib w err) h) path m

module _ {T R : Type 0} (lib : Libraries T R) where
  -- No two texts that these two worlds give one path, and not the two configurations, have one digest.
  abbrev pub NoCollision : World → World → Text → Text → Type 0
  NoCollision v w old new =
      (lib.digest old ≡ lib.digest new → new ≡ old)
      × ((path a b : Text)
          → v path ≡ some a
          → w path ≡ some b
          → lib.digest b ≡ lib.digest a
          → b ≡ a)

  same_hash-same :
      (r : Option Text) (bytes : Text)
      → ((b : Text) → r ≡ some b → lib.digest b ≡ lib.digest bytes → b ≡ bytes)
      → same_hash lib r (lib.digest bytes) ≡ true
      → r ≡ some bytes
  same_hash-same none bytes inj h = ground arith
  same_hash-same (some b) bytes inj h =
      let e : lib.digest b ≡ lib.digest bytes = ground arith in ap some (inj b refl e)

  Recorded-same :
      (v w : World) (files : ConfigFiles)
      → ((path a b : Text)
          → v path ≡ some a
          → w path ≡ some b
          → lib.digest b ≡ lib.digest a
          → b ≡ a)
      → ok_unchanged lib w files.ok_files ≡ true
      → err_unchanged lib w files.err_files ≡ true
      → (path : Text) (r : Option Text) → v path ≡ r
      → Recorded lib v path r files
      → w path ≡ r
  Recorded-same v w files inj o n path none e m = err_unchanged-Mem lib w files.err_files n path m
  Recorded-same v w files inj o n path (some bytes) e m =
      same_hash-same (w path) bytes (λ b d. inj path bytes b e d)
        (ok_unchanged-Mem lib w files.ok_files o path (lib.digest bytes) m)

  add_all-root_hash :
      (reads : List (Text × Option Text)) (files : ConfigFiles)
      → (add_all lib reads files).root_hash ≡ files.root_hash
  unfolding add_all add
  add_all-root_hash [] files = refl
  add_all-root_hash ((path, none) ∷ reads) files = add_all-root_hash reads (add lib path none files)
  add_all-root_hash ((path, some bytes) ∷ reads) files =
      add_all-root_hash reads (add lib path (some bytes) files)

  up_to_date-cases :
      (w : World) (new : Text) (files : ConfigFiles)
      → up_to_date lib w new files ≡ true
      → (files.root_hash ≡ lib.digest new)
        × (ok_unchanged lib w files.ok_files ≡ true)
        × (err_unchanged lib w files.err_files ≡ true)
  unfolding up_to_date
  up_to_date-cases w new files h = elim (Bool-cases (files.root_hash == lib.digest new)) [
    | inl e ↦
        let k = rw e at h in
        (
          ground arith,
          and-left (ok_unchanged lib w files.ok_files) (err_unchanged lib w files.err_files) k,
          and-right (ok_unchanged lib w files.ok_files) (err_unchanged lib w files.err_files) k,
        )
    | inr e ↦ ground arith
  ]

  up_to_date-root :
      (v w : World) (old new : Text)
      → NoCollision v w old new
      → up_to_date lib w new (parse lib v old).1 ≡ true
      → new ≡ old
  unfolding parse
  up_to_date-root v w old new inj h =
      let empty : ConfigFiles = record {
        root_hash = lib.digest old;
        ok_files = [];
        err_files = [];
      } in
      inj.0 (
        sym (add_all-root_hash (lib.deserialize v old).1 empty)
        ∙ (up_to_date-cases w new (parse lib v old).1 h).0)

module _ {T R : Type 0} (lib : Libraries T R) (laws : LibraryLaws lib) where
  -- The reads of the old parse give the same in a world where the record is up to date.
  reads_same :
      (v w : World) (old new : Text)
      → NoCollision lib v w old new
      → up_to_date lib w new (parse lib v old).1 ≡ true
      → (path : Text) (r : Option Text) → Mem (path, r) (lib.deserialize v old).1
      → w path ≡ r
  unfolding parse
  reads_same v w old new inj h path r m =
      let empty : ConfigFiles = record {
        root_hash = lib.digest old;
        ok_files = [];
        err_files = [];
      } in
      let files : ConfigFiles = (parse lib v old).1 in
      let f : v path ≡ r = laws.reads_true v old path r m in
      let ok : ok_unchanged lib w files.ok_files ≡ true = (up_to_date-cases lib w new files h).1 in
      let err : err_unchanged lib w files.err_files ≡ true =
        (up_to_date-cases lib w new files h).2 in
      Recorded-same lib v w files inj.1 ok err path r f (
        add_all-Recorded lib v (lib.deserialize v old).1 empty (laws.reads_true v old)
          (λ q k n. elim n [ ]) path r f (inl m))

  -- Where no digests collide and the record of the files of a parse is up to date in another world,
  -- parsing there gives the same value: a reload is skipped only where it would read the same.
  pub up_to_date_sound :
      (v w : World) (old new : Text)
      → NoCollision lib v w old new
      → up_to_date lib w new (parse lib v old).1 ≡ true
      → (parse lib w new).0 ≡ (parse lib v old).0
  unfolding parse
  up_to_date_sound v w old new inj h =
      ap (λ x. (lib.deserialize w x).0) (up_to_date-root lib v w old new inj h)
      ∙ ap (λ x. x.0) (laws.reads_only v w old (reads_same v w old new inj h))
