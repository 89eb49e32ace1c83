-- ===== src/ServiceLog/Enabled.antt =====
-- logging/service.rs: the level that governs a target.
use witchcraft_rust_server.Common.{
  ℕ, ◌≤◌, ◌≡◌, ◌⊎◌, inl, inr, refl, sym, ap, ◌∙◌, subst, Bool, true, false, ◌&&◌, Option, none,
  some, List, [], ◌∷◌, ◌++◌, if◌then◌else◌, leb, ◌==◌, length, All, Mem, Bool-cases, Option-cases,
  and-left, and-right, arith,
}
use witchcraft_rust_server.Http.{Text, eq_text, eq_text_refl, eq_text→eq}
use witchcraft_rust_server.Split.{cons_head}
use witchcraft_rust_server.ServiceLog.{
  LoggingConfig, SequenceTrie, TrieLaws, enabled, eq_path, insert_all, is_logged, maximum,
  max_level, new_levels, on_config, split_target,
}
use witchcraft_rust_server.ServiceLog.Nearest.{
  NoLonger, eq_path_refl, eq_path→eq, nearest-Nearest, none-some,
}

abbrev pub is_prefix : List Text → List Text → Bool
is_prefix [] key = true
is_prefix (k ∷ ks) [] = false
is_prefix (k ∷ ks) (j ∷ js) = eq_text k j && is_prefix ks js

is_prefix-append :
    (ks js : List Text) → is_prefix ks js ≡ true → (rest : List Text) × (js ≡ ks ++ rest)
is_prefix-append [] js h = (js, refl)
is_prefix-append (k ∷ ks) [] h = absurd (ground arith)
is_prefix-append (k ∷ ks) (j ∷ js) h =
    let e = eq_text→eq k j (and-left (eq_text k j) (is_prefix ks js) h) in
    let (rest, q) = is_prefix-append ks js (and-right (eq_text k j) (is_prefix ks js) h) in
    (rest, λ i. sym e i ∷ q i)

is_prefix_self : (ks rest : List Text) → is_prefix ks (ks ++ rest) ≡ true
is_prefix_self [] rest = refl
is_prefix_self (k ∷ ks) rest = rw (eq_text_refl k) (is_prefix_self ks rest)

split_target-cons :
    (s : Text) → (part : Text) × (parts : List Text) × (split_target s ≡ part ∷ parts)
unfolding split_target
split_target-cons [] = ([], [], refl)
split_target-cons (a ∷ []) = (a ∷ [], [], refl)
split_target-cons (a ∷ b ∷ bs) =
    let (part, parts, e) = split_target-cons (b ∷ bs) in
    elim (Bool-cases (a == b':' && b == b':')) [
      | inl t ↦ ([], split_target bs, rw t refl)
      | inr f ↦ (a ∷ part, parts, rw f (ap (cons_head a) e))
    ]

-- Each other logger that is a prefix of the target has no more segments than this.
abbrev pub NoFiner : Text → ℕ → List (Text × ℕ) → Type 0
NoFiner target n loggers =
    All
      (λ logger.
        (is_prefix (split_target logger.0) (split_target target) ≡ false)
        ⊎ (length (split_target logger.0) ≤ n))
      loggers

-- The level for a target: that of the logger with the most segments among those whose segments begin
-- the target's, or the configuration's own where there is none.
abbrev pub Governs : LoggingConfig → Text → ℕ → Type 0
Governs config target level =
    ((name : Text) × Mem (name, level) config.loggers
      × (is_prefix (split_target name) (split_target target) ≡ true)
      × NoFiner target (length (split_target name)) config.loggers)
    ⊎ ((level ≡ config.level) × NoFiner target 0 config.loggers)

module _ {T : Type 0} (trie : SequenceTrie T) (laws : TrieLaws trie) where
  -- Where a value comes from
  insert_all-from :
      (t : T) (loggers : List (Text × ℕ)) (key : List Text) (v : ℕ)
      → laws.content (insert_all trie t loggers) key ≡ some v
      → ((name : Text) × Mem (name, v) loggers × (split_target name ≡ key))
        ⊎ (laws.content t key ≡ some v)
  unfolding insert_all
  insert_all-from t [] key v h = inr h
  insert_all-from t ((n, l) ∷ rest) key v h =
      elim (insert_all-from (trie.insert t (split_target n) l) rest key v h) [
        | inl (name, m, e) ↦ inl (name, inr m, e)
        | inr e ↦
            let at_key = sym (laws.content-insert t (split_target n) l key) ∙ e in
            elim (Bool-cases (eq_path (split_target n) key)) [
              | inl b ↦
                  let k : ◌≡◌ {A = Option ℕ} (some l) (some v) = rw b at at_key in
                  let l_v : l ≡ v = cc in
                  inl (n, inl (λ i. (n, sym l_v i)), eq_path→eq (split_target n) key b)
              | inr b ↦ inr (rw b at at_key)
            ]
      ]

  -- A value stays, or another one takes its place.
  insert_all-keeps :
      (t : T) (loggers : List (Text × ℕ)) (key : List Text) (v : ℕ)
      → laws.content t key ≡ some v
      → (u : ℕ) × (laws.content (insert_all trie t loggers) key ≡ some u)
  unfolding insert_all
  insert_all-keeps t [] key v h = (v, h)
  insert_all-keeps t ((n, l) ∷ rest) key v h = elim (Bool-cases (eq_path (split_target n) key)) [
    | inl b ↦ insert_all-keeps (trie.insert t (split_target n) l) rest key l (
        laws.content-insert t (split_target n) l key
        ∙ ap (λ x. if x then some l else laws.content t key) b)
    | inr b ↦ insert_all-keeps (trie.insert t (split_target n) l) rest key v (
        laws.content-insert t (split_target n) l key
        ∙ ap (λ x. if x then some l else laws.content t key) b
        ∙ h)
  ]

  insert_all-has :
      (t : T) (loggers : List (Text × ℕ)) (name : Text) (v : ℕ)
      → Mem (name, v) loggers
      → (u : ℕ) × (laws.content (insert_all trie t loggers) (split_target name) ≡ some u)
  unfolding insert_all
  insert_all-has t [] name v m = elim m [ ]
  insert_all-has t ((n, l) ∷ rest) name v (inl e) =
      let same : split_target name ≡ split_target n = ap (λ x. split_target x.0) e in
      insert_all-keeps (trie.insert t (split_target n) l) rest (split_target name) l (
        laws.content-insert t (split_target n) l (split_target name)
        ∙ ap (λ x. if x then some l else laws.content t (split_target name))
            (ap (eq_path (split_target n)) same ∙ eq_path_refl (split_target n)))
  insert_all-has t ((n, l) ∷ rest) name v (inr m) =
      insert_all-has (trie.insert t (split_target n) l) rest name v m

  abbrev root : LoggingConfig → T
  root config = trie.insert trie.new [] config.level

  root-content : (config : LoggingConfig) → laws.content (root config) [] ≡ some config.level
  root-content config = laws.content-insert trie.new [] config.level []

  root-only :
      (config : LoggingConfig) (key : List Text) (v : ℕ)
      → laws.content (root config) key ≡ some v
      → (key ≡ []) × (v ≡ config.level)
  root-only config [] v h =
      let k : ◌≡◌ {A = Option ℕ} (some v) (some config.level) = sym h ∙ root-content config in
      (refl, cc)
  root-only config (a ∷ key) v h = absurd (
      none-some (laws.content trie.new) (a ∷ key) v (laws.content-new (a ∷ key))
        (sym (laws.content-insert trie.new [] config.level (a ∷ key)) ∙ h))

  finer :
      (config : LoggingConfig) (target : Text) (n : ℕ) (loggers : List (Text × ℕ))
      → NoLonger (laws.content (new_levels trie config)) [] (split_target target) n
      → ((name : Text) (v : ℕ) → Mem (name, v) loggers → Mem (name, v) config.loggers)
      → NoFiner target n loggers
  unfolding new_levels
  finer config target n [] h sub = record {}
  finer config target n ((name, v) ∷ rest) h sub = (
    elim (Bool-cases (is_prefix (split_target name) (split_target target))) [
      | inl p ↦
          let (more, q) = is_prefix-append (split_target name) (split_target target) p in
          let (u, c) = insert_all-has (root config) config.loggers name v (sub name v (inl refl)) in
          inr (h (split_target name) more u q c)
      | inr p ↦ inl p
    ],
    finer config target n rest h (λ m w i. sub m w (inr i)),
  )

  governing :
      (config : LoggingConfig) (target : Text)
      → (level : ℕ) × Governs config target level
        × (trie.get_ancestor (new_levels trie config) (split_target target) ≡ some level)
        × ((key : List Text) × (laws.content (new_levels trie config) key ≡ some level))
  unfolding new_levels
  governing config target =
      let t : T = new_levels trie config in
      let found = laws.get_ancestor-nearest t (split_target target) in
      elim (nearest-Nearest (laws.content t) [] (split_target target) none) [
        | inr (r, m) ↦
            let (u, c) =
              insert_all-keeps (root config) config.loggers [] config.level (root-content config) in
            absurd (none-some (laws.content t) [] u (m [] (split_target target) refl) c)
        | inl (mid, rest, v, q, c, r, m) ↦ (
          v,
          elim (insert_all-from (root config) config.loggers mid v c) [
            | inl (name, i, e) ↦ inl (
              name,
              i,
              ap (λ x. is_prefix x (split_target target)) e
                  ∙ ap (is_prefix mid) q
                  ∙ is_prefix_self mid rest,
              subst (λ x. NoFiner target (length x) config.loggers) (sym e)
                  (finer config target (length mid) config.loggers m (λ n w i'. i')),
            )
            | inr h ↦
                let (z, l) = root-only config mid v h in
                inr (
                  l,
                  subst (λ x. NoFiner target (length x) config.loggers) z
                      (finer config target (length mid) config.loggers m (λ n w i'. i')),
                )
          ],
          found ∙ r,
          (mid, c),
        )
      ]

  maximum-ge : (v : ℕ) (vs : List ℕ) → Mem v vs → (m : ℕ) × (maximum trie vs ≡ some m) × (v ≤ m)
  maximum-ge v [] i = elim i [ ]
  maximum-ge v (w ∷ vs) (inl e) = elim (Option-cases (maximum trie vs)) [
    | inl n ↦ (w, rw n refl, omega (arith, e))
    | inr (m, k) ↦ (if leb w m then m else w, rw k refl, ground arith)
  ]
  maximum-ge v (w ∷ vs) (inr i) =
      let (m, k, le) = maximum-ge v vs i in (if leb w m then m else w, rw k refl, ground arith)

  -- Where a record passes the filter, it is the level of its target that decides.
  filtered :
      (m l level : ℕ)
      → l ≤ m
      → (if leb level m then some (leb level l) else some false) ≡ some (leb level l)
  filtered m l level h = ground arith

  -- For every configuration of levels, neither its arrival nor a record panics, and a record is logged
  -- exactly where its level is no finer than the one that governs its target, that of the logger with the
  -- most segments among those that begin the target, or the default: the global filter, which comes
  -- first and is set from the configuration, refuses no such record.
  pub is_logged-Governs :
      (config : LoggingConfig) (level : ℕ) (target : Text)
      → (levels : ℕ × T) × (l : ℕ) × (on_config trie config ≡ some levels)
        × Governs config target l
        × (is_logged trie levels level target ≡ some (leb level l))
  unfolding on_config max_level is_logged enabled
  is_logged-Governs config level target =
      let (l, g, found, (key, c)) = governing config target in
      let t : T = new_levels trie config in
      let (m, e, le) = maximum-ge l (trie.values t) (laws.content-values t key l c) in
      (
        (m, t),
        l,
        rw (on_config, max_level, e) refl,
        g,
        rw (is_logged, enabled, found) (filtered m l level le),
      )
