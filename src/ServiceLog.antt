-- ===== src/ServiceLog.antt =====
-- witchcraft-server/src/logging/service.rs: which records the service log takes, by the levels of the
-- runtime configuration, and what it makes of them. A level is its number, from 1 for `Fatal` to 6 for
-- `Trace`, and the filter `Off` is 0. The crate sequence_trie is a parameter.
pub mod Nearest
pub mod Enabled
mod Tests
use witchcraft_rust_server.Common.{
  ℕ, ◌≡◌, Bool, true, false, ◌&&◌, ◌⊎◌, Option, none, some, List, [], ◌∷◌, ◌++◌, if◌then◌else◌, leb,
  ◌==◌, Mem, is_some,
}
use witchcraft_rust_server.Http.{Text, eq_text}
use witchcraft_rust_server.Split.{cons_head}

-- `s.split("::")`
unfoldable pub split_target : Text → List Text
split_target [] = [] ∷ []
split_target (a ∷ []) = (a ∷ []) ∷ []
split_target (a ∷ b ∷ bs) =
    let rest = split_target bs in
    let here = split_target (b ∷ bs) in
    if a == b':' && b == b':' then [] ∷ rest else cons_head a here

abbrev pub eq_path : List Text → List Text → Bool
eq_path [] [] = true
eq_path [] (b ∷ bs) = false
eq_path (a ∷ as') [] = false
eq_path (a ∷ as') (b ∷ bs) = eq_text a b && eq_path as' bs

-- `SequenceTrie<String, LevelFilter>`
pub record SequenceTrie (T : Type 0) : Type 0 where
  pub new : T
  pub insert : T → List Text → ℕ → T
  pub get_ancestor : T → List Text → Option ℕ
  pub values : T → List ℕ

abbrev pub or_else : {A : Type 0} → Option A → Option A → Option A
or_else (some a) d = some a
or_else none d = d

-- The value of the longest prefix of a key that has one, where `before` is the part that was walked
abbrev pub nearest : (List Text → Option ℕ) → List Text → List Text → Option ℕ → Option ℕ
nearest content before [] best = or_else (content before) best
nearest content before (k ∷ key) best =
    nearest content (before ++ (k ∷ [])) key (or_else (content before) best)

-- The documented behaviour of the crate: a trie is a map from keys, and `get_ancestor` gives the value
-- of the longest prefix that has one.
pub record TrieLaws {T : Type 0} (trie : SequenceTrie T) : Type 0 where
  pub content : T → List Text → Option ℕ
  pub content-new : (key : List Text) → content trie.new key ≡ none
  pub content-insert :
      (t : T) (key : List Text) (v : ℕ) (other : List Text)
      → content (trie.insert t key v) other
        ≡ (if eq_path key other then some v else content t other)
  pub get_ancestor-nearest :
      (t : T) (key : List Text) → trie.get_ancestor t key ≡ nearest (content t) [] key none
  pub content-values :
      (t : T) (key : List Text) (v : ℕ) → content t key ≡ some v → Mem v (trie.values t)

-- `LoggingConfig`, as far as the service log asks for it; its `HashMap` is iterated in any order.
pub record LoggingConfig : Type 0 where
  pub level : ℕ
  pub loggers : List (Text × ℕ)

module _ {T : Type 0} (trie : SequenceTrie T) where
  -- The loop of `Levels::new`
  unfoldable pub insert_all : T → List (Text × ℕ) → T
  insert_all t [] = t
  insert_all t ((logger, level) ∷ rest) =
      insert_all (trie.insert t (split_target logger) level) rest

  -- `Levels::new`
  unfoldable pub new_levels : LoggingConfig → T
  unfolding insert_all
  new_levels config = insert_all (trie.insert trie.new [] config.level) config.loggers

  -- `Levels::enabled`: `none` is the panic of the `unwrap`.
  unfoldable pub enabled : T → ℕ → Text → Option Bool
  enabled t level target = elim (trie.get_ancestor t (split_target target)) [
    | none ↦ none
    | some l ↦ some (leb level l)
  ]

  abbrev pub maximum : List ℕ → Option ℕ
  maximum [] = none
  maximum (v ∷ vs) = elim (maximum vs) [ none ↦ some v | some w ↦ some (if leb v w then w else v) ]

  -- `Levels::max_level`
  unfoldable pub max_level : T → Option ℕ
  max_level t = maximum (trie.values t)

  -- The subscription of `init`: the global filter, and the levels behind it. `none` is a panic, which
  -- leaves the levels before.
  unfoldable pub on_config : LoggingConfig → Option (ℕ × T)
  unfolding new_levels max_level
  on_config config = elim (max_level (new_levels config)) [
    | none ↦ none
    | some m ↦ some (m, new_levels config)
  ]

  -- A record passes the global filter of the crate witchcraft-log, and then `enabled`.
  unfoldable pub is_logged : ℕ × T → ℕ → Text → Option Bool
  unfolding enabled
  is_logged (max, t) level target = if leb level max then enabled t level target else some false
