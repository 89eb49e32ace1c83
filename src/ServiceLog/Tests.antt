-- ===== src/ServiceLog/Tests.antt =====
-- The levels of the test of service.rs, over a trie that is a list of its keys.
use witchcraft_rust_server.Common.{
  ℕ, ◌≡◌, refl, sym, true, false, Option, none, some, List, [], ◌∷◌, if◌then◌else◌, leb, Mem, inl,
  inr, Bool-cases, arith,
}
use witchcraft_rust_server.Http.{Text, text}
use witchcraft_rust_server.ServiceLog.{
  LoggingConfig, SequenceTrie, TrieLaws, enabled, eq_path, insert_all, is_logged, max_level,
  nearest, new_levels, on_config, split_target,
}
use witchcraft_rust_server.ServiceLog.Enabled.{Governs, is_logged-Governs}

abbrev Keys : Type 0
Keys = List (List Text × ℕ)

abbrev find : Keys → List Text → Option ℕ
find [] key = none
find ((k, v) ∷ t) key = if eq_path k key then some v else find t key

abbrev seconds : Keys → List ℕ
seconds [] = []
seconds ((k, v) ∷ t) = v ∷ seconds t

abbrev keys : SequenceTrie Keys
keys = record {
  new = [];
  insert = λ t k v. (k, v) ∷ t;
  get_ancestor = λ t key. nearest (find t) [] key none;
  values = seconds;
}

find-Mem : (t : Keys) (key : List Text) (v : ℕ) → find t key ≡ some v → Mem v (seconds t)
find-Mem [] key v h = absurd (ground arith)
find-Mem ((k, u) ∷ t) key v h = elim (Bool-cases (eq_path k key)) [
  | inl b ↦
      let same : ◌≡◌ {A = Option ℕ} (some u) (some v) = rw b at h in
      let u_v : u ≡ v = cc in inl (sym u_v)
  | inr b ↦ inr (find-Mem t key v (rw b at h))
]

keys_laws : TrieLaws keys
keys_laws = record {
  content = find;
  content-new = λ key. refl;
  content-insert = λ t k v other. refl;
  get_ancestor-nearest = λ t key. refl;
  content-values = find-Mem;
}

abbrev config : LoggingConfig
config = record { level = 4; loggers = (text "foo", 3) ∷ (text "foo::bar", 5) ∷ [] }

debug_baz : enabled keys (new_levels keys config) 5 (text "foo::bar::baz") ≡ some true
unfolding enabled new_levels insert_all split_target
debug_baz = refl

info_foo : enabled keys (new_levels keys config) 4 (text "foo") ≡ some false
unfolding enabled new_levels insert_all split_target
info_foo = refl

most : max_level keys (new_levels keys config) ≡ some 5
unfolding max_level new_levels insert_all
most = refl

is_logged-Governs_example :
    (levels : ℕ × Keys) × (l : ℕ) × (on_config keys config ≡ some levels)
    × Governs config (text "foo::bar::baz") l
    × (is_logged keys levels 5 (text "foo::bar::baz") ≡ some (leb 5 l))
is_logged-Governs_example = is_logged-Governs keys keys_laws config 5 (text "foo::bar::baz")
