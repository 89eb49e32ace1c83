-- ===== src/ConfigReload/Tests.antt =====
-- Runs of the reload of configs.rs, where a configuration is the name of the file with its value.
use witchcraft_rust_server.Common.{
  ℕ, ◌≡◌, refl, sym, ap, ◌∙◌, true, false, Option, none, some, List, [], ◌∷◌, ◌+◌, ◌*◌,
  if◌then◌else◌, inl, inr, Bool-cases, Mem, arith,
}
use witchcraft_rust_server.Http.{Text, eq_text}
use witchcraft_rust_server.ConfigReload.{
  World, Libraries, Reload, parse, up_to_date, reload, reload_all,
}
use witchcraft_rust_server.ConfigReload.Stuck.{outage-stays}
use witchcraft_rust_server.ConfigReload.Unchanged.{LibraryLaws, NoCollision, up_to_date_sound}

abbrev sum_digest : Text → ℕ
sum_digest [] = 0
sum_digest (b ∷ bs) = b + 1 + 256 * sum_digest bs

-- The handle is the list of the values given to it, the last first.
abbrev libraries : Libraries Text (List Text)
libraries = record {
  digest = sum_digest;
  deserialize = λ w raw. (w raw, (raw, w raw) ∷ []);
  refresh = λ h v. (v ∷ h, true);
}

read_one :
    (w : World) (raw path : Text) (r : Option Text)
    → Mem (path, r) (libraries.deserialize w raw).1
    → w path ≡ r
read_one w raw path r (inl e) = ap (λ x. w x.0) e ∙ sym (ap (λ x. x.1) e)
read_one w raw path r (inr m) = elim m [ ]

reads_one :
    (v w : World) (raw : Text)
    → ((path : Text) (r : Option Text) → Mem (path, r) (libraries.deserialize v raw).1 → w path ≡ r)
    → libraries.deserialize w raw ≡ libraries.deserialize v raw
reads_one v w raw h = ap (λ o. (o, (raw, o) ∷ [])) (h raw (v raw) (inl refl))

libraries-LibraryLaws : LibraryLaws libraries
libraries-LibraryLaws = record { reads_true = read_one; reads_only = reads_one }

-- The file 7 has a value, in both worlds; the file 8 is new in the second.
abbrev before : World
before path = if eq_text path (7 ∷ []) then some (1 ∷ 2 ∷ []) else none

abbrev after : World
after path =
    if eq_text path (7 ∷ [])
    then some (1 ∷ 2 ∷ [])
    else (if eq_text path (8 ∷ []) then some (3 ∷ []) else none)

no_collision_lem :
    (path a b : Text)
    → before path ≡ some a
    → after path ≡ some b
    → sum_digest b ≡ sum_digest a
    → b ≡ a
no_collision_lem path a b f g h = elim (Bool-cases (eq_text path (7 ∷ []))) [
  | inl e ↦
      let f' : some (1 ∷ 2 ∷ []) ≡ some a = rw e at f in
      let g' : some (1 ∷ 2 ∷ []) ≡ some b = rw e at g in cc
  | inr e ↦ let f' : none ≡ some a = rw e at f in ground arith
]

no_collision : NoCollision libraries before after (7 ∷ []) (7 ∷ [])
no_collision = (λ e. refl, no_collision_lem)

up_to_date_sound_example : (parse libraries after (7 ∷ [])).0 ≡ (parse libraries before (7 ∷ [])).0
unfolding parse up_to_date
up_to_date_sound_example =
    up_to_date_sound libraries libraries-LibraryLaws before after (7 ∷ []) (7 ∷ []) no_collision
      refl

-- The configuration stands in file 9.
abbrev runtime_yml : Text
runtime_yml = 9 ∷ []

abbrev online : World
online path = if eq_text path runtime_yml then some (7 ∷ []) else before path

abbrev offline : World
offline path = none

abbrev loaded : Reload libraries
loaded = record {
  files = (parse libraries online (7 ∷ [])).1;
  handle = (1 ∷ 2 ∷ []) ∷ [];
  config_ok = true;
}

outage-stays_example :
    (reload_all libraries runtime_yml (offline ∷ online ∷ online ∷ []) loaded).config_ok ≡ false
unfolding parse up_to_date
outage-stays_example =
    outage-stays libraries runtime_yml offline (online ∷ online ∷ []) loaded refl
      ((7 ∷ [], refl, refl), ((7 ∷ [], refl, refl), record {}))

-- A file that changes is read.
reads_change :
    (reload libraries runtime_yml
      (λ path. if eq_text path runtime_yml then some (8 ∷ []) else after path)
      loaded).handle
    ≡ (3 ∷ []) ∷ (1 ∷ 2 ∷ []) ∷ []
unfolding parse up_to_date reload
reads_change = refl
