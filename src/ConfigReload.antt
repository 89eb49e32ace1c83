-- ===== src/ConfigReload.antt =====
-- witchcraft-server/src/configs.rs: reloading the runtime configuration. `fs::read` is an argument, a
-- world that gives a path its bytes or an error, and so are Sha256, the deserialisers of serde and
-- the handle of the crate `refreshable`. The key that `load_key` reads at the start belongs to the
-- deserialisers. Files do not change during a round. The log lines are left out.
pub mod Unchanged
pub mod Stuck
mod Tests
use witchcraft_rust_server.Common.{
  ℕ, ◌≡◌, Bool, true, false, not, ◌&&◌, Option, none, some, List, [], ◌∷◌, if◌then◌else◌, ◌==◌,
  is_some,
}
use witchcraft_rust_server.Http.{Text, eq_text}
use witchcraft_rust_server.Assoc.{insert}

abbrev pub World : Type 0
World = Text → Option Text

pub record ConfigFiles : Type 0 where
  pub root_hash : ℕ
  pub ok_files : List (Text × ℕ)
  pub err_files : List Text

-- What the libraries do: a digest is a number; the deserialisers read a configuration, with the paths
-- of the files that it names, each with what reading it gave; `refresh` gives the subscribers a
-- value and says whether all took it.
pub record Libraries (T R : Type 0) : Type 0 where
  pub digest : Text → ℕ
  pub deserialize : World → Text → Option T × List (Text × Option Text)
  pub refresh : R → T → R × Bool

module _ {T R : Type 0} (lib : Libraries T R) where
  unfoldable pub add : Text → Option Text → ConfigFiles → ConfigFiles
  add path (some bytes) files = record files {
    ok_files = insert path (lib.digest bytes) files.ok_files;
  }
  add path none files = record files { err_files = path ∷ files.err_files }

  -- The callback for each file that is read
  unfoldable pub add_all : List (Text × Option Text) → ConfigFiles → ConfigFiles
  unfolding add
  add_all [] files = files
  add_all ((path, r) ∷ rest) files = add_all rest (add path r files)

  unfoldable pub parse : World → Text → Option T × ConfigFiles
  unfolding add_all
  parse w raw =
      let (value, reads) = lib.deserialize w raw in
      (value, add_all reads (record { root_hash = lib.digest raw; ok_files = []; err_files = [] }))

  abbrev pub same_hash : Option Text → ℕ → Bool
  same_hash none hash = false
  same_hash (some bytes) hash = hash == lib.digest bytes

  abbrev pub ok_unchanged : World → List (Text × ℕ) → Bool
  ok_unchanged w [] = true
  ok_unchanged w ((path, hash) ∷ rest) = same_hash (w path) hash && ok_unchanged w rest

  abbrev pub err_unchanged : World → List Text → Bool
  err_unchanged w [] = true
  err_unchanged w (path ∷ rest) = not (is_some (w path)) && err_unchanged w rest

  unfoldable pub up_to_date : World → Text → ConfigFiles → Bool
  up_to_date w root_bytes files =
      if files.root_hash == lib.digest root_bytes
      then ok_unchanged w files.ok_files && err_unchanged w files.err_files
      else false

  -- The variables of `runtime_reload`, with the flag that it shares with the health check
  pub record Reload : Type 0 where
    pub files : ConfigFiles
    pub handle : R
    pub config_ok : Bool

  abbrev pub refresh_value : Option T → Reload → Reload
  refresh_value none r = record r { config_ok = false }
  refresh_value (some value) r =
      let (handle, ok) = lib.refresh r.handle value in record r { handle = handle; config_ok = ok }

  abbrev pub reload_bytes : World → Option Text → Reload → Reload
  reload_bytes w none r = record r { config_ok = false }
  reload_bytes w (some new_bytes) r =
      let (value, new_files) = parse w new_bytes in
      if up_to_date w new_bytes r.files
      then r
      else refresh_value value (record r { files = new_files })

  -- A round of the loop, where the path of the configuration is `runtime_yml`
  unfoldable pub reload : Text → World → Reload → Reload
  unfolding parse up_to_date
  reload runtime_yml w r = reload_bytes w (w runtime_yml) r

  -- `load_runtime`, where `open_handle` is `Refreshable::new`: none is an error at the start.
  unfoldable pub load_runtime : (T → R) → Text → World → Option Reload
  unfolding parse
  load_runtime open_handle runtime_yml w = elim (w runtime_yml) [
    | none ↦ none
    | some bytes ↦ elim (parse w bytes).0 [
      | none ↦ none
      | some value ↦
          some (record { files = (parse w bytes).1; handle = open_handle value; config_ok = true })
    ]
  ]

  -- The rounds of the loop, each in its world
  abbrev pub reload_all : Text → List World → Reload → Reload
  reload_all runtime_yml [] r = r
  reload_all runtime_yml (w ∷ ws) r = reload_all runtime_yml ws (reload runtime_yml w r)
