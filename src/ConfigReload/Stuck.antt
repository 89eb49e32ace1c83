-- ===== src/ConfigReload/Stuck.antt =====
-- configs.rs: the flag of the health check after the file could not be read.
use witchcraft_rust_server.Common.{◌≡◌, refl, ap, ◌∙◌, true, false, none, some, List, [], ◌∷◌, All}
use witchcraft_rust_server.Http.{Text}
use witchcraft_rust_server.ConfigReload.{
  World, ConfigFiles, Libraries, Reload, up_to_date, reload, reload_all,
}

module _ {T R : Type 0} (lib : Libraries T R) (runtime_yml : Text) where
  -- The configuration and the files that it names are in this world as when it was last read.
  abbrev pub IsUnchanged : ConfigFiles → World → Type 0
  IsUnchanged files w =
      (raw : Text) × (w runtime_yml ≡ some raw) × (up_to_date lib w raw files ≡ true)

  reload-unchanged :
      (w : World) (r : Reload lib) → IsUnchanged r.files w → reload lib runtime_yml w r ≡ r
  unfolding reload
  reload-unchanged w r (raw, e, u) = rw e (rw u refl)

  reload_all-unchanged :
      (ws : List World) (r : Reload lib)
      → All (IsUnchanged r.files) ws
      → reload_all lib runtime_yml ws r ≡ r
  reload_all-unchanged [] r a = refl
  reload_all-unchanged (w ∷ ws) r (u, a) =
      ap (reload_all lib runtime_yml ws) (reload-unchanged w r u) ∙ reload_all-unchanged ws r a

  -- Where the configuration cannot be read once and is then back as it was, the flag of the health
  -- check is false after the next rounds, however many there are.
  pub outage-stays :
      (outage : World) (ws : List World) (r : Reload lib)
      → outage runtime_yml ≡ none
      → All (IsUnchanged r.files) ws
      → (reload_all lib runtime_yml (outage ∷ ws) r).config_ok ≡ false
  unfolding reload
  outage-stays outage ws r o a =
      let failed : Reload lib = record r { config_ok = false } in
      let first : reload lib runtime_yml outage r ≡ failed = rw o refl in
      ap (λ s. s.config_ok)
        (ap (reload_all lib runtime_yml ws) first ∙ reload_all-unchanged ws failed a)
