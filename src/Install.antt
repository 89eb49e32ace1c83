-- ===== src/Install.antt =====
-- witchcraft-server-config/src/install/mod.rs and de.rs: the fixed configuration. A document is what
-- serde gives of it, with the keys that it leaves out as `none`; a path is a text, a duration the
-- number of its milliseconds, and `usize` has 64 bits. The number of processors of the machine and
-- whether `CONTAINER` is set come from the environment.
pub mod Threads
mod Tests
use witchcraft_rust_server.Common.{
  ℕ, ◌*◌, ◌/◌, ◌%◌, ◌^◌, Bool, true, false, not, ◌&&◌, ◌||◌, Option, none, some, List, [], ◌∷◌,
  if◌then◌else◌, leb, ◌==◌,
}
use witchcraft_rust_server.Http.{Text, eq_text, text}

-- `/`
abbrev pub root : Text
root = b'/' ∷ []

abbrev pub starts_with : ℕ → Text → Bool
starts_with c [] = false
starts_with c (b ∷ bs) = b == c

abbrev pub ends_with : ℕ → Text → Bool
ends_with c [] = false
ends_with c (b ∷ []) = b == c
ends_with c (a ∷ b ∷ bs) = ends_with c (b ∷ bs)

-- `Option::unwrap_or`, and what a builder does with a key that is given or left out
abbrev pub unwrap_or {ℓ} : {A : Type ℓ} → Option A → A → A
unwrap_or none d = d
unwrap_or (some a) d = a

abbrev pub max : ℕ → ℕ → ℕ
max a b = if leb a b then b else a

abbrev pub usize : ℕ → ℕ
usize n = n % 2 ^ 64

pub record KeystoreConfig : Type 0 where
  pub key_path : Text
  pub cert_path : Text

pub record ClientAuthTruststoreConfig : Type 0 where
  pub path : Text

pub record ServerConfig : Type 0 where
  pub processors : ℕ
  pub min_threads : Option ℕ
  pub max_threads : Option ℕ
  pub max_connections : Option ℕ
  pub io_threads : Option ℕ
  pub idle_thread_timeout : ℕ
  pub shutdown_timeout : ℕ
  pub gzip : Bool
  pub http2 : Bool
  pub idle_connection_timeout : Option ℕ

pub record InstallConfig : Type 0 where
  pub product_name : Text
  pub product_version : Text
  pub port : ℕ
  pub management_port : Option ℕ
  pub keystore : KeystoreConfig
  pub client_auth_truststore : Option ClientAuthTruststoreConfig
  pub context_path : Text
  pub use_console_log : Bool
  pub server : ServerConfig

pub record RawKeystore : Type 0 where
  pub key_path : Option Text
  pub cert_path : Option Text

pub record RawTruststore : Type 0 where
  pub path : Option Text

pub record RawServer : Type 0 where
  pub processors : Option ℕ
  pub min_threads : Option ℕ
  pub max_threads : Option ℕ
  pub max_connections : Option ℕ
  pub io_threads : Option ℕ
  pub idle_thread_timeout : Option ℕ
  pub shutdown_timeout : Option ℕ
  pub gzip : Option Bool
  pub http2 : Option Bool
  pub idle_connection_timeout : Option ℕ

pub record RawInstall : Type 0 where
  pub product_name : Text
  pub product_version : Text
  pub port : ℕ
  pub management_port : Option ℕ
  pub keystore : Option RawKeystore
  pub client_auth_truststore : Option RawTruststore
  pub context_path : Option Text
  pub use_console_log : Option Bool
  pub server : Option RawServer

-- `num_cpus::get()`, and `env::var_os("CONTAINER").is_some()`
pub record Environment : Type 0 where
  pub num_cpus : ℕ
  pub container : Bool

-- `KeystoreConfig::deserialize`; its `default` is that of a document with no keys.
unfoldable pub keystore_of : RawKeystore → KeystoreConfig
keystore_of raw = record {
  key_path = unwrap_or raw.key_path (text "var/security/key.pem");
  cert_path = unwrap_or raw.cert_path (text "var/security/cert.cer");
}

unfoldable pub truststore_of : RawTruststore → ClientAuthTruststoreConfig
truststore_of raw = record { path = unwrap_or raw.path (text "var/security/ca.cer") }

abbrev empty_keystore : RawKeystore
empty_keystore = record { key_path = none; cert_path = none }

abbrev pub empty_server : RawServer
empty_server = record {
  processors = none;
  min_threads = none;
  max_threads = none;
  max_connections = none;
  io_threads = none;
  idle_thread_timeout = none;
  shutdown_timeout = none;
  gzip = none;
  http2 = none;
  idle_connection_timeout = none;
}

-- `ServerConfig::deserialize`; its `default` is that of a document with no keys.
unfoldable pub server_of : Environment → RawServer → ServerConfig
server_of env raw = record {
  processors = unwrap_or raw.processors env.num_cpus;
  min_threads = raw.min_threads;
  max_threads = raw.max_threads;
  max_connections = raw.max_connections;
  io_threads = raw.io_threads;
  idle_thread_timeout = unwrap_or raw.idle_thread_timeout 300000;
  shutdown_timeout = unwrap_or raw.shutdown_timeout 15000;
  gzip = unwrap_or raw.gzip true;
  http2 = unwrap_or raw.http2 false;
  idle_connection_timeout = raw.idle_connection_timeout;
}

-- The test of `validate`
unfoldable pub is_valid : Text → Bool
is_valid path = eq_text path root || (starts_with b'/' path && not (ends_with b'/' path))

-- `validate`: `none` is the `ConfigError`.
unfoldable pub validate : InstallConfig → Option InstallConfig
unfolding is_valid
validate c = if not (is_valid c.context_path) then none else some c

abbrev option_map : {A B : Type 0} → (A → B) → Option A → Option B
option_map f none = none
option_map f (some a) = some (f a)

-- What the builder holds before `build`
unfoldable pub built : Environment → RawInstall → InstallConfig
unfolding keystore_of truststore_of server_of
built env raw = record {
  product_name = raw.product_name;
  product_version = raw.product_version;
  port = raw.port;
  management_port = raw.management_port;
  keystore = keystore_of (unwrap_or raw.keystore empty_keystore);
  client_auth_truststore = option_map truststore_of raw.client_auth_truststore;
  context_path = unwrap_or raw.context_path root;
  use_console_log = unwrap_or raw.use_console_log env.container;
  server = server_of env (unwrap_or raw.server empty_server);
}

-- `InstallConfig::deserialize`
unfoldable pub deserialize : Environment → RawInstall → Option InstallConfig
unfolding validate built
deserialize env raw = validate (built env raw)

-- The accessors of `ServerConfig` that compute
unfoldable pub min_threads : ServerConfig → ℕ
min_threads c = unwrap_or c.min_threads (usize (c.processors * 8))

unfoldable pub max_threads : ServerConfig → ℕ
max_threads c = unwrap_or c.max_threads (max (usize (c.processors * 32)) 256)

unfoldable pub max_connections : ServerConfig → ℕ
unfolding max_threads
max_connections c = unwrap_or c.max_connections (usize (max_threads c * 10))

unfoldable pub io_threads : ServerConfig → ℕ
io_threads c = unwrap_or c.io_threads (max 1 (c.processors / 2))
