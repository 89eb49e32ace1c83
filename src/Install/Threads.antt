-- ===== src/Install/Threads.antt =====
-- install/mod.rs: the sizes that a document leaves to their defaults.
use witchcraft_rust_server.Common.{ℕ, ◌*◌, ◌^◌, ◌≤◌, ◌<◌, ◌/◌, ◌≡◌, ◌∙◌, none, arith}
use witchcraft_rust_server.Install.{
  Environment, RawServer, io_threads, max_connections, max_threads, min_threads, server_of, usize,
  unwrap_or, max,
}

wrap : (n : ℕ) → n < 2 ^ 64 → usize n ≡ n
wrap n h = omega arith

-- The same of a number of processors
abbrev Sizes : ℕ → Type 0
Sizes p =
    (usize (p * 8) ≡ 8 * p)
    × (usize (p * 8) ≤ max (usize (p * 32)) 256)
    × (256 ≤ max (usize (p * 32)) 256)
    × (32 * p ≤ max (usize (p * 32)) 256)
    × (usize (max (usize (p * 32)) 256 * 10) ≡ 10 * max (usize (p * 32)) 256)
    × (1 ≤ max 1 (p / 2))
    × (max 1 (p / 2) ≤ max 1 p)

max_ge : (a b : ℕ) → (a ≤ max a b) × (b ≤ max a b)
max_ge a b = (ground arith, ground arith)

max_le : (a b c : ℕ) → a ≤ c → b ≤ c → max a b ≤ c
max_le a b c h k = ground arith

sizes : (p : ℕ) → p ≤ 2 ^ 54 → Sizes p
sizes p h =
    let w : usize (p * 32) ≡ p * 32 = wrap (p * 32) (omega arith) in
    let v : usize (p * 8) ≡ p * 8 = wrap (p * 8) (omega arith) in
    let m = max_ge (p * 32) 256 in
    let l : max (p * 32) 256 ≤ 2 ^ 59 = max_le (p * 32) 256 (2 ^ 59) (omega arith) (omega arith) in
    let x : usize (max (p * 32) 256 * 10) ≡ max (p * 32) 256 * 10 =
      wrap (max (p * 32) 256 * 10) (omega arith) in
    rw (w, v)
      (
        omega arith,
        omega arith,
        m.1,
        omega arith,
        x ∙ omega arith,
        (max_ge 1 (p / 2)).0,
        max_le 1 (p / 2) (max 1 p) (max_ge 1 p).0 (omega (arith, (max_ge 1 p).1)),
      )

-- Where the document gives no number of threads or of connections, and the machine or the document
-- has at most 2 ^ 54 processors: the pool's minimum is eight times, its maximum at least thirty-two
-- times and 256, so that the minimum is not more than the maximum; there are ten connections to a
-- thread; and there is an I/O thread, and no more of them than processors, unless there is none.
pub server-sizes :
    (env : Environment) (raw : RawServer)
    → raw.min_threads ≡ none
    → raw.max_threads ≡ none
    → raw.max_connections ≡ none
    → raw.io_threads ≡ none
    → (server_of env raw).processors ≤ 2 ^ 54
    → (min_threads (server_of env raw) ≡ 8 * (server_of env raw).processors)
      × (min_threads (server_of env raw) ≤ max_threads (server_of env raw))
      × (256 ≤ max_threads (server_of env raw))
      × (32 * (server_of env raw).processors ≤ max_threads (server_of env raw))
      × (max_connections (server_of env raw) ≡ 10 * max_threads (server_of env raw))
      × (1 ≤ io_threads (server_of env raw))
      × (io_threads (server_of env raw) ≤ max 1 (server_of env raw).processors)
unfolding server_of min_threads max_threads max_connections io_threads
server-sizes env raw a b c d h = rw (a, b, c, d) (sizes (unwrap_or raw.processors env.num_cpus) h)
