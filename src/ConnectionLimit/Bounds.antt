-- ===== src/ConnectionLimit/Bounds.antt =====
-- connection_limit.rs, connection_metrics.rs: how many connections there are at any time.
use witchcraft_rust_server.Common.{ℕ, ◌+◌, ◌-◌, ◌≤◌, ◌<◌, ◌≡◌, ◌⊎◌, inl, inr, refl, ap, arith}
use witchcraft_rust_server.Install.{InstallConfig, max_connections}
use witchcraft_rust_server.ConnectionLimit.{
  Acceptor, Reach, Server, Step, abort, aborted, aborts, accept, accepting, accepts, acquire,
  acquires, acquiring, close, closes, new, released, starts, then_step,
}

-- No permit is lost or made.
abbrev Counted : ℕ → Server → Type 0
Counted max s = (s.permits + released s.acceptor + s.live ≡ max) × (s.active_connections ≡ s.live)

step-Counted : (max : ℕ) {s t : Server} → Step s t → Counted max s → Counted max t
unfolding acquire accept close abort
step-Counted max {s} (acquires {n = n} a p) (c, e) =
    let held : released s.acceptor ≡ 0 = ap released a in (omega (arith, held, p, c), e)
step-Counted max {s} (accepts a) (c, e) =
    let held : released s.acceptor ≡ 1 = ap released a in (omega (arith, held, c), omega (arith, e))
step-Counted max {s} (closes {n = n} l) (c, e) = (omega (arith, l, c), omega (arith, l, e))
step-Counted max {s} aborts (c, e) = (omega (arith, c), e)

Reach-Counted :
    {config : InstallConfig} {s : Server}
    → Reach config s
    → Counted (max_connections config.server) s
unfolding new
Reach-Counted starts = (omega arith, refl)
Reach-Counted {config} (then_step r st) =
    step-Counted (max_connections config.server) st (Reach-Counted r)

can_acquire :
    (s : Server) (max : ℕ)
    → Counted max s
    → s.live < max
    → (s.acceptor ≡ aborted) ⊎ ((s.acceptor ≡ accepting) ⊎ Step s (acquire s))
can_acquire s max (c, e) h = go s.acceptor refl
  where
    go :
        (a : Acceptor)
        → s.acceptor ≡ a
        → (s.acceptor ≡ aborted) ⊎ ((s.acceptor ≡ accepting) ⊎ Step s (acquire s))
    go aborted q = inl q
    go accepting q = inr (inl q)
    go acquiring q =
        let held : released s.acceptor ≡ 0 = ap released q in
        let more : 0 < s.permits = omega (arith, held, c, h) in
        inr (inr (acquires {n = s.permits - 1} q (omega (arith, more))))

-- Whatever the order in which connections come and go: there are never more of them than the
-- configuration's `max_connections`, also counting the one that is being accepted; the counter of the
-- metric is their number; and as long as there are fewer, the loop is accepting one or can take a
-- permit for it, unless the server shuts down.
pub connections_bounded :
    {config : InstallConfig} {s : Server}
    → Reach config s
    → (s.live + released s.acceptor ≤ max_connections config.server)
      × (s.active_connections ≡ s.live)
      × ((max_connections config.server ≤ s.live)
          ⊎ ((s.acceptor ≡ aborted) ⊎ ((s.acceptor ≡ accepting) ⊎ Step s (acquire s))))
connections_bounded {config} {s} r =
    let (c, e) = Reach-Counted r in
    (omega (arith, c), e, room (compare_le (max_connections config.server) s.live))
  where
    compare_le : (m l : ℕ) → (m ≤ l) ⊎ (l < m)
    compare_le m l = ground arith

    room :
        (max_connections config.server ≤ s.live) ⊎ (s.live < max_connections config.server)
        → (max_connections config.server ≤ s.live)
          ⊎ ((s.acceptor ≡ aborted) ⊎ ((s.acceptor ≡ accepting) ⊎ Step s (acquire s)))
    room (inl h) = inl h
    room (inr h) = inr (can_acquire s (max_connections config.server) (Reach-Counted r) h)
