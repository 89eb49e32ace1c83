-- ===== src/GracefulShutdown/Waiting.antt =====
-- service/graceful_shutdown.rs: the hook waits for the last connection and is woken by its end.
use witchcraft_rust_server.Common.{
  ℕ, suc, ◌≡◌, ◌<◌, ◌⊎◌, inl, inr, refl, Bool, true, arith, if◌then◌else◌, ◌==◌, Option-cases,
  is_some, Bool-cases,
}
use witchcraft_rust_server.GracefulShutdown.{
  Shared, finished, new, call, drop_guard, poll_hook, Connection, poll_connection, Reach, starts,
  calls, drops, polls, Polled, fresh, polled,
}

-- The count is that of the guards, and a hook that waits and will not be polled has left its waker
-- and has a connection to wait for.
abbrev pub Inv : Shared → ℕ → Type 0
Inv s live =
    (s.state.connections ≡ live)
    × ((s.hook ≡ finished) ⊎ (s.notified ≡ true) ⊎ ((is_some s.state.waker ≡ true) × (0 < live)))

call-Inv : (s : Shared) (live : ℕ) → Inv s live → Inv (call s) (suc live)
unfolding call
call-Inv s live (c, inl h) = (ground arith, inl h)
call-Inv s live (c, inr (inl h)) = (ground arith, inr (inl h))
call-Inv s live (c, inr (inr (h, l))) = (ground arith, inr (inr (h, ground arith)))

drop_guard-Inv : (s : Shared) (live : ℕ) → Inv s (suc live) → Inv (drop_guard s) live
unfolding drop_guard
drop_guard-Inv s live (c, h) = elim (Option-cases s.state.waker) [
  | inl w ↦ (ground arith, ground arith)
  | inr (x, w) ↦ (ground arith, ground arith)
]

poll_hook-Inv : (task : ℕ) (s : Shared) (live : ℕ) → Inv s live → Inv (poll_hook task s) live
unfolding poll_hook
poll_hook-Inv task s live (c, h) = elim (Bool-cases (s.state.connections == 0)) [
  | inl t ↦ (ground arith, inl (ground arith))
  | inr t ↦ (ground arith, inr (inr (ground arith, ground arith)))
]

-- In any interleaving of connections and hook, the count is the number of the connections that are
-- open; and a hook that has not finished and will not be polled has left its waker and has a
-- connection to wait for, whose end wakes it.
pub Reach-Inv : {s : Shared} {live : ℕ} → Reach s live → Inv s live
unfolding new
Reach-Inv starts = (refl, inr (inl refl))
Reach-Inv (calls {s = s} {live = live} r) = call-Inv s live (Reach-Inv r)
Reach-Inv (drops {s = s} {live = live} r) = drop_guard-Inv s live (Reach-Inv r)
Reach-Inv (polls {s = s} {live = live} task r h) = poll_hook-Inv task s live (Reach-Inv r)

-- However often it is polled, a connection is told to shut down once from the first poll after the
-- cancellation on, and not before.
pub Polled-told :
    {c : Connection} {cancelled : Bool}
    → Polled c cancelled
    → (c.is_terminated ≡ cancelled) × (c.told ≡ (if cancelled then 1 else 0))
unfolding poll_connection
Polled-told fresh = (refl, refl)
Polled-told (polled {c = c} {before = before} cancelled p h) =
    let (a, b) = Polled-told p in
    elim (Bool-cases before) [
      | inl t ↦ let u = h t in (ground arith, ground arith)
      | inr t ↦ (ground arith, ground arith)
    ]
