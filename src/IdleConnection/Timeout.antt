-- ===== src/IdleConnection/Timeout.antt =====
-- service/idle_connection.rs: when a connection times out.
use witchcraft_rust_server.Common.{
  ℕ, suc, ◌+◌, ◌≡◌, ◌≤◌, ◌<◌, ◌⊎◌, inl, inr, refl, true, arith, Option-cases,
}
use witchcraft_rust_server.IdleConnection.{
  active, idle, shutting_down, State, new, poll_timed_out, graceful_shutdown, poll, inc_active,
  dec_active, Reach, opens, waits, starts, ends, polls, stops,
}

-- What the mode says of the requests that are not done
abbrev pub Counts : ℕ → State → ℕ → ℕ → Type 0
Counts timeout s live since =
    (s.idle_timeout ≡ timeout)
    × ((s.mode ≡ shutting_down)
        ⊎ ((s.mode ≡ active live) × (0 < live))
        ⊎ ((s.mode ≡ idle) × (live ≡ 0) × (s.deadline ≡ since + timeout)))

inc_active-Counts :
    (timeout live since : ℕ) (s : State)
    → Counts timeout s live since
    → Counts timeout (inc_active s) (suc live) since
unfolding inc_active
inc_active-Counts timeout live since s (t, inl h) = (t, inl (ground arith))
inc_active-Counts timeout live since s (t, inr (inl (h, l))) =
    (t, inr (inl (ground arith, ground arith)))
inc_active-Counts timeout live since s (t, inr (inr (h, l, d))) =
    (t, inr (inl (ground arith, ground arith)))

dec_active-Counts :
    (timeout live since now : ℕ) (s : State)
    → Counts timeout s (suc live) since
    → Counts timeout (dec_active now s) live now
unfolding dec_active
dec_active-Counts timeout live since now s (t, inl h) = (ground arith, inl (ground arith))
dec_active-Counts timeout live since now s (t, inr (inl (h, l))) = elim (Option-cases s.waker) [
  | inl w ↦ (ground arith, ground arith)
  | inr (x, w) ↦ (ground arith, ground arith)
]
dec_active-Counts timeout live since now s (t, inr (inr (h, l, d))) = ground arith

poll-Counts :
    (timeout live since task now : ℕ) (s : State)
    → Counts timeout s live since
    → Counts timeout (poll task now s) live since
unfolding poll poll_timed_out graceful_shutdown
poll-Counts timeout live since task now s (t, inl h) = (ground arith, inl (ground arith))
poll-Counts timeout live since task now s (t, inr (inl (h, l))) =
    (ground arith, inr (inl (ground arith, l)))
poll-Counts timeout live since task now s (t, inr (inr (h, l, d))) = (ground arith, ground arith)

-- In any history of requests, polls and shutdowns, the mode counts the requests that are not done
-- or says that there are none, unless the connection is being shut down; while it says so, the
-- timer stands at the end of the last request plus the timeout.
pub Reach-Counts :
    {timeout start now live since : ℕ} {s : State}
    → Reach timeout start s now live since
    → Counts timeout s live since
unfolding new graceful_shutdown
Reach-Counts opens = (refl, inr (inr (refl, refl, refl)))
Reach-Counts (waits later r l) = Reach-Counts r
Reach-Counts (starts {s = s} {live = live} {since = since} r) =
    inc_active-Counts _ live since s (Reach-Counts r)
Reach-Counts (ends {s = s} {now = now} {live = live} {since = since} r) =
    dec_active-Counts _ live since now s (Reach-Counts r)
Reach-Counts (polls {s = s} {now = now} {live = live} {since = since} task r) =
    poll-Counts _ live since task now s (Reach-Counts r)
Reach-Counts (stops r) = ((Reach-Counts r).0, inl refl)

-- In any history, a connection is timed out only where no request is left on it and the timeout
-- has passed since the last one ended, or since it was opened.
pub poll_timed_out-idle :
    {timeout start now live since : ℕ} {s : State} (task : ℕ)
    → Reach timeout start s now live since
    → (poll_timed_out task now s).1 ≡ true
    → (live ≡ 0) × (since + timeout ≤ now)
unfolding poll_timed_out
poll_timed_out-idle {timeout} {start} {now} {live} {since} {s} task r h = elim (Reach-Counts r).1 [
  | inl m ↦ ground arith
  | inr (inl (m, l)) ↦ ground arith
  | inr (inr (m, l, d)) ↦ (l, ground arith)
]
