-- ===== src/EndpointHealth/Streaks.antt =====
-- witchcraft-server/src/health/endpoint_500s.rs: an endpoint is unhealthy where its 500s have come
-- close enough to each other for long enough.
use witchcraft_rust_server.Common.{
  ℕ, ◌+◌, ◌≡◌, refl, Bool, false, not, List, [], ◌∷◌, if◌then◌else◌, ltb, arith, ◌⊎◌, inl, inr, ◌<◌,
  ◌≤◌, ◌&&◌,
}
use witchcraft_rust_server.EndpointHealth.{
  Unhealthy, unhealthy_healthy, unhealthy_errors, tick, unhealthy_error, unhealthy_check,
  grace_period, evaluation_period,
}

pub data Event : Type 0 where
  error_at : ℕ → Event
  check_at : ℕ → Event

abbrev pub time : Event → ℕ
time (error_at t) = t
time (check_at t) = t

-- The state after the events, the latest first
abbrev pub run : List Event → Unhealthy
run [] = unhealthy_healthy
run (error_at t ∷ es) = unhealthy_error (run es) t
run (check_at t ∷ es) = (unhealthy_check (run es) t).0

-- No event is later than the time or than a later event.
abbrev pub IsOrdered : ℕ → List Event → Type 0
IsOrdered now [] = Unit
IsOrdered now (e ∷ es) = (time e ≤ now) × IsOrdered (time e) es

-- The times of the errors, the latest first
abbrev pub error_times : List Event → List ℕ
error_times [] = []
error_times (error_at t ∷ es) = t ∷ error_times es
error_times (check_at t ∷ es) = error_times es

-- The first of the errors that lead up to an error at `t`, none more than a grace period after
-- the one before.
abbrev pub streak_start : ℕ → List ℕ → ℕ
streak_start t [] = t
streak_start t (u ∷ us) =
    let first = streak_start u us in if ltb (u + grace_period) t then t else first

abbrev pub is_unhealthy : ℕ → List ℕ → Bool
is_unhealthy now [] = false
is_unhealthy now (t ∷ ts) =
    not (ltb (t + grace_period) now) && ltb (streak_start t ts + evaluation_period) now

-- What the state tells of the errors, at a time: the streak, or that it is over.
abbrev pub Follows : ℕ → List ℕ → Unhealthy → Type 0
Follows now [] u = u ≡ unhealthy_healthy
Follows now (t ∷ ts) u =
    (u ≡ unhealthy_errors (streak_start t ts) t)
    ⊎ ((u ≡ unhealthy_healthy) × (t + grace_period < now))

Follows-later : (a b : ℕ) (ts : List ℕ) (u : Unhealthy) → a ≤ b → Follows a ts u → Follows b ts u
Follows-later a b [] u l h = h
Follows-later a b (t ∷ ts) u l (inl h) = inl h
Follows-later a b (t ∷ ts) u l (inr (h, k)) = inr (h, omega arith)

error-Follows :
    (t : ℕ) (ts : List ℕ) (u : Unhealthy)
    → Follows t ts u
    → Follows t (t ∷ ts) (unhealthy_error u t)
unfolding unhealthy_error tick
error-Follows t [] u h = inl (ground arith)
error-Follows t (s ∷ ts) u (inl h) = inl (ground arith)
error-Follows t (s ∷ ts) u (inr (h, k)) = inl (ground arith)

check-Follows :
    (t : ℕ) (ts : List ℕ) (u : Unhealthy) → Follows t ts u → Follows t ts (unhealthy_check u t).0
unfolding unhealthy_check tick
check-Follows t [] u h = ground arith
check-Follows t (s ∷ ts) u (inl h) = ground arith
check-Follows t (s ∷ ts) u (inr (h, k)) = inr (ground arith, k)

run-Follows : (now : ℕ) (es : List Event) → IsOrdered now es → Follows now (error_times es) (run es)
run-Follows now [] o = refl
run-Follows now (error_at t ∷ es) (l, o) =
    Follows-later t now (t ∷ error_times es) (unhealthy_error (run es) t) l
      (error-Follows t (error_times es) (run es) (run-Follows t es o))
run-Follows now (check_at t ∷ es) (l, o) =
    Follows-later t now (error_times es) (unhealthy_check (run es) t).0 l
      (check-Follows t (error_times es) (run es) (run-Follows t es o))

check-answer :
    (now : ℕ) (ts : List ℕ) (u : Unhealthy)
    → Follows now ts u
    → (unhealthy_check u now).1 ≡ is_unhealthy now ts
unfolding unhealthy_check tick
check-answer now [] u h = ground arith
check-answer now (t ∷ ts) u (inl h) = ground arith
check-answer now (t ∷ ts) u (inr (h, k)) = ground arith

-- After errors and checks in the order of time, a check answers true exactly where the last error
-- is at most a grace period old and the errors that lead up to it, with no gap above a grace
-- period, began more than an evaluation period ago: the checks in between change nothing.
pub run-check :
    (now : ℕ) (es : List Event)
    → IsOrdered now es
    → (unhealthy_check (run es) now).1 ≡ is_unhealthy now (error_times es)
run-check now es o = check-answer now (error_times es) (run es) (run-Follows now es o)
