-- ===== src/EndpointHealth/Startup.antt =====
-- witchcraft-server/src/health/endpoint_500s.rs: an endpoint is broken where it has failed since
-- the start.
use witchcraft_rust_server.Common.{
  ℕ, suc, ◌+◌, ◌≡◌, refl, ap, true, false, List, [], ◌∷◌, if◌then◌else◌, ltb, ◌==◌, arith, ◌⊎◌, inl,
  inr, ◌∙◌, ◌<◌, ◌≤◌,
}
use witchcraft_rust_server.EndpointHealth.{
  State, broken_healthy, broken_errors, broken_broken, new, mark, is_server_error, broken_threshold,
  broken_check, broken_error, broken_success,
}

-- The answers of an endpoint, each with its status and its time, the earliest first
abbrev pub mark_all : State → List (ℕ × ℕ) → State
mark_all s [] = s
mark_all s ((status, now) ∷ rest) = mark_all (mark s status now) rest

-- The number of the 500s before the first answer that is no server error
abbrev pub failures : List (ℕ × ℕ) → ℕ
failures [] = 0
failures ((status, _) ∷ rest) =
    let n = failures rest in
    if status == 500 then suc n else if is_server_error status then n else 0

mark-healthy :
    (s : State) (status now : ℕ)
    → s.broken ≡ broken_healthy
    → (mark s status now).broken ≡ broken_healthy
unfolding mark broken_error broken_success
mark-healthy s status now h = ground arith

mark-broken :
    (s : State) (status now : ℕ)
    → s.broken ≡ broken_broken
    → (mark s status now).broken ≡ broken_broken
unfolding mark broken_error broken_success
mark-broken s status now h = ground arith

mark_all-healthy :
    (s : State) (log : List (ℕ × ℕ))
    → s.broken ≡ broken_healthy
    → (mark_all s log).broken ≡ broken_healthy
mark_all-healthy s [] h = h
mark_all-healthy s ((status, now) ∷ log) h =
    mark_all-healthy (mark s status now) log (mark-healthy s status now h)

mark_all-broken_broken :
    (s : State) (log : List (ℕ × ℕ))
    → s.broken ≡ broken_broken
    → (mark_all s log).broken ≡ broken_broken
mark_all-broken_broken s [] h = h
mark_all-broken_broken s ((status, now) ∷ log) h =
    mark_all-broken_broken (mark s status now) log (mark-broken s status now h)

mark-errors :
    (s : State) (status now n : ℕ)
    → s.broken ≡ broken_errors n
    → n ≤ broken_threshold
    → ((mark s status now).broken ≡ broken_broken × (status ≡ 500) × (n ≡ broken_threshold))
      ⊎ ((mark s status now).broken ≡ broken_errors (suc n)
          × (status ≡ 500)
          × (n < broken_threshold))
      ⊎ ((mark s status now).broken ≡ broken_errors n
          × ((status == 500) ≡ false)
          × (is_server_error status ≡ true))
      ⊎ ((mark s status now).broken ≡ broken_healthy
          × ((status == 500) ≡ false)
          × (is_server_error status ≡ false))
unfolding mark broken_error broken_success
mark-errors s status now n h l = ground arith

mark_all-count :
    (s : State) (log : List (ℕ × ℕ)) (n : ℕ)
    → s.broken ≡ broken_errors n
    → n ≤ broken_threshold
    → broken_check (mark_all s log).broken ≡ ltb broken_threshold (n + failures log)
unfolding broken_check
mark_all-count s [] n h l = ground arith
mark_all-count s ((status, now) ∷ log) n h l =
    let s' = mark s status now in
    elim (mark-errors s status now n h l) [
      | inl (b, e, k) ↦ let a = mark_all-broken_broken s' log b in ground arith
      | inr (inl (b, e, k)) ↦ let a = mark_all-count s' log (suc n) b (ground arith) in ground arith
      | inr (inr (inl (b, e, k))) ↦ let a = mark_all-count s' log n b l in ground arith
      | inr (inr (inr (b, e, k))) ↦ let a = mark_all-healthy s' log b in ground arith
    ]

-- After any answers, the endpoint counts as broken exactly where more than fifty 500s came before
-- the first answer that was no server error.
pub mark_all-broken :
    (log : List (ℕ × ℕ))
    → broken_check (mark_all new log).broken ≡ ltb broken_threshold (failures log)
unfolding new
mark_all-broken log =
    let h = mark_all-count new log 0 refl (ground arith) in
    h ∙ ap (ltb broken_threshold) (omega arith)
