-- ===== src/RollingFile/Termination.antt =====
-- witchcraft-server/src/logging/logger/rolling_file.rs: the loop of `poll_ready` ends.
use witchcraft_rust_server.Common.{
  ℕ, suc, inl, inr, Bool-cases, ◌≡◌, ◌≢◌, refl, Bool, true, false, ◌&&◌, ◌==◌, Option, some, ◌∷◌,
  arith,
}
use witchcraft_rust_server.Poll.{Result, Poll}
use witchcraft_rust_server.FileBytes.{File}
use witchcraft_rust_server.RollingFile.{
  Fs, CurrentFile, Task, rotate, open_log, State, live, rotating, RollingFileAppender, Step, return,
  continue, step_live, step_open, step_rotating, step_state, step, after_step, poll_ready,
}

module _ {W F A E : Type 0} (fs : Fs W F E) (file : File F A E) where
  Returns : Option (W × RollingFileAppender F A × Poll (Result E)) → Type 0
  Returns o = (r : W × RollingFileAppender F A × Poll (Result E)) × (o ≡ some r)

  after_step-Returns :
      (s : Step fs file)
      (again : W → RollingFileAppender F A → Option (W × RollingFileAppender F A × Poll (Result E)))
      → ((w : W) (a : RollingFileAppender F A) → s ≡ continue w a → Returns (again w a))
      → Returns (after_step fs file s again)
  unfolding after_step Returns
  after_step-Returns (return w a p) again k = ((w, a, p), refl)
  after_step-Returns (continue w a) again k = k w a refl

  abbrev is_fresh : ℕ → State F A → Bool
  is_fresh today (live f) = f.len == 0 && f.date == today
  is_fresh today (rotating _) = false

  abbrev is_rotating : State F A → Bool
  is_rotating (live _) = false
  is_rotating (rotating _) = true

  module _ (today : ℕ) (same_day : (w : W) → (fs.now w).1 ≡ today) where
    step_open-is_fresh :
        (w v : W) (a b : RollingFileAppender F A)
        → step_open fs file w a ≡ continue v b
        → is_fresh today b.state ≡ true
    unfolding step_open
    step_open-is_fresh w v a b e = ground (arith, same_day (fs.open_log w).0)

    step_rotating-is_fresh :
        (t : Task) (w v : W) (a b : RollingFileAppender F A)
        → step_rotating fs file t w a ≡ continue v b
        → is_fresh today b.state ≡ true
    unfolding step_rotating
    step_rotating-is_fresh open_log w v a b e = step_open-is_fresh w v a b e
    step_rotating-is_fresh (rotate d n) w v a b e = ground (
      arith,
      step_open-is_fresh (fs.rename d n w).0 v (record a { spawned = (d, n) ∷ a.spawned }) b,
    )

    step_live-is_rotating :
        (f : CurrentFile F A) (w v : W) (a b : RollingFileAppender F A)
        → step_live fs file f w a ≡ continue v b
        → is_rotating b.state ≡ true
    unfolding step_live
    step_live-is_rotating f w v a b e = ground arith

    step_fresh_returns :
        (s : State F A) (w v : W) (a b : RollingFileAppender F A)
        → is_fresh today s ≡ true
        → step_state fs file s w a ≢ continue v b
    unfolding step_state step_live
    step_fresh_returns (live f) w v a b h = ground (arith, same_day w)
    step_fresh_returns (rotating _) w v a b h = cc

    fresh-Returns :
        (fuel : ℕ) (w : W) (a : RollingFileAppender F A)
        → is_fresh today a.state ≡ true
        → Returns (poll_ready fs file (suc fuel) w a)
    unfolding poll_ready step
    fresh-Returns fuel w a h =
        after_step-Returns (step fs file w a) _
          (λ v b e. absurd (step_fresh_returns a.state w v a b h e))

    rotating-Returns :
        (fuel : ℕ) (w : W) (a : RollingFileAppender F A)
        → is_rotating a.state ≡ true
        → Returns (poll_ready fs file (suc (suc fuel)) w a)
    unfolding poll_ready step
    rotating-Returns fuel w a h =
        after_step-Returns (step fs file w a) _
          (λ v b e. fresh-Returns fuel v b (rotating_fresh a.state w v a b h e))
      where
        rotating_fresh :
            (s : State F A) (w v : W) (a b : RollingFileAppender F A)
            → is_rotating s ≡ true
            → step_state fs file s w a ≡ continue v b
            → is_fresh today b.state ≡ true
        rotating_fresh (live f) w v a b h e = cc
        rotating_fresh (rotating t) w v a b h e = step_rotating-is_fresh t w v a b e

    live-Returns :
        (fuel : ℕ) (w : W) (a : RollingFileAppender F A)
        → is_rotating a.state ≡ false
        → Returns (poll_ready fs file (suc (suc (suc fuel))) w a)
    unfolding poll_ready step
    live-Returns fuel w a h =
        after_step-Returns (step fs file w a) _
          (λ v b e. rotating-Returns fuel v b (live_rotates a.state w v a b h e))
      where
        live_rotates :
            (s : State F A) (w v : W) (a b : RollingFileAppender F A)
            → is_rotating s ≡ false
            → step_state fs file s w a ≡ continue v b
            → is_rotating b.state ≡ true
        live_rotates (live f) w v a b h e = step_live-is_rotating f w v a b e
        live_rotates (rotating t) w v a b h e = cc

    -- Where midnight does not pass during the call, `poll_ready` returns after at most three rounds,
    -- from any state and whatever the file system answers.
    pub poll_ready-returns :
        (w : W) (a : RollingFileAppender F A)
        → (r : W × RollingFileAppender F A × Poll (Result E)) × (poll_ready fs file 3 w a ≡ some r)
    unfolding Returns
    poll_ready-returns w a = elim (Bool-cases (is_rotating a.state)) [
      | inl h ↦ rotating-Returns 1 w a h
      | inr h ↦ live-Returns 0 w a h
    ]
