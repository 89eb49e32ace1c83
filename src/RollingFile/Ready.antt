-- ===== src/RollingFile/Ready.antt =====
-- witchcraft-server/src/logging/logger/rolling_file.rs: what an answer of `poll_ready` means, and
-- that its loop ends.
use witchcraft_rust_server.Common.{
  ℕ, zero, suc, ◌≤◌, ◌<◌, ◌≡◌, ◌≢◌, refl, ◌∙◌, Option, some, List, arith,
}
use witchcraft_rust_server.Poll.{Result, ok, Poll, ready}
use witchcraft_rust_server.ByteBuffer.{Payload}
use witchcraft_rust_server.ByteBuffer
use witchcraft_rust_server.FileBytes.{File, file_bytes_sink}
use witchcraft_rust_server.RollingFile.{
  Fs, CurrentFile, Task, rotate, open_log, State, live, rotating, RollingFileAppender, sent,
  max_log_size, Step, return, continue, step_live, step_open, step_rotating, step_state, step,
  after_step, poll_ready, start_send,
}

module _ {W F A E : Type 0} (fs : Fs W F E) (file : File F A E) where
  -- The appender that an answer leaves behind is live; its file is not full, and is of the day that
  -- the clock last showed, or of a later one.
  pub record IsWritable (w : W) (a : RollingFileAppender F A) : Type 0 where
    pub current : CurrentFile F A
    pub is_live : a.state ≡ live current
    pub not_full : current.len < max_log_size
    pub before : W
    pub clock_read : w ≡ (fs.now before).0
    pub not_over : (fs.now before).1 ≤ current.date

  step_live_ok :
      (f : CurrentFile F A) (w w' : W) (a a' : RollingFileAppender F A)
      → step_live fs file f w a ≡ return w' a' (ready ok)
      → IsWritable w' a'
  unfolding step_live
  step_live_ok f w w' a a' e = record {
    current = record f { sink = (ByteBuffer.poll_ready (file_bytes_sink file) f.sink).0 };
    is_live = ground arith;
    not_full = ground arith;
    before = w;
    clock_read = ground arith;
    not_over = ground arith;
  }

  step_open-ne-ok :
      (w w' : W) (a a' : RollingFileAppender F A) → step_open fs file w a ≢ return w' a' (ready ok)
  unfolding step_open
  step_open-ne-ok w w' a a' = ground arith

  step_rotating-ne-ok :
      (t : Task) (w w' : W) (a a' : RollingFileAppender F A)
      → step_rotating fs file t w a ≢ return w' a' (ready ok)
  unfolding step_rotating
  step_rotating-ne-ok open_log w w' a a' = step_open-ne-ok w w' a a'
  step_rotating-ne-ok (rotate d n) w w' a a' = ground arith

  step_state_ok :
      (s : State F A) (w w' : W) (a a' : RollingFileAppender F A)
      → step_state fs file s w a ≡ return w' a' (ready ok)
      → IsWritable w' a'
  unfolding step_state
  step_state_ok (live f) w w' a a' e = step_live_ok f w w' a a' e
  step_state_ok (rotating t) w w' a a' e = absurd (step_rotating-ne-ok t w w' a a' e)

  -- What holds after a step that returns, and after those that follow one that goes on.
  after_step-cases {ℓ} :
      (P : Option (W × RollingFileAppender F A × Poll (Result E)) → Type ℓ) (s : Step fs file)
      (again : W → RollingFileAppender F A → Option (W × RollingFileAppender F A × Poll (Result E)))
      → ((w : W) (a : RollingFileAppender F A) (p : Poll (Result E))
          → s ≡ return w a p
          → P (some (w, a, p)))
      → ((w : W) (a : RollingFileAppender F A) → s ≡ continue w a → P (again w a))
      → P (after_step fs file s again)
  unfolding after_step
  after_step-cases P (return w a p) again x y = x w a p refl
  after_step-cases P (continue w a) again x y = y w a refl

  step-IsWritable :
      (w v w' : W) (a b a' : RollingFileAppender F A) (p : Poll (Result E))
      → step fs file w a ≡ return v b p
      → ◌≡◌ {A = Option (W × RollingFileAppender F A × Poll (Result E))}
          (some (v, b, p))
          (some (w', a', ready ok))
      → IsWritable w' a'
  unfolding step
  step-IsWritable w v w' a b a' p h e = step_state_ok a.state w w' a a' (h ∙ ground arith)

  -- When `poll_ready` answers `Ready(Ok(()))`, whatever it did before, the appender has a current
  -- file that has not reached the size limit and is not from before the day that the clock showed at
  -- the end.
  pub poll_ready-IsWritable :
      (fuel : ℕ) (w w' : W) (a a' : RollingFileAppender F A)
      → poll_ready fs file fuel w a ≡ some (w', a', ready ok)
      → IsWritable w' a'
  unfolding poll_ready
  poll_ready-IsWritable zero w w' a a' e = cc
  poll_ready-IsWritable (suc fuel) w w' a a' e =
      after_step-cases (λ o. o ≡ some (w', a', ready ok) → IsWritable w' a') (step fs file w a) _
        (λ v b p h. step-IsWritable w v w' a b a' p h)
        (λ v b _. poll_ready-IsWritable fuel v w' b a') e

  start_send_live :
      (a : RollingFileAppender F A) (item : Payload (List A)) (f : CurrentFile F A)
      → a.state ≡ live f
      → (start_send fs file a item).1 ≡ sent ok
  unfolding start_send ByteBuffer.start_send
  start_send_live a item f h = ground arith

  -- So `start_send` does not panic after it.
  pub start_send_after_ready :
      (fuel : ℕ) (w w' : W) (a a' : RollingFileAppender F A) (item : Payload (List A))
      → poll_ready fs file fuel w a ≡ some (w', a', ready ok)
      → (start_send fs file a' item).1 ≡ sent ok
  start_send_after_ready fuel w w' a a' item e =
      let h = poll_ready-IsWritable fuel w w' a a' e in start_send_live a' item h.current h.is_live
