-- ===== src/RollingFile/Rotation.antt =====
-- witchcraft-server/src/logging/logger/rolling_file.rs: when a rotation starts, and what a failed one
-- leaves behind.
use witchcraft_rust_server.Common.{
  ℕ, suc, ◌≤◌, ◌<◌, ◌≡◌, ◌≢◌, ◌⊎◌, subst, Option, zero, inl, inr, refl, sym, some, List, arith, ltb,
  Bool-cases, leb, ◌&&◌,
}
use witchcraft_rust_server.Poll.{Result, Poll, ready, pending, ok, err}
use witchcraft_rust_server.ByteBuffer.{Payload, BufBytesSink}
use witchcraft_rust_server.ByteBuffer
use witchcraft_rust_server.ByteBuffer.Delivery.{contents}
use witchcraft_rust_server.FileBytes.{File, FileLaws, FileBytesSink, file_bytes_sink}
use witchcraft_rust_server.FileBytes.Delivery.{file_bytes_sink-laws}
use witchcraft_rust_server.FileBytes.Durable.{content-poll_close_ok}
use witchcraft_rust_server.RollingFile.{
  Fs, CurrentFile, rotate, open_log, live, rotating, RollingFileAppender, Step, continue, return,
  after_step, step_live, step_rotating, close_answered, step_state, step, poll_ready, start_send,
  panicked, max_log_size,
}

module _ {W F A E : Type 0} (fs : Fs W F E) (file : File F A E) where
  -- A rotation that cannot rename the log file is reported once, and leaves an appender that is not
  -- live: a `start_send` that follows, with no other `poll_ready` between, panics.
  pub failed_rotation_panics :
      (fuel d n : ℕ) (w w' : W) (a : RollingFileAppender F A) (e : E) (item : Payload (List A))
      → a.state ≡ rotating (rotate d n)
      → fs.rename d n w ≡ (w', ready (err e))
      → (poll_ready fs file (suc fuel) w a
          ≡ some (w', record a { state = rotating open_log }, ready (err e)))
        × ((start_send fs file (record a { state = rotating open_log }) item).1 ≡ panicked)
  unfolding poll_ready step step_rotating start_send
  failed_rotation_panics fuel d n w w' a e item s r = (rw (s, step, r) refl, refl)

module _ {W F A E : Type 0} (fs : Fs W F E) (file : File F A E) (laws : FileLaws file) where
  -- What has happened where a step goes on from a live file
  abbrev Left : CurrentFile F A → W → Type 0
  Left f w =
      ((max_log_size ≤ f.len) ⊎ (f.date < (fs.now w).1))
      × (laws.content (ByteBuffer.poll_close (file_bytes_sink file) f.sink).0.inner.file
          ≡ contents (file_bytes_sink file) (file_bytes_sink-laws file laws) f.sink)

  -- A step that returns from a live file has given no archive to the compression.
  abbrev Waits : CurrentFile F A → W → RollingFileAppender F A → Step fs file → Type 0
  Waits f w a (return v b poll) = b.spawned ≡ a.spawned
  Waits f w a (continue v b) = Left f w

  close_answered-Waits :
      (f : CurrentFile F A) (date : ℕ) (w v : W) (a : RollingFileAppender F A)
      (closed : BufBytesSink (FileBytesSink F A) A × Poll (Result E))
      → (closed.1 ≡ ready ok → Left f w)
      → Waits f w a (close_answered fs file f date v a closed)
  unfolding close_answered
  close_answered-Waits f date w v a (sink, pending) h = refl
  close_answered-Waits f date w v a (sink, ready (err x)) h = refl
  close_answered-Waits f date w v a (sink, ready ok) h = h refl

  step_live-Waits :
      (f : CurrentFile F A) (w : W) (a : RollingFileAppender F A)
      → Waits f w a (step_live fs file f w a)
  unfolding step_live
  step_live-Waits f w a = elim (Bool-cases (ltb f.len max_log_size && leb (fs.now w).1 f.date)) [
    | inl keep ↦ rw keep refl
    | inr stale ↦ rw stale (
        close_answered-Waits f (fs.now w).1 w (fs.now w).0 a
          (ByteBuffer.poll_close (file_bytes_sink file) f.sink)
          λ closed. (ground arith, content-poll_close_ok file laws f.sink closed))
  ]

  after_step-Left :
      (s : Step fs file)
      (again : W → RollingFileAppender F A → Option (W × RollingFileAppender F A × Poll (Result E)))
      (f : CurrentFile F A) (w w' : W) (a b : RollingFileAppender F A) (poll : Poll (Result E))
      → Waits f w a s
      → after_step fs file s again ≡ some (w', b, poll)
      → b.spawned ≢ a.spawned
      → Left f w
  unfolding after_step
  after_step-Left (return v c p) again f w w' a b poll h e more = absurd (more (cc))
  after_step-Left (continue v c) again f w w' a b poll h e more = h

  -- An appender with a live file that gives an archive to the compression, in the rounds of one
  -- `poll_ready`, has done so only where the file was full or its day was over, and only after the file
  -- itself, and not only its writes in the background, held every byte that was accepted for it, in
  -- order, but for those that a failed poll of the file has lost before.
  pub rotation_complete :
      (fuel : ℕ) (w w' : W) (f : CurrentFile F A) (a b : RollingFileAppender F A)
      (poll : Poll (Result E))
      → a.state ≡ live f
      → poll_ready fs file fuel w a ≡ some (w', b, poll)
      → b.spawned ≢ a.spawned
      → ((max_log_size ≤ f.len) ⊎ (f.date < (fs.now w).1))
        × (laws.content (ByteBuffer.poll_close (file_bytes_sink file) f.sink).0.inner.file
            ≡ contents (file_bytes_sink file) (file_bytes_sink-laws file laws) f.sink)
  unfolding poll_ready step step_state
  rotation_complete zero w w' f a b poll s e more = absurd (ground arith)
  rotation_complete (suc fuel) w w' f a b poll s e more =
      after_step-Left (step_state fs file a.state w a) _ f w w' a b poll
        (subst (λ t. Waits f w a (step_state fs file t w a)) (sym s) (step_live-Waits f w a)) e more
