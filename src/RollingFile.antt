-- ===== src/RollingFile.antt =====
-- witchcraft-server/src/logging/logger/rolling_file.rs: `RollingFileAppender`, which writes to a
-- current file and moves it to an archive when it is full or when the day is over. The clock and the
-- file system are a parameter, on an explicit world. A date is a number of days. `spawned` holds the
-- compression tasks given to the runtime, each by the date and the number of its archive.
pub mod Ready
pub mod Termination
pub mod Numbering
pub mod Rotation
mod Tests
use witchcraft_rust_server.Common.{
  ℕ, zero, suc, ◌+◌, ◌*◌, ◌%◌, ◌^◌, Bool, true, false, Option, none, some, List, [], ◌∷◌, ◌++◌, ltb,
  leb, ◌&&◌, if◌then◌else◌, length,
}
use witchcraft_rust_server.Poll.{Result, ok, err, Poll, pending, ready, Sink}
use witchcraft_rust_server.ByteBuffer.{Payload, BufBytesSink}
use witchcraft_rust_server.ByteBuffer
use witchcraft_rust_server.FileBytes.{File, FileBytesSink, file_bytes_sink}
use witchcraft_rust_server.FileBytes

-- `io::Result<File>`
pub data Opened (F E : Type 0) : Type 0 where
  opened : F → Opened F E
  open_failed : E → Opened F E

-- What the appender asks of the runtime: `now` is `Utc::now().date_naive()`, `rename date number` is
-- `fs::rename(log_path, archive_path(date, number))`, and `open_log` opens the log file. Each may
-- change the world.
pub record Fs (W F E : Type 0) : Type 0 where
  pub now : W → W × ℕ
  pub rename : ℕ → ℕ → W → W × Poll (Result E)
  pub open_log : W → W × Poll (Opened F E)

abbrev pub max_log_size : ℕ
max_log_size = 1024 * 1024 * 1024

-- `self.next_archive_index += 1` on `u32`, in a release build
abbrev pub u32 : ℕ → ℕ
u32 n = n % 2 ^ 32

pub record CurrentFile (F A : Type 0) : Type 0 where
  pub sink : BufBytesSink (FileBytesSink F A) A
  pub len : ℕ
  pub date : ℕ

-- Where a boxed future stands: before the rename of `rotate`, or before `open_log`.
pub data Task : Type 0 where
  rotate : ℕ → ℕ → Task
  open_log : Task

pub data State (F A : Type 0) : Type 0 where
  live : CurrentFile F A → State F A
  rotating : Task → State F A

pub record RollingFileAppender (F A : Type 0) : Type 0 where
  pub state : State F A
  pub next_archive_index : ℕ
  pub spawned : List (ℕ × ℕ)

pub data SendResult (E : Type 0) : Type 0 where
  sent : Result E → SendResult E
  panicked : SendResult E

module _ {W F A E : Type 0} (fs : Fs W F E) (file : File F A E) where
  abbrev inner : Sink (BufBytesSink (FileBytesSink F A) A) (Payload (List A)) E
  inner = record {
    poll_ready = ByteBuffer.poll_ready (file_bytes_sink file);
    start_send = ByteBuffer.start_send (file_bytes_sink file);
    poll_flush = ByteBuffer.poll_flush (file_bytes_sink file);
    poll_close = ByteBuffer.poll_close (file_bytes_sink file);
  }

  -- `CurrentFile { sink: BufBytesSink::new(FileBytesSink::new(file)), len: 0, date: now }`
  fresh_file : F → ℕ → CurrentFile F A
  fresh_file f date = record { sink = ByteBuffer.new (FileBytes.new f); len = 0; date = date }

  -- A step of the loop of `poll_ready` returns from it or goes round.
  pub data Step : Type 0 where
    return : W → RollingFileAppender F A → Poll (Result E) → Step
    continue : W → RollingFileAppender F A → Step

  -- `ready!(file.poll_close(cx))?` and the start of a rotation, where the clock shows `date`
  close_answered :
      CurrentFile F A
      → (date : ℕ) → W
      → RollingFileAppender F A
      → BufBytesSink (FileBytesSink F A) A × Poll (Result E)
      → Step
  close_answered f date w a (sink, pending) =
      return w (record a { state = live (record f { sink = sink }) }) pending
  close_answered f date w a (sink, ready (err e)) =
      return w (record a { state = live (record f { sink = sink }) }) (ready (err e))
  close_answered f date w a (sink, ready ok) = continue w (record a {
    state = rotating (rotate f.date a.next_archive_index);
    next_archive_index = if ltb f.date date then 0 else u32 (a.next_archive_index + 1);
  })

  -- `State::Live(file)`
  step_live : CurrentFile F A → W → RollingFileAppender F A → Step
  unfolding close_answered
  step_live f w a =
      let (w', date) = fs.now w in
      if ltb f.len max_log_size && leb date f.date
      then (let (sink, poll) = inner.poll_ready f.sink in
          return w' (record a { state = live (record f { sink = sink }) }) poll)
      else close_answered f date w' a (inner.poll_close f.sink)

  open_answered : W → RollingFileAppender F A → Poll (Opened F E) → Step
  unfolding fresh_file
  open_answered w a pending = return w (record a { state = rotating open_log }) pending
  open_answered w a (ready (open_failed e)) =
      return w (record a { state = rotating open_log }) (ready (err e))
  open_answered w a (ready (opened f)) =
      continue (fs.now w).0 (record a { state = live (fresh_file f (fs.now w).1) })

  -- The second half of `rotate`, and the whole of the future that follows a failure.
  step_open : W → RollingFileAppender F A → Step
  unfolding open_answered
  step_open w a = open_answered (fs.open_log w).0 a (fs.open_log w).1

  rename_answered : ℕ → ℕ → W → RollingFileAppender F A → Poll (Result E) → Step
  unfolding step_open
  rename_answered date number w a pending = return w a pending
  rename_answered date number w a (ready (err e)) =
      return w (record a { state = rotating open_log }) (ready (err e))
  rename_answered date number w a (ready ok) =
      step_open w (record a { spawned = (date, number) ∷ a.spawned })

  -- `State::Rotating(future)`: a rename that succeeds is followed by the spawn of the compression
  -- and by the opening of a new file.
  step_rotating : Task → W → RollingFileAppender F A → Step
  unfolding rename_answered
  step_rotating open_log w a = step_open w a
  step_rotating (rotate date number) w a =
      rename_answered date number (fs.rename date number w).0
        (record a { state = rotating (rotate date number) }) (fs.rename date number w).1

  step_state : State F A → W → RollingFileAppender F A → Step
  step_state (live f) w a = step_live f w a
  step_state (rotating task) w a = step_rotating task w a

  pub step : W → RollingFileAppender F A → Step
  unfolding step_state
  step w a = step_state a.state w a

  after_step :
      Step
      → (W → RollingFileAppender F A → Option (W × RollingFileAppender F A × Poll (Result E)))
      → Option (W × RollingFileAppender F A × Poll (Result E))
  after_step (return w a poll) again = some (w, a, poll)
  after_step (continue w a) again = again w a

  -- `none`: the loop goes on after `fuel` rounds.
  pub poll_ready :
      (fuel : ℕ)
      → W
      → RollingFileAppender F A
      → Option (W × RollingFileAppender F A × Poll (Result E))
  unfolding step after_step
  poll_ready zero w a = none
  poll_ready (suc fuel) w a = after_step (step w a) λ w' a'. poll_ready fuel w' a'

  pub start_send :
      RollingFileAppender F A → Payload (List A) → RollingFileAppender F A × SendResult E
  start_send a item = elim a.state [
    | live f ↦
        let (sink, result) = inner.start_send f.sink item in
        (
          record a {
            state = live (record f { sink = sink; len = (f.len + length item.value) % 2 ^ 64 });
          },
          sent result,
        )
    | rotating _ ↦ (a, panicked)
  ]

  pub poll_flush : RollingFileAppender F A → RollingFileAppender F A × Poll (Result E)
  poll_flush a = elim a.state [
    | live f ↦
        let (sink, poll) = inner.poll_flush f.sink in
        (record a { state = live (record f { sink = sink }) }, poll)
    | rotating _ ↦ (a, ready ok)
  ]

  pub poll_close : RollingFileAppender F A → RollingFileAppender F A × Poll (Result E)
  poll_close a = elim a.state [
    | live f ↦
        let (sink, poll) = inner.poll_close f.sink in
        (record a { state = live (record f { sink = sink }) }, poll)
    | rotating _ ↦ (a, ready ok)
  ]
