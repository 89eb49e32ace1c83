-- ===== src/RollingFile/Numbering.antt =====
-- witchcraft-server/src/logging/logger/rolling_file.rs: no two archives of an appender have the same
-- name, while the clock does not run backwards.
use witchcraft_rust_server.Common.{
  ℕ, zero, suc, ◌+◌, ◌^◌, ◌≤◌, ◌<◌, ◌≡◌, ◌⊎◌, inl, inr, refl, some, List, [], ◌∷◌, arith,
  Bool-cases, ltb, leb, ◌&&◌,
}
use mathlib.Core.Path.{subst}
use mathlib.Core.Option.{some-injective}
use witchcraft_rust_server.Poll.{Result, Poll, ready, pending, ok, err}
use witchcraft_rust_server.FileBytes.{File, FileBytesSink}
use witchcraft_rust_server.ByteBuffer.{BufBytesSink}
use witchcraft_rust_server.RollingFile.{
  Fs, CurrentFile, rotate, open_log, State, live, rotating, RollingFileAppender, Step, return,
  continue, step_live, step_open, open_answered, rename_answered, close_answered, Opened, opened,
  open_failed, max_log_size, step_rotating, step_state, step, after_step, poll_ready, fresh_file,
}

-- `clock` is the time that passes in the world: it is what `now` shows, and no operation turns it
-- back.
pub record Clock {W F E : Type 0} (fs : Fs W F E) : Type 0 where
  pub clock : W → ℕ
  pub now_shows : (w : W) → (fs.now w).1 ≡ clock (fs.now w).0
  pub now_later : (w : W) → clock w ≤ clock (fs.now w).0
  pub rename_later : (d n : ℕ) (w : W) → clock w ≤ clock (fs.rename d n w).0
  pub open_later : (w : W) → clock w ≤ clock (fs.open_log w).0

-- An archive's name is its date and its number; the order is that of time.
abbrev pub Earlier : ℕ × ℕ → ℕ → ℕ → Type 0
Earlier (d, n) date number = (d < date) ⊎ ((d ≡ date) × (n < number))

-- Each name is later than those after it in the list, and earlier than the bound: so no name stands
-- in the list twice, and the bound does not stand in it.
abbrev pub Below : ℕ → ℕ → List (ℕ × ℕ) → Type 0
Below date number [] = Unit {0}
Below date number ((d, n) ∷ rest) = Earlier (d, n) date number × Below d n rest

Below-mono :
    (d n d' n' : ℕ) (xs : List (ℕ × ℕ))
    → Below d n xs
    → (d < d') ⊎ ((d ≡ d') × (n ≤ n'))
    → Below d' n' xs
Below-mono d n d' n' [] h e = tt
Below-mono d n d' n' ((x, y) ∷ xs) h e = (ground arith, h.1)

module _ {W F A E : Type 0} (fs : Fs W F E) (file : File F A E) (c : Clock fs) where
  -- The names used so far are below the next one that can be used, in each state of the appender.
  abbrev NumberedState : ℕ → ℕ → List (ℕ × ℕ) → State F A → Type 0
  NumberedState time next used (live f) = (f.date ≤ time) × Below f.date next used
  NumberedState time next used (rotating (rotate d n)) = Earlier (d, n) time next × Below d n used
  NumberedState time next used (rotating open_log) = Below time next used

  abbrev pub Numbered : W → RollingFileAppender F A → Type 0
  Numbered w a = NumberedState (c.clock w) a.next_archive_index a.spawned a.state

  -- What holds after a step, whether it returns or goes on. A step counts the index up at most once.
  abbrev After : (W → RollingFileAppender F A → Type 0) → Step fs file → Type 0
  After P (return w a p) = P w a
  After P (continue w a) = P w a

  abbrev NumberedFrom : ℕ → W → RollingFileAppender F A → Type 0
  NumberedFrom next w a = Numbered w a × (a.next_archive_index ≤ next + 1)

  later-Below :
      (w v : W) (next : ℕ) (used : List (ℕ × ℕ))
      → c.clock w ≤ c.clock v
      → Below (c.clock w) next used
      → Below (c.clock v) next used
  later-Below w v next used h b = Below-mono (c.clock w) next (c.clock v) next used b (ground arith)

  open_answered-Numbered :
      (w : W) (a : RollingFileAppender F A) (p : Poll (Opened F E))
      → Below (c.clock w) a.next_archive_index a.spawned
      → After (NumberedFrom a.next_archive_index) (open_answered fs file w a p)
  unfolding open_answered fresh_file
  open_answered-Numbered w a pending h = (h, omega arith)
  open_answered-Numbered w a (ready (open_failed e)) h = (h, omega arith)
  open_answered-Numbered w a (ready (opened f)) h =
      let shows = c.now_shows w in
      ((omega arith, rw shows (later-Below w (fs.now w).0 _ _ (c.now_later w) h)), omega arith)

  step_open-Numbered :
      (w : W) (a : RollingFileAppender F A)
      → Below (c.clock w) a.next_archive_index a.spawned
      → After (NumberedFrom a.next_archive_index) (step_open fs file w a)
  unfolding step_open
  step_open-Numbered w a h =
      open_answered-Numbered (fs.open_log w).0 a (fs.open_log w).1
        (later-Below w (fs.open_log w).0 _ _ (c.open_later w) h)

  rename_answered-Numbered :
      (d n : ℕ) (w : W) (a : RollingFileAppender F A) (p : Poll (Result E))
      → a.state ≡ rotating (rotate d n)
      → Earlier (d, n) (c.clock w) a.next_archive_index
      → Below d n a.spawned
      → After (NumberedFrom a.next_archive_index) (rename_answered fs file d n w a p)
  unfolding rename_answered
  rename_answered-Numbered d n w a pending s e h = (rw s (e, h), omega arith)
  rename_answered-Numbered d n w a (ready (err x)) s e h =
      (Below-mono d n (c.clock w) a.next_archive_index a.spawned h (ground arith), omega arith)
  rename_answered-Numbered d n w a (ready ok) s e h =
      step_open-Numbered w (record a { spawned = (d, n) ∷ a.spawned }) (e, h)

  close_answered-Numbered :
      (f : CurrentFile F A) (date : ℕ) (w : W) (a : RollingFileAppender F A)
      (p : BufBytesSink (FileBytesSink F A) A × Poll (Result E))
      → date ≡ c.clock w
      → f.date ≤ date
      → a.next_archive_index + 1 < 2 ^ 32
      → Below f.date a.next_archive_index a.spawned
      → After (NumberedFrom a.next_archive_index) (close_answered fs file f date w a p)
  unfolding close_answered
  close_answered-Numbered f date w a (sink, pending) s le fits h = ((omega arith, h), omega arith)
  close_answered-Numbered f date w a (sink, ready (err x)) s le fits h =
      ((omega arith, h), omega arith)
  close_answered-Numbered f date w a (sink, ready ok) s le fits h =
      ((ground arith, h), ground arith)

  step_live-Numbered :
      (f : CurrentFile F A) (w : W) (a : RollingFileAppender F A)
      → f.date ≤ c.clock w
      → a.next_archive_index + 1 < 2 ^ 32
      → Below f.date a.next_archive_index a.spawned
      → After (NumberedFrom a.next_archive_index) (step_live fs file f w a)
  unfolding step_live
  step_live-Numbered f w a le fits h =
      elim (Bool-cases (ltb f.len max_log_size && leb (fs.now w).1 f.date)) [
        | inl keep ↦ rw keep ((omega (arith, c.now_later w), h), omega arith)
        | inr stale ↦ rw stale (
            close_answered-Numbered f (fs.now w).1 (fs.now w).0 a _ (c.now_shows w)
              (omega (arith, c.now_shows w, c.now_later w)) fits h)
      ]

  step_state-Numbered :
      (s : State F A) (w : W) (a : RollingFileAppender F A)
      → NumberedState (c.clock w) a.next_archive_index a.spawned s
      → a.next_archive_index + 1 < 2 ^ 32
      → After (NumberedFrom a.next_archive_index) (step_state fs file s w a)
  unfolding step_state step_rotating
  step_state-Numbered (live f) w a (le, h) fits = step_live-Numbered f w a le fits h
  step_state-Numbered (rotating open_log) w a h fits = step_open-Numbered w a h
  step_state-Numbered (rotating (rotate d n)) w a (e, h) fits =
      rename_answered-Numbered d n (fs.rename d n w).0 _ (fs.rename d n w).1 refl
        (later_Earlier (c.rename_later d n w) e) h
    where
      later_Earlier : {x y next : ℕ} → x ≤ y → Earlier (d, n) x next → Earlier (d, n) y next
      later_Earlier le e = ground arith

  after_step-Numbered :
      (fuel next : ℕ) (s : Step fs file) (w' : W) (a' : RollingFileAppender F A)
      (p : Poll (Result E))
      → After (NumberedFrom next) s
      → after_step fs file s (λ w a. poll_ready fs file fuel w a) ≡ some (w', a', p)
      → ((w : W) (a : RollingFileAppender F A)
          → NumberedFrom next w a
          → poll_ready fs file fuel w a ≡ some (w', a', p)
          → Numbered w' a')
      → Numbered w' a'
  unfolding after_step
  after_step-Numbered fuel next (return w a q) w' a' p h e k =
      subst (λ r. Numbered r.0 r.1) (some-injective (w, a, q) (w', a', p) e) h.0
  after_step-Numbered fuel next (continue w a) w' a' p h e k = k w a h e

  -- While the clock does not run backwards and the index does not wrap, every call of `poll_ready`
  -- keeps the names of the archives in strict order of time: a rotation never takes the name of an
  -- earlier one, whose file the rename would overwrite.
  pub poll_ready-Numbered :
      (fuel : ℕ) (w w' : W) (a a' : RollingFileAppender F A) (p : Poll (Result E))
      → Numbered w a
      → a.next_archive_index + fuel < 2 ^ 32
      → poll_ready fs file fuel w a ≡ some (w', a', p)
      → Numbered w' a'
  unfolding poll_ready step
  poll_ready-Numbered zero w w' a a' p h fits e = cc
  poll_ready-Numbered (suc fuel) w w' a a' p h fits e =
      after_step-Numbered fuel a.next_archive_index (step fs file w a) w' a' p
        (step_state-Numbered a.state w a h (omega arith)) e
        (λ v b q e'. poll_ready-Numbered fuel v w' b a' p q.0 (omega (arith, q.1)) e')
