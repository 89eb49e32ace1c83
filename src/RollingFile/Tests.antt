-- ===== src/RollingFile/Tests.antt =====
-- witchcraft-server/src/logging/logger/rolling_file.rs: the theorems on day 7, with a full file of
-- day 6.
use witchcraft_rust_server.Common.{
  ℕ, ◌≤◌, ◌<◌, ◌≡◌, ◌⊎◌, inr, ap, length, refl, none, some, List, [], ◌∷◌, arith, false,
}
use witchcraft_rust_server.Poll.{ok, err, ready}
use witchcraft_rust_server.ByteBuffer
use witchcraft_rust_server.ByteBuffer.{Payload, buf_bytes_sink, answer_all}
use witchcraft_rust_server.ByteBuffer.Delivery.{contents}
use witchcraft_rust_server.FileBytes
use witchcraft_rust_server.FileBytes.{
  Write, not_yet, wrote, failed, File, FileLaws, FileBytesSink, file_bytes_sink,
}
use witchcraft_rust_server.FileBytes.Sample.{
  SlowFile, flush_bytes, slow_file, slow_laws, write_byte,
}
use witchcraft_rust_server.FileBytes.Delivery.{file_bytes_sink-laws}
use witchcraft_rust_server.RollingFile.{
  Fs, CurrentFile, rotate, live, rotating, RollingFileAppender, opened, poll_ready, max_log_size,
  step_live, step_rotating,
}
use witchcraft_rust_server.RollingFile.Numbering.{Clock, Numbered, poll_ready-Numbered}
use witchcraft_rust_server.RollingFile.Rotation.{rotation_complete}

abbrev empty_file : SlowFile
empty_file = record { content = []; background = [] }

-- The world is the day.
calm : Fs ℕ SlowFile (Unit {0})
calm = record {
  now = λ w. (w, w);
  rename = λ d n w. (w, ready ok);
  open_log = λ w. (w, ready (opened empty_file));
}

calm_clock : Clock calm
unfolding calm
calm_clock = record {
  clock = λ w. w;
  now_shows = λ w. refl;
  now_later = λ w. omega arith;
  rename_later = λ d n w. omega arith;
  open_later = λ w. omega arith;
}

-- A day that does not end.
frozen : Fs (Unit {0}) SlowFile (Unit {0})
frozen = record {
  now = λ w. (w, 7);
  rename = λ d n w. (w, ready (err tt));
  open_log = λ w. (w, ready (opened empty_file));
}

abbrev yesterday : CurrentFile SlowFile ℕ
yesterday = record {
  sink = record {
    buf = 1 ∷ 2 ∷ [];
    pending_cbs = [];
    pending_write = none;
    needs_flush = false;
    limit = 8192;
    inner = record { file = empty_file; rest = [] };
    answered = [];
  };
  len = 2;
  date = 6;
}

abbrev full : RollingFileAppender SlowFile ℕ
full = record { state = live yesterday; next_archive_index = 4; spawned = (6, 3) ∷ [] }

abbrev fresh : RollingFileAppender SlowFile ℕ
fresh = record {
  state = live (record {
    sink = ByteBuffer.new (record { file = empty_file; rest = [] });
    len = 0;
    date = 7;
  });
  next_archive_index = 0;
  spawned = (6, 4) ∷ (6, 3) ∷ [];
}

rotated : poll_ready calm slow_file 3 7 full ≡ some (7, fresh, ready ok)
unfolding poll_ready step_live step_rotating calm slow_file write_byte flush_bytes buf_bytes_sink
    file_bytes_sink answer_all ByteBuffer.new FileBytes.new
rotated = refl

abbrev item : Payload (List ℕ)
item = record { value = 9 ∷ []; cb = none }

full-Numbered : Numbered calm slow_file calm_clock 7 full
unfolding calm_clock
full-Numbered = (omega arith, (inr (refl, omega arith), tt))

poll_ready-Numbered_example : Numbered calm slow_file calm_clock 7 fresh
poll_ready-Numbered_example =
    poll_ready-Numbered calm slow_file calm_clock 3 7 7 full fresh (ready ok) full-Numbered
      (omega arith) rotated

abbrev moving : RollingFileAppender SlowFile ℕ
moving = record { state = rotating (rotate 6 4); next_archive_index = 0; spawned = [] }

abbrev rotating_full : RollingFileAppender SlowFile ℕ
rotating_full = record {
  state = rotating (rotate 6 4);
  next_archive_index = 0;
  spawned = (6, 3) ∷ [];
}

rotation_complete_example :
    ((max_log_size ≤ yesterday.len) ⊎ (yesterday.date < (calm.now 7).1))
    × (slow_laws.content
          (ByteBuffer.poll_close (file_bytes_sink slow_file) yesterday.sink).0.inner.file
        ≡ contents
            (file_bytes_sink slow_file)
            (file_bytes_sink-laws slow_file slow_laws)
            yesterday.sink)
rotation_complete_example =
    rotation_complete calm slow_file slow_laws 3 7 7 yesterday full fresh (ready ok) refl rotated
      (λ e. ground (arith, ap length e))
