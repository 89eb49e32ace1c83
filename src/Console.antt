-- ===== src/Console.antt =====
-- witchcraft-server/src/logging/logger/mod.rs, with json.rs, metrics.rs, byte_buffer.rs and stdout.rs:
-- the appender of a server that logs to the console, below the task that feeds it. It puts lines and
-- counters on a buffer, and the buffer on the standard output.
pub mod Buffered
pub mod Delivered
mod Tests
use witchcraft_rust_server.Common.{ℕ, Bool, []}
use witchcraft_rust_server.Http.{Text}
use witchcraft_rust_server.Poll.{Sink}
use witchcraft_rust_server.ByteBuffer.{Payload, BufBytesSink, buf_bytes_sink}
use witchcraft_rust_server.ByteBuffer
use witchcraft_rust_server.Appenders.{JsonAppender, MetricsAppender, record_sink}
use witchcraft_rust_server.Stdout.{Blocking, StdoutSink, idle, stdout_sink}

abbrev pub StdoutAppender : Type 0 → Type 0 → Type 0
StdoutAppender O H = BufBytesSink (StdoutSink O H) ℕ

-- `StdoutAppender::new`
unfoldable pub new_stdout : {O H : Type 0} → O → StdoutAppender O H
new_stdout out = ByteBuffer.new (record { out = out; state = idle })

unfoldable pub stdout_appender :
    {O H E : Type 0} → Blocking O H E → Sink (StdoutAppender O H) (Payload Text) E
stdout_appender blocking = buf_bytes_sink (stdout_sink blocking)

abbrev pub Appender : Type 0 → Type 0 → Type 0 → Type 0
Appender O H R = MetricsAppender (JsonAppender (StdoutAppender O H)) R

-- What `appender` makes where the configuration says `use_console_log`
unfoldable pub new_appender : {O H R : Type 0} → O → R → Appender O H R
unfolding new_stdout
new_appender out reporter = record {
  inner = record { inner = new_stdout out; buf = [] };
  reporter = reporter;
}

unfoldable pub appender :
    {O H E T R : Type 0}
    → Blocking O H E
    → (T → Text × Bool)
    → E
    → (R → T → R)
    → Sink (Appender O H R) (Payload T) E
unfolding stdout_appender
appender blocking to_writer invalid_input report =
    record_sink to_writer invalid_input report (stdout_appender blocking)
