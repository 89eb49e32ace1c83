-- ===== src/FileBytes/Tests.antt =====
-- witchcraft-server/src/logging/logger/rolling_file.rs: a buffer over a file that takes one byte at
-- a time.
use witchcraft_rust_server.Common.{ℕ, ◌≡◌, refl, none, some, false, [], ◌∷◌}
use witchcraft_rust_server.ByteBuffer.{BufBytesSink, poll_flush, buf_bytes_sink, answer_all}
use witchcraft_rust_server.ByteBuffer.Delivery.{contents}
use witchcraft_rust_server.FileBytes.{FileBytesSink, file_bytes_sink}
use witchcraft_rust_server.FileBytes.Delivery.{file_bytes_sink-laws}
use witchcraft_rust_server.FileBytes.Sample.{
  SlowFile, flush_bytes, slow_file, slow_laws, write_byte,
}
use witchcraft_rust_server.FileBytes.Durable.{content-poll_flush_ok}

buffered : BufBytesSink (FileBytesSink SlowFile ℕ) ℕ
buffered = record {
  buf = 1 ∷ 2 ∷ [];
  pending_cbs = 7 ∷ [];
  pending_write = some (record { value = 3 ∷ 4 ∷ 5 ∷ []; cb = none });
  needs_flush = false;
  limit = 4;
  inner = record { file = record { content = []; background = [] }; rest = [] };
  answered = [];
}

buffered-poll_flush :
    (poll_flush (file_bytes_sink slow_file) buffered).0.inner.file.content ≡ 1 ∷ 2 ∷ 3 ∷ 4 ∷ 5 ∷ []
unfolding buffered buf_bytes_sink file_bytes_sink slow_file write_byte flush_bytes answer_all
buffered-poll_flush = refl

content-poll_flush_ok_example :
    slow_laws.content (poll_flush (file_bytes_sink slow_file) buffered).0.inner.file
    ≡ contents (file_bytes_sink slow_file) (file_bytes_sink-laws slow_file slow_laws) buffered
unfolding buffered buf_bytes_sink file_bytes_sink slow_file write_byte flush_bytes answer_all
content-poll_flush_ok_example = content-poll_flush_ok slow_file slow_laws buffered refl
