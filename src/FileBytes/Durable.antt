-- ===== src/FileBytes/Durable.antt =====
-- witchcraft-server/src/logging/logger/rolling_file.rs, byte_buffer.rs: the buffer over the file, as
-- `CurrentFile` holds them.
use witchcraft_rust_server.Common.{◌≡◌, sym, ap, ◌∙◌}
use witchcraft_rust_server.Poll.{ok, ready}
use witchcraft_rust_server.ByteBuffer.{BufBytesSink, poll_flush, poll_close}
use witchcraft_rust_server.ByteBuffer.Answers.{poll_flush-inner, poll_close-inner}
use witchcraft_rust_server.ByteBuffer.Delivery.{contents, poll_flush-accepted, poll_close-accepted}
use witchcraft_rust_server.FileBytes.{File, FileLaws, FileBytesSink, file_bytes_sink}
use witchcraft_rust_server.FileBytes.Delivery.{accepted, accepted_of_flushed, file_bytes_sink-laws}

module _ {F A E : Type 0} (file : File F A E) (laws : FileLaws file) where
  -- When a flush of the buffer over the file succeeds, the file itself, and not only its writes in the
  -- background, holds every byte that was accepted since it was opened, in order, but for those that a
  -- failed poll of the file has lost before.
  pub content-poll_flush_ok :
      (s : BufBytesSink (FileBytesSink F A) A)
      → (poll_flush (file_bytes_sink file) s).1 ≡ ready ok
      → laws.content (poll_flush (file_bytes_sink file) s).0.inner.file
        ≡ contents (file_bytes_sink file) (file_bytes_sink-laws file laws) s
  unfolding file_bytes_sink-laws file_bytes_sink
  content-poll_flush_ok s h =
      let (i, flushed, same) = poll_flush-inner (file_bytes_sink file) s h in
      rw same (sym (accepted_of_flushed file laws i flushed))
      ∙ ap (accepted file laws) (sym same)
      ∙ poll_flush-accepted (file_bytes_sink file) (file_bytes_sink-laws file laws) s h

  -- So it is with a close.
  pub content-poll_close_ok :
      (s : BufBytesSink (FileBytesSink F A) A)
      → (poll_close (file_bytes_sink file) s).1 ≡ ready ok
      → laws.content (poll_close (file_bytes_sink file) s).0.inner.file
        ≡ contents (file_bytes_sink file) (file_bytes_sink-laws file laws) s
  unfolding file_bytes_sink-laws file_bytes_sink
  content-poll_close_ok s h =
      let (i, closed, same) = poll_close-inner (file_bytes_sink file) s h in
      rw same (sym (accepted_of_flushed file laws i closed))
      ∙ ap (accepted file laws) (sym same)
      ∙ poll_close-accepted (file_bytes_sink file) (file_bytes_sink-laws file laws) s h
