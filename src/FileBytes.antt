-- ===== src/FileBytes.antt =====
-- witchcraft-server/src/logging/logger/rolling_file.rs: `FileBytesSink`, which writes a chunk of
-- bytes to a file with as many writes as it takes. The file is tokio's, so a parameter.
pub mod Delivery
pub mod Durable
pub mod Sample
mod Tests
use witchcraft_rust_server.Common.{
  ℕ, suc, zero, false, ◌-◌, ◌≤◌, ◌<◌, ◌≡◌, List, [], ◌∷◌, ◌++◌, length, drop, take, length-drop,
  arith,
}
use witchcraft_rust_server.Poll.{Result, ok, err, Poll, pending, ready, ready?, Sink, is_err}

-- `Poll<io::Result<usize>>` of `AsyncWrite::poll_write`. As documented, a write that is ready has
-- taken at least one byte of a buffer that is not empty, and no more than the buffer holds.
pub data Write {A : Type 0} (E : Type 0) (buf : List A) : Type 0 where
  not_yet : Write E buf
  failed : E → Write E buf
  wrote : (n : ℕ) → 0 < n → n ≤ length buf → Write E buf

-- `tokio::fs::File`
pub record File (F A E : Type 0) : Type 0 where
  pub poll_write : F → (buf : List A) → F × Write E buf
  pub poll_flush : F → F × Poll (Result E)

-- What is documented of the file, which writes in the background: `written` is all that it has taken
-- by writes, less what a poll has reported lost, and `content` is what the file really holds. A write
-- says nothing of the content, and nothing is said of a file whose write or flush fails: only a flush
-- that succeeds has waited for all that was written.
pub record FileLaws {F A E : Type 0} (file : File F A E) : Type 0 where
  pub written : F → List A
  pub content : F → List A
  pub written-wrote :
      (f : F) (buf : List A) (n : ℕ) (p : 0 < n) (q : n ≤ length buf)
      → (file.poll_write f buf).1 ≡ wrote n p q
      → written (file.poll_write f buf).0 ≡ written f ++ take n buf
  pub written-not_yet :
      (f : F) (buf : List A)
      → (file.poll_write f buf).1 ≡ not_yet
      → written (file.poll_write f buf).0 ≡ written f
  pub written-poll_flush :
      (f : F) → is_err (file.poll_flush f).1 ≡ false → written (file.poll_flush f).0 ≡ written f
  pub content-poll_flush :
      (f : F)
      → (file.poll_flush f).1 ≡ ready ok
      → content (file.poll_flush f).0 ≡ written (file.poll_flush f).0

-- The field `pending` is spelled `rest` here, where `pending` is the answer of a poll.
pub record FileBytesSink (F A : Type 0) : Type 0 where
  pub file : F
  pub rest : List A

unfoldable pub new : {F A : Type 0} → F → FileBytesSink F A
new f = record { file = f; rest = [] }

module _ {F A E : Type 0} (file : File F A E) where
  -- `ready!(this.file.as_mut().poll_flush(cx))?; Poll::Ready(Ok(()))`
  flush_file : F → FileBytesSink F A × Poll (Result E)
  flush_file f = let (f', poll) = file.poll_flush f in (record { file = f'; rest = [] }, poll)

  -- What a round of the loop does with the answer of `poll_write`.
  after_write :
      (f : F) {buf : List A}
      → Write E buf
      → ((n : ℕ) → 0 < n → n ≤ length buf → FileBytesSink F A × Poll (Result E))
      → FileBytesSink F A × Poll (Result E)
  after_write f {buf} not_yet again = (record { file = f; rest = buf }, pending)
  after_write f {buf} (failed e) again = (record { file = f; rest = buf }, ready (err e))
  after_write f (wrote n p q) again = again n p q

  -- The loop: a round writes at least one byte, so there are at most `fuel` rounds.
  write_all :
      (fuel : ℕ) (f : F) (rest : List A) → length rest ≤ fuel → FileBytesSink F A × Poll (Result E)
  unfolding flush_file after_write
  write_all zero f [] h = flush_file f
  write_all zero f (b ∷ rest) h = absurd (omega arith)
  write_all (suc fuel) f [] h = flush_file f
  write_all (suc fuel) f (b ∷ rest) h =
      after_write (file.poll_write f (b ∷ rest)).0 (file.poll_write f (b ∷ rest)).1 λ n p q.
        write_all fuel (file.poll_write f (b ∷ rest)).0 (drop n (b ∷ rest))
          (omega (arith, length-drop n (b ∷ rest)))

  pub poll_flush : FileBytesSink F A → FileBytesSink F A × Poll (Result E)
  unfolding write_all
  poll_flush s = write_all (length s.rest) s.file s.rest (omega arith)

  pub poll_ready : FileBytesSink F A → FileBytesSink F A × Poll (Result E)
  unfolding poll_flush
  poll_ready s = poll_flush s

  -- The debug assertion, that nothing is pending, is what `poll_ready` establishes.
  pub start_send : FileBytesSink F A → List A → FileBytesSink F A × Result E
  start_send s item = (record s { rest = item }, ok)

  pub poll_close : FileBytesSink F A → FileBytesSink F A × Poll (Result E)
  unfolding poll_flush
  poll_close s = poll_flush s

  unfoldable pub file_bytes_sink : Sink (FileBytesSink F A) (List A) E
  unfolding poll_ready start_send poll_flush poll_close
  file_bytes_sink = record {
    poll_ready = poll_ready;
    start_send = start_send;
    poll_flush = poll_flush;
    poll_close = poll_close;
  }
