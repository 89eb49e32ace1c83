-- ===== src/ByteBuffer/Capacity.antt =====
-- witchcraft-server/src/logging/logger/byte_buffer.rs: the buffer stays within its limit, and
-- `poll_ready` establishes what `start_send` asserts.
use witchcraft_rust_server.Common.{
  ℕ, ◌-◌, ◌≤◌, ◌≡◌, false, none, List, [], if◌then◌else◌, length, length-append, arith,
}
use witchcraft_rust_server.Poll.{ok, ready, Sink, ready?-keeps, ready?-eq-ok}
use witchcraft_rust_server.ByteBuffer.{
  BufBytesSink, sub_usize, inner_poll_ready, inner_poll_flush, inner_poll_close, poll_write_buf,
  poll_write_pending, poll_flush_shallow, poll_ready, poll_flush, poll_close, Polling, readying,
  flushing, closing, poll,
}

-- The buffer does not exceed the limit, which is a length of a buffer in memory.
pub record Fits {S A : Type 0} (limit : ℕ) (s : BufBytesSink S A) : Type 0 where
  pub same_limit : s.limit ≡ limit
  pub within : length s.buf ≤ limit

module _ {S E A : Type 0} (sink : Sink S (List A) E) (limit : ℕ) where
  inner_poll_ready-Fits :
      (s : BufBytesSink S A) → Fits limit s → Fits limit (inner_poll_ready sink s).0
  unfolding inner_poll_ready
  inner_poll_ready-Fits s h = ground arith

  poll_write_buf-Fits : (s : BufBytesSink S A) → Fits limit s → Fits limit (poll_write_buf sink s).0
  unfolding poll_write_buf
  poll_write_buf-Fits s h = ground arith

  -- `debug_assert!(self.buf.is_empty())`
  poll_write_buf-nil :
      (s : BufBytesSink S A)
      → (poll_write_buf sink s).1 ≡ ready ok
      → (poll_write_buf sink s).0.buf ≡ []
  unfolding poll_write_buf
  poll_write_buf-nil s h = ground arith

  poll_write_pending-Fits :
      (s : BufBytesSink S A) → Fits limit s → Fits limit (poll_write_pending sink s).0
  unfolding poll_write_pending
  poll_write_pending-Fits s h = grind (arith, length-append)

  inner_poll_flush-Fits :
      (s : BufBytesSink S A) → Fits limit s → Fits limit (inner_poll_flush sink s).0
  unfolding inner_poll_flush
  inner_poll_flush-Fits s h = ground arith

  inner_poll_close-Fits :
      (s : BufBytesSink S A) → Fits limit s → Fits limit (inner_poll_close sink s).0
  unfolding inner_poll_close
  inner_poll_close-Fits s h = ground arith

  flush_if_needed-Fits :
      (s : BufBytesSink S A)
      → Fits limit s
      → Fits limit (if s.needs_flush then inner_poll_flush sink s else (s, ready ok)).0
  flush_if_needed-Fits s h = ground (arith, inner_poll_flush-Fits s h)

  poll_ready-Fits : (s : BufBytesSink S A) → Fits limit s → Fits limit (poll_ready sink s).0
  unfolding poll_ready
  poll_ready-Fits s h =
      ready?-keeps (Fits limit) (poll_write_pending sink s) _ (poll_write_pending-Fits s h)
        flush_if_needed-Fits

  poll_flush_shallow-Fits :
      (s : BufBytesSink S A) → Fits limit s → Fits limit (poll_flush_shallow sink s).0
  unfolding poll_flush_shallow
  poll_flush_shallow-Fits s h =
      ready?-keeps (Fits limit) (poll_write_pending sink s) _ (poll_write_pending-Fits s h)
        poll_write_buf-Fits

  -- Every polling operation keeps the buffer within its limit, whatever the inner sink answers.
  pub poll-Fits :
      (op : Polling) (s : BufBytesSink S A) → Fits limit s → Fits limit (poll sink op s).0
  unfolding poll poll_flush poll_close
  poll-Fits readying s h = poll_ready-Fits s h
  poll-Fits flushing s h =
      ready?-keeps (Fits limit) (poll_flush_shallow sink s) _ (poll_flush_shallow-Fits s h)
        inner_poll_flush-Fits
  poll-Fits closing s h =
      ready?-keeps (Fits limit) (poll_flush_shallow sink s) _ (poll_flush_shallow-Fits s h)
        inner_poll_close-Fits

  -- So `limit - buf.len()` never underflows.
  pub sub_usize_exact :
      (s : BufBytesSink S A)
      → Fits limit s
      → sub_usize s.limit (length s.buf) ≡ s.limit - length s.buf
  sub_usize_exact s h = ground arith

  poll_write_pending-none :
      (s : BufBytesSink S A)
      → (poll_write_pending sink s).1 ≡ ready ok
      → (poll_write_pending sink s).0.pending_write ≡ none
  unfolding poll_write_pending
  poll_write_pending-none s h = ground arith

  flush_if_needed_ok :
      (s : BufBytesSink S A)
      → s.pending_write ≡ none
      → (if s.needs_flush then inner_poll_flush sink s else (s, ready ok)).1 ≡ ready ok
      → let s' = (if s.needs_flush then inner_poll_flush sink s else (s, ready ok)).0 in
        (s'.pending_write ≡ none) × (s'.needs_flush ≡ false)
  unfolding inner_poll_flush
  flush_if_needed_ok s none_pending h = ground arith

  -- The two debug assertions of `start_send`: after `poll_ready` has answered `Ready(Ok(()))`, no
  -- write is pending and no flush is owed.
  pub poll_ready-asserts :
      (s : BufBytesSink S A)
      → (poll_ready sink s).1 ≡ ready ok
      → ((poll_ready sink s).0.pending_write ≡ none) × ((poll_ready sink s).0.needs_flush ≡ false)
  unfolding poll_ready
  poll_ready-asserts s h =
      let (written, same) = ready?-eq-ok (poll_write_pending sink s) _ h in
      rw same (flush_if_needed_ok _ (poll_write_pending-none s written) (rw same at h))
