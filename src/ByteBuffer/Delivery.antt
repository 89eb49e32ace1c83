-- ===== src/ByteBuffer/Delivery.antt =====
-- witchcraft-server/src/logging/logger/byte_buffer.rs: bytes reach the inner sink whole and in
-- order, over any inner sink that keeps the laws of `Poll.SinkLaws`.
use witchcraft_rust_server.Common.{
  ◌≡◌, refl, sym, ◌∙◌, false, Option, none, some, List, [], ◌++◌, if◌then◌else◌, append-nil,
  append_assoc, arith,
}
use witchcraft_rust_server.Poll.{
  Result, ok, err, Poll, pending, ready, ready?, Sink, SinkLaws, is_err,
}
use witchcraft_rust_server.ByteBuffer.{
  Payload, BufBytesSink, inner_poll_flush, inner_poll_close, poll_write_buf, poll_write_pending,
  poll_flush_shallow, poll_ready, start_send, poll_flush, poll_close, Polling, readying, flushing,
  closing, poll, send_now,
}
use witchcraft_rust_server.ByteBuffer.Answers.{IsClean, poll_flush-answers, poll_close-answers}

value_of : {A : Type 0} → Option (Payload (List A)) → List A
value_of none = []
value_of (some write) = write.value

contents_of : {A : Type 0} → List A → List A → Option (Payload (List A)) → List A
contents_of accepted buf write = accepted ++ (buf ++ value_of write)

module _ {A : Type 0} where
  contents_of-move :
      (acc buf : List A) (write : Option (Payload (List A)))
      → contents_of (acc ++ buf) [] write ≡ contents_of acc buf write
  unfolding contents_of
  contents_of-move acc buf write = append_assoc acc buf (value_of write)

  contents_of-extend :
      (acc buf : List A) (write : Payload (List A))
      → contents_of acc (buf ++ write.value) none ≡ contents_of acc buf (some write)
  unfolding contents_of value_of
  contents_of-extend acc buf write = simp append-nil

  contents_of-send :
      (acc : List A) (write : Payload (List A))
      → contents_of (acc ++ write.value) [] none ≡ contents_of acc [] (some write)
  unfolding contents_of value_of
  contents_of-send acc write = simp append-nil

module _ {S E A : Type 0} (sink : Sink S (List A) E) (laws : SinkLaws sink) where
  -- All bytes in the order in which they came: those handed to the inner sink, those in the buffer
  -- and those of the pending write.
  pub contents : BufBytesSink S A → List A
  contents s = contents_of (laws.accepted s.inner) s.buf s.pending_write

  send_now-contents :
      (s : BufBytesSink S A) (item : List A)
      → laws.IsReady s.inner
      → is_err (send_now sink item s).1 ≡ false
      → contents (send_now sink item s).0
        ≡ contents_of (laws.accepted s.inner ++ item) s.buf s.pending_write
  unfolding contents send_now
  send_now-contents s item r h = ground (arith, laws.accepted-start_send s.inner item r)

  poll_write_buf-contents :
      (s : BufBytesSink S A)
      → is_err (poll_write_buf sink s).1 ≡ false
      → contents (poll_write_buf sink s).0 ≡ contents s
  unfolding contents poll_write_buf
  poll_write_buf-contents s h = grind (
    arith, laws.accepted-poll_ready, laws.accepted-start_send, laws.ready_when_ok, contents_of-move,
  )

  poll_write_pending-contents :
      (s : BufBytesSink S A)
      → is_err (poll_write_pending sink s).1 ≡ false
      → contents (poll_write_pending sink s).0 ≡ contents s
  unfolding contents poll_write_pending
  poll_write_pending-contents s h = grind (
    arith, laws.accepted-poll_ready, laws.accepted-start_send, laws.ready_when_ok, contents_of-move,
    contents_of-extend, contents_of-send,
  )

  inner_poll_flush-contents :
      (s : BufBytesSink S A)
      → is_err (inner_poll_flush sink s).1 ≡ false
      → contents (inner_poll_flush sink s).0 ≡ contents s
  unfolding contents inner_poll_flush
  inner_poll_flush-contents s h = ground (arith, laws.accepted-poll_flush s.inner)

  inner_poll_close-contents :
      (s : BufBytesSink S A)
      → is_err (inner_poll_close sink s).1 ≡ false
      → contents (inner_poll_close sink s).0 ≡ contents s
  unfolding contents inner_poll_close
  inner_poll_close-contents s h = ground (arith, laws.accepted-poll_close s.inner)

  then_contents :
      (first : BufBytesSink S A × Poll (Result E))
      (rest : BufBytesSink S A → BufBytesSink S A × Poll (Result E)) (bytes : List A)
      → (is_err first.1 ≡ false → contents first.0 ≡ bytes)
      → ((s : BufBytesSink S A) → is_err (rest s).1 ≡ false → contents (rest s).0 ≡ contents s)
      → is_err (ready? first rest).1 ≡ false
      → contents (ready? first rest).0 ≡ bytes
  then_contents (s, pending) rest bytes e k h = e refl
  then_contents (s, ready ok) rest bytes e k h = k s h ∙ e refl
  then_contents (s, ready (err x)) rest bytes e k h = cc

  flush_if_needed-contents :
      (s : BufBytesSink S A)
      → is_err (if s.needs_flush then inner_poll_flush sink s else (s, ready ok)).1 ≡ false
      → contents (if s.needs_flush then inner_poll_flush sink s else (s, ready ok)).0 ≡ contents s
  flush_if_needed-contents s h = ground (arith, inner_poll_flush-contents s)

  poll_flush_shallow-contents :
      (s : BufBytesSink S A)
      → is_err (poll_flush_shallow sink s).1 ≡ false
      → contents (poll_flush_shallow sink s).0 ≡ contents s
  unfolding poll_flush_shallow
  poll_flush_shallow-contents s h =
      then_contents (poll_write_pending sink s) _ _ (poll_write_pending-contents s)
        poll_write_buf-contents h

  -- A polling operation that does not fail loses, repeats and reorders no byte, over any inner sink
  -- that keeps its laws.
  pub poll-contents :
      (op : Polling) (s : BufBytesSink S A)
      → is_err (poll sink op s).1 ≡ false
      → contents (poll sink op s).0 ≡ contents s
  unfolding poll poll_ready poll_flush poll_close
  poll-contents readying s h =
      then_contents (poll_write_pending sink s) _ _ (poll_write_pending-contents s)
        flush_if_needed-contents h
  poll-contents flushing s h =
      then_contents (poll_flush_shallow sink s) _ _ (poll_flush_shallow-contents s)
        inner_poll_flush-contents h
  poll-contents closing s h =
      then_contents (poll_flush_shallow sink s) _ _ (poll_flush_shallow-contents s)
        inner_poll_close-contents h

  pub contents_of_clean : (s : BufBytesSink S A) → IsClean s → contents s ≡ laws.accepted s.inner
  unfolding contents contents_of value_of
  contents_of_clean s c = rw (c.no_write, c.no_bytes) (append-nil (laws.accepted s.inner))

  -- A flush that succeeds has handed every byte to the inner sink.
  pub poll_flush-accepted :
      (s : BufBytesSink S A)
      → (poll_flush sink s).1 ≡ ready ok
      → laws.accepted (poll_flush sink s).0.inner ≡ contents s
  unfolding poll
  poll_flush-accepted s h =
      sym (contents_of_clean (poll_flush sink s).0 (poll_flush-answers sink s h).1)
      ∙ poll-contents flushing s (rw h)

  -- So has a close.
  pub poll_close-accepted :
      (s : BufBytesSink S A)
      → (poll_close sink s).1 ≡ ready ok
      → laws.accepted (poll_close sink s).0.inner ≡ contents s
  unfolding poll
  poll_close-accepted s h =
      sym (contents_of_clean (poll_close sink s).0 (poll_close-answers sink s h).1)
      ∙ poll-contents closing s (rw h)

  -- An item that is sent where no write is pending is appended.
  pub contents-start_send :
      (s : BufBytesSink S A) (item : Payload (List A))
      → s.pending_write ≡ none
      → contents (start_send sink s item).0 ≡ contents s ++ item.value
  unfolding contents start_send contents_of value_of
  contents-start_send s item h = rw h (simp (append-nil, append_assoc))
