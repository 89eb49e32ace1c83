-- ===== src/ResponseWriter/History.antt =====
-- body.rs: the channel after any history of writes.
use witchcraft_rust_server.Common.{
  is_empty-nil, ◌≡◌, ◌≢◌, sym, ap, ◌∙◌, [], ◌++◌, is_empty, append-nil, arith, Bool-cases, inl, inr,
}
use witchcraft_rust_server.Http.{Text, Frame}
use witchcraft_rust_server.Poll.{Result, ok, err, Poll, pending, ready, ready?-eq-ok, Sink}
use witchcraft_rust_server.ResponseWriter.{
  ResponseWriter, started, panicked, new, on_sender, send_buf, poll_flush_shallow, start_send_inner,
  start_send, poll_ready, poll_flush, poll_close, poll_write,
}
use witchcraft_rust_server.ResponseWriter.Writing.{
  bytes_of, ChannelLaws, contents, Holds, Polling, readying, flushing, closing, poll, poll-Holds,
  Wrote, poll_write-Wrote,
}

module _ {S E : Type 0} (sink : Sink S Frame E) (laws : ChannelLaws sink) where
  start_send_inner-contents :
      (f : Frame) (w : ResponseWriter S)
      → (start_send_inner sink f w).1 ≡ started ok
      → contents sink laws (start_send_inner sink f w).0 ≡ contents sink laws w ++ bytes_of f
  unfolding start_send_inner
  start_send_inner-contents f w h = elim (Bool-cases (is_empty w.buf)) [
    | inl e ↦
        let b = is_empty-nil w.buf e in
        let k : (sink.start_send w.sender f).1 ≡ ok = ground arith in
        let l = laws.sent-start_send w.sender f k in
        let s = (sink.start_send w.sender f).0 in
        rw e (
          ap (λ x. laws.sent s ++ x) b
          ∙ (append-nil (laws.sent s)
              ∙ (l
                  ∙ ap (λ x. x ++ bytes_of f)
                      (sym (append-nil (laws.sent w.sender))
                        ∙ ap (λ x. laws.sent w.sender ++ x) (sym b)))))
    | inr e ↦ absurd (ground arith)
  ]

  -- What an endpoint writes, and the bytes that were taken: it sends items and trailers, writes
  -- bytes, and polls; it ends at the first error.
  pub data Writes (start : S) : ResponseWriter S → Text → Type 0 where
    opens : Writes start (new sink start) []
    sends :
        {w : ResponseWriter S} {out : Text} (f : Frame)
        → Writes start w out
        → (start_send_inner sink f w).1 ≡ started ok
        → Writes start (start_send_inner sink f w).0 (out ++ bytes_of f)
    writes :
        {w : ResponseWriter S} {out : Text} (buf : Text)
        → Writes start w out
        → (poll_write sink buf w).1 ≡ ready ok
        → Writes start (poll_write sink buf w).0 (out ++ buf)
    write_waits :
        {w : ResponseWriter S} {out : Text} (buf : Text)
        → Writes start w out
        → (poll_write sink buf w).1 ≡ pending
        → Writes start (poll_write sink buf w).0 out
    polls :
        {w : ResponseWriter S} {out : Text} (p : Polling sink laws)
        → Writes start w out
        → (poll sink laws p w).1 ≡ ready ok
        → Writes start (poll sink laws p w).0 out
    poll_waits :
        {w : ResponseWriter S} {out : Text} (p : Polling sink laws)
        → Writes start w out
        → (poll sink laws p w).1 ≡ pending
        → Writes start (poll sink laws p w).0 out

  Holds-ok :
      (t : Text) (r : ResponseWriter S × Poll (Result E))
      → Holds sink laws t r
      → r.1 ≡ ready ok
      → contents sink laws r.0 ≡ t
  Holds-ok t (w, ready ok) h e = h
  Holds-ok t (w, pending) h e = h
  Holds-ok t (w, ready (err x)) h e = absurd (ground arith)

  Holds-pending :
      (t : Text) (r : ResponseWriter S × Poll (Result E))
      → Holds sink laws t r
      → r.1 ≡ pending
      → contents sink laws r.0 ≡ t
  Holds-pending t (w, ready ok) h e = h
  Holds-pending t (w, pending) h e = h
  Holds-pending t (w, ready (err x)) h e = absurd (ground arith)

  Wrote-ok :
      (t buf : Text) (r : ResponseWriter S × Poll (Result E))
      → Wrote sink laws t buf r
      → r.1 ≡ ready ok
      → contents sink laws r.0 ≡ t ++ buf
  Wrote-ok t buf (w, ready ok) h e = h
  Wrote-ok t buf (w, pending) h e = absurd (ground arith)
  Wrote-ok t buf (w, ready (err x)) h e = absurd (ground arith)

  Wrote-pending :
      (t buf : Text) (r : ResponseWriter S × Poll (Result E))
      → Wrote sink laws t buf r
      → r.1 ≡ pending
      → contents sink laws r.0 ≡ t
  Wrote-pending t buf (w, pending) h e = h
  Wrote-pending t buf (w, ready ok) h e = absurd (ground arith)
  Wrote-pending t buf (w, ready (err x)) h e = absurd (ground arith)

  Writes-contents :
      {start : S} {w : ResponseWriter S} {out : Text}
      → laws.sent start ≡ []
      → Writes start w out
      → contents sink laws w ≡ out
  unfolding new
  Writes-contents {start} n opens = append-nil (laws.sent start) ∙ n
  Writes-contents n (sends {w = w} f h k) =
      start_send_inner-contents f w k ∙ ap (λ x. x ++ bytes_of f) (Writes-contents n h)
  Writes-contents n (writes {w = w} {out = out} buf h k) =
      Wrote-ok out buf (poll_write sink buf w)
        (poll_write-Wrote sink laws out buf w (Writes-contents n h)) k
  Writes-contents n (write_waits {w = w} {out = out} buf h k) =
      Wrote-pending out buf (poll_write sink buf w)
        (poll_write-Wrote sink laws out buf w (Writes-contents n h)) k
  Writes-contents n (polls {w = w} {out = out} p h k) =
      Holds-ok out (poll sink laws p w) (poll-Holds sink laws p out w (Writes-contents n h)) k
  Writes-contents n (poll_waits {w = w} {out = out} p h k) =
      Holds-pending out (poll sink laws p w) (poll-Holds sink laws p out w (Writes-contents n h)) k

  poll_flush_shallow-empties :
      (w : ResponseWriter S)
      → (poll_flush_shallow sink w).1 ≡ ready ok
      → (poll_flush_shallow sink w).0.buf ≡ []
  unfolding poll_flush_shallow send_buf
  poll_flush_shallow-empties w h = elim (Bool-cases (is_empty w.buf)) [
    | inl e ↦ rw e (is_empty-nil w.buf e)
    | inr e ↦
        let (a, b) = ready?-eq-ok (on_sender sink sink.poll_ready w) (send_buf sink) (rw e at h) in
        rw e (ap (λ r. r.0.buf) b)
  ]

  poll-empties :
      (p : Polling sink laws) (w : ResponseWriter S)
      → (poll sink laws p w).1 ≡ ready ok
      → (poll sink laws p w).0.buf ≡ []
  unfolding poll_ready poll_flush poll_close
  poll-empties readying w h =
      let (a, b) = ready?-eq-ok (poll_flush_shallow sink w) (on_sender sink sink.poll_ready) h in
      ap (λ r. r.0.buf) b ∙ poll_flush_shallow-empties w a
  poll-empties flushing w h =
      let (a, b) = ready?-eq-ok (poll_flush_shallow sink w) (on_sender sink sink.poll_flush) h in
      ap (λ r. r.0.buf) b ∙ poll_flush_shallow-empties w a
  poll-empties closing w h =
      let (a, b) = ready?-eq-ok (poll_flush_shallow sink w) (on_sender sink sink.poll_close) h in
      ap (λ r. r.0.buf) b ∙ poll_flush_shallow-empties w a

  -- After any history without an error, where poll_ready, poll_flush or poll_close answers
  -- Ready(Ok), the channel has got all the bytes that were taken, in order, and a start_send that
  -- follows does not panic.
  pub poll-delivers :
      {start : S} {w : ResponseWriter S} {out : Text} (p : Polling sink laws) (item : Text)
      → laws.sent start ≡ []
      → Writes start w out
      → (poll sink laws p w).1 ≡ ready ok
      → (laws.sent (poll sink laws p w).0.sender ≡ out)
        × ((start_send sink item (poll sink laws p w).0).1 ≢ panicked)
  unfolding start_send start_send_inner
  poll-delivers {start} {w} {out} p item n h k =
      let b = poll-empties p w k in
      let c = Writes-contents n (polls p h k) in
      (
        sym (append-nil (laws.sent (poll sink laws p w).0.sender))
            ∙ (ap (λ x. laws.sent (poll sink laws p w).0.sender ++ x) (sym b) ∙ c),
        λ q. ground arith,
      )
