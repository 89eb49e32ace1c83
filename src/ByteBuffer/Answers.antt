-- ===== src/ByteBuffer/Answers.antt =====
-- witchcraft-server/src/logging/logger/byte_buffer.rs: what the answers given to the callbacks mean.
use witchcraft_rust_server.Common.{
  ℕ, ◌<◌, length, ◌≡◌, ◌≢◌, refl, ap, ◌∙◌, Bool, true, false, Option, none, some, List, [], ◌∷◌,
  ◌++◌, if◌then◌else◌, to_list, append-nil, arith,
}
use witchcraft_rust_server.Poll.{
  Result, ok, err, Poll, pending, ready, ready?, Sink, ready?-keeps, ready?-eq-ok,
}
use witchcraft_rust_server.ByteBuffer.{
  sub_usize, Payload, answer_all, BufBytesSink, inner_poll_flush, inner_poll_close, poll_write_buf,
  poll_write_pending, poll_flush_shallow, poll_ready, poll_flush, poll_close, Polling, readying,
  flushing, closing, poll,
}

-- The callbacks of the lines that were accepted and have no answer.
abbrev pub cbs_of : {A : Type 0} → Option (Payload A) → List ℕ
cbs_of none = []
cbs_of (some write) = to_list write.cb

pub outstanding : {S A : Type 0} → BufBytesSink S A → List ℕ
outstanding s = s.pending_cbs ++ cbs_of s.pending_write

-- The callbacks that were told `true`.
unfoldable pub trues : List (ℕ × Bool) → List ℕ
trues [] = []
trues ((cb, true) ∷ rest) = cb ∷ trues rest
trues ((cb, false) ∷ rest) = trues rest

trues-append_false :
    (answered : List (ℕ × Bool)) (cbs : List ℕ)
    → trues (answered ++ answer_all false cbs) ≡ trues answered
unfolding trues answer_all
trues-append_false [] [] = refl
trues-append_false [] (cb ∷ cbs) = trues-append_false [] cbs
trues-append_false ((cb, true) ∷ rest) cbs = ap (◌∷◌ cb) (trues-append_false rest cbs)
trues-append_false ((cb, false) ∷ rest) cbs = trues-append_false rest cbs

-- Nothing is pending, buffered, unanswered or unflushed.
pub record IsClean {S A : Type 0} (s : BufBytesSink S A) : Type 0 where
  pub no_write : s.pending_write ≡ none
  pub no_bytes : s.buf ≡ []
  pub no_cbs : s.pending_cbs ≡ []

module _ {S E A : Type 0} (sink : Sink S (List A) E) where
  -- A part that succeeds leaves the answers alone.
  abbrev Waits : BufBytesSink S A → BufBytesSink S A → Type 0
  Waits s s' = (s'.answered ≡ s.answered) × (outstanding s' ≡ outstanding s)

  poll_write_buf_ok :
      (s : BufBytesSink S A)
      → (poll_write_buf sink s).1 ≡ ready ok
      → let s' = (poll_write_buf sink s).0 in
        (s'.buf ≡ [])
        × (s'.answered ≡ s.answered)
        × (s'.pending_cbs ≡ s.pending_cbs)
        × (s'.pending_write ≡ s.pending_write)
  unfolding poll_write_buf
  poll_write_buf_ok s h = ground arith

  poll_write_pending_ok :
      (s : BufBytesSink S A)
      → (poll_write_pending sink s).1 ≡ ready ok
      → let s' = (poll_write_pending sink s).0 in
        (s'.pending_write ≡ none) × (s'.answered ≡ s.answered) × (s'.pending_cbs ≡ outstanding s)
  unfolding poll_write_pending outstanding
  poll_write_pending_ok s h = ground (arith, append-nil s.pending_cbs)

  poll_flush_shallow_ok :
      (s : BufBytesSink S A)
      → (poll_flush_shallow sink s).1 ≡ ready ok
      → let s' = (poll_flush_shallow sink s).0 in
        (s'.buf ≡ [])
        × (s'.pending_write ≡ none)
        × (s'.answered ≡ s.answered)
        × (s'.pending_cbs ≡ outstanding s)
  unfolding poll_flush_shallow
  poll_flush_shallow_ok s h =
      let (written, same) = ready?-eq-ok (poll_write_pending sink s) (poll_write_buf sink) h in
      rw same (
        ground (
          arith,
          poll_write_pending_ok s written,
          poll_write_buf_ok (poll_write_pending sink s).0 (rw same at h),
        ))

  -- A flush that succeeds leaves nothing behind, and tells `true` to exactly the callbacks of the
  -- lines that were waiting, in their order.
  pub poll_flush-answers :
      (s : BufBytesSink S A)
      → (poll_flush sink s).1 ≡ ready ok
      → ((poll_flush sink s).0.answered ≡ s.answered ++ answer_all true (outstanding s))
        × IsClean (poll_flush sink s).0
        × ((poll_flush sink s).0.needs_flush ≡ false)
  unfolding poll_flush inner_poll_flush
  poll_flush-answers s h =
      let (shallow, same) = ready?-eq-ok (poll_flush_shallow sink s) _ h in
      rw same (ground (arith, poll_flush_shallow_ok s shallow, rw same at h))

  poll_write_pending-trues :
      (s : BufBytesSink S A) → trues (poll_write_pending sink s).0.answered ≡ trues s.answered
  unfolding poll_write_pending
  poll_write_pending-trues s = grind (arith, trues-append_false)

  poll_write_buf-trues :
      (s : BufBytesSink S A) → trues (poll_write_buf sink s).0.answered ≡ trues s.answered
  unfolding poll_write_buf
  poll_write_buf-trues s = grind (arith, trues-append_false)

  inner_poll_flush-trues :
      (s : BufBytesSink S A)
      → (inner_poll_flush sink s).1 ≢ ready ok
      → trues (inner_poll_flush sink s).0.answered ≡ trues s.answered
  unfolding inner_poll_flush
  inner_poll_flush-trues s h = grind (arith, trues-append_false)

  inner_poll_close-trues :
      (s : BufBytesSink S A)
      → (inner_poll_close sink s).1 ≢ ready ok
      → trues (inner_poll_close sink s).0.answered ≡ trues s.answered
  unfolding inner_poll_close
  inner_poll_close-trues s h = grind (arith, trues-append_false)

  flush_if_needed-trues :
      (s : BufBytesSink S A)
      → (if s.needs_flush then inner_poll_flush sink s else (s, ready ok)).1 ≢ ready ok
      → trues (if s.needs_flush then inner_poll_flush sink s else (s, ready ok)).0.answered
        ≡ trues s.answered
  flush_if_needed-trues s h = ground (arith, inner_poll_flush-trues s)

  poll_flush_shallow-trues :
      (s : BufBytesSink S A) → trues (poll_flush_shallow sink s).0.answered ≡ trues s.answered
  unfolding poll_flush_shallow
  poll_flush_shallow-trues s =
      ready?-keeps (λ t. trues t.answered ≡ trues s.answered) (poll_write_pending sink s) _
        (poll_write_pending-trues s) (λ t e. poll_write_buf-trues t ∙ e)

  then_no_true :
      (first : BufBytesSink S A × Poll (Result E))
      (rest : BufBytesSink S A → BufBytesSink S A × Poll (Result E)) (answers : List ℕ)
      → trues first.0.answered ≡ answers
      → ((s : BufBytesSink S A)
          → (rest s).1 ≢ ready ok
          → trues (rest s).0.answered ≡ trues s.answered)
      → (ready? first rest).1 ≢ ready ok
      → trues (ready? first rest).0.answered ≡ answers
  then_no_true (s, pending) rest answers e k h = e
  then_no_true (s, ready ok) rest answers e k h = k s h ∙ e
  then_no_true (s, ready (err x)) rest answers e k h = e

  -- A polling operation that fails or is not finished tells no callback `true`.
  pub poll-trues :
      (op : Polling) (s : BufBytesSink S A)
      → (poll sink op s).1 ≢ ready ok
      → trues (poll sink op s).0.answered ≡ trues s.answered
  unfolding poll poll_ready poll_flush poll_close
  poll-trues readying s h =
      then_no_true (poll_write_pending sink s) _ _ (poll_write_pending-trues s)
        flush_if_needed-trues h
  poll-trues flushing s h =
      then_no_true (poll_flush_shallow sink s) _ _ (poll_flush_shallow-trues s)
        inner_poll_flush-trues h
  poll-trues closing s h =
      then_no_true (poll_flush_shallow sink s) _ _ (poll_flush_shallow-trues s)
        inner_poll_close-trues h

  -- A line that overflows the buffer is told `true` too early: where its bytes do not fit beside
  -- those in the buffer and the inner sink takes and flushes these, `poll_ready` answers its callback
  -- `true`, while its bytes are still in the buffer and the inner sink has not seen them.
  pub poll_ready-acknowledges_early :
      (s : BufBytesSink S A) (write : Payload (List A)) (i j k : S)
      → s.pending_write ≡ some write
      → sub_usize s.limit (length s.buf) < length write.value
      → length write.value < s.limit
      → s.buf ≢ []
      → sink.poll_ready s.inner ≡ (i, ready ok)
      → sink.start_send i s.buf ≡ (j, ok)
      → sink.poll_flush j ≡ (k, ready ok)
      → let s' = (poll_ready sink s).0 in
        (s'.answered ≡ s.answered ++ answer_all true (s.pending_cbs ++ to_list write.cb))
        × (s'.buf ≡ write.value)
        × (s'.inner ≡ k)
  unfolding poll_ready poll_write_pending inner_poll_flush
  poll_ready-acknowledges_early s write i j k pw over under full r t f = ground arith

  -- A flush that succeeds ends with a flush of the inner sink that succeeds.
  pub poll_flush-inner :
      (s : BufBytesSink S A)
      → (poll_flush sink s).1 ≡ ready ok
      → (i : S) × ((sink.poll_flush i).1 ≡ ready ok)
        × ((poll_flush sink s).0.inner ≡ (sink.poll_flush i).0)
  unfolding poll_flush inner_poll_flush
  poll_flush-inner s h =
      let (shallow, same) = ready?-eq-ok (poll_flush_shallow sink s) _ h in
      (
        (poll_flush_shallow sink s).0.inner,
        ground (arith, rw same at h),
        ground (arith, same, rw same at h),
      )

  -- So does a close: it leaves nothing behind, tells `true` to the callbacks that were waiting, and
  -- ends with a close of the inner sink that succeeds.
  pub poll_close-answers :
      (s : BufBytesSink S A)
      → (poll_close sink s).1 ≡ ready ok
      → ((poll_close sink s).0.answered ≡ s.answered ++ answer_all true (outstanding s))
        × IsClean (poll_close sink s).0
  unfolding poll_close inner_poll_close
  poll_close-answers s h =
      let (shallow, same) = ready?-eq-ok (poll_flush_shallow sink s) _ h in
      rw same (ground (arith, poll_flush_shallow_ok s shallow, rw same at h))

  pub poll_close-inner :
      (s : BufBytesSink S A)
      → (poll_close sink s).1 ≡ ready ok
      → (i : S) × ((sink.poll_close i).1 ≡ ready ok)
        × ((poll_close sink s).0.inner ≡ (sink.poll_close i).0)
  unfolding poll_close inner_poll_close
  poll_close-inner s h =
      let (shallow, same) = ready?-eq-ok (poll_flush_shallow sink s) _ h in
      (
        (poll_flush_shallow sink s).0.inner,
        ground (arith, rw same at h),
        ground (arith, same, rw same at h),
      )
