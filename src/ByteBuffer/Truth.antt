-- ===== src/ByteBuffer/Truth.antt =====
-- byte_buffer.rs: a callback is told `false` only by an operation that fails.
use witchcraft_rust_server.Common.{
  ℕ, ◌≡◌, refl, ap, ◌∙◌, Bool, true, false, List, [], ◌∷◌, ◌++◌, ◌&&◌, map, if◌then◌else◌, arith,
}
use witchcraft_rust_server.Poll.{Result, ok, err, Poll, pending, ready, ready?, Sink, is_err}
use witchcraft_rust_server.ByteBuffer.{
  answer_all, BufBytesSink, inner_poll_flush, inner_poll_close, poll_write_buf, poll_write_pending,
  poll_flush_shallow, poll_ready, poll_flush, poll_close, Polling, readying, flushing, closing,
  poll,
}

unfoldable pub all_true : List (ℕ × Bool) → Bool
all_true [] = true
all_true ((cb, answer) ∷ rest) = answer && all_true rest

all_true-append :
    (answered : List (ℕ × Bool)) (cbs : List ℕ)
    → all_true (answered ++ answer_all true cbs) ≡ all_true answered
unfolding all_true answer_all
all_true-append [] [] = refl
all_true-append [] (cb ∷ cbs) = all_true-append [] cbs
all_true-append ((cb, answer) ∷ rest) cbs = ap (λ x. answer && x) (all_true-append rest cbs)

-- Answers that are all true are those of their callbacks.
pub all_true-answers :
    (answered : List (ℕ × Bool))
    → all_true answered ≡ true
    → answered ≡ answer_all true (map (λ a. a.0) answered)
unfolding all_true answer_all
all_true-answers [] h = refl
all_true-answers ((cb, true) ∷ rest) h = ap (λ x. (cb, true) ∷ x) (all_true-answers rest h)
all_true-answers ((cb, false) ∷ rest) h = absurd (ground arith)

module _ {S E A : Type 0} (sink : Sink S (List A) E) where
  abbrev Keeps : BufBytesSink S A → BufBytesSink S A × Poll (Result E) → Type 0
  Keeps s r = is_err r.1 ≡ false → all_true r.0.answered ≡ all_true s.answered

  poll_write_buf-Keeps : (s : BufBytesSink S A) → Keeps s (poll_write_buf sink s)
  unfolding poll_write_buf
  poll_write_buf-Keeps s h = grind (arith, all_true-append)

  poll_write_pending-Keeps : (s : BufBytesSink S A) → Keeps s (poll_write_pending sink s)
  unfolding poll_write_pending
  poll_write_pending-Keeps s h = grind (arith, all_true-append)

  inner_poll_flush-Keeps : (s : BufBytesSink S A) → Keeps s (inner_poll_flush sink s)
  unfolding inner_poll_flush
  inner_poll_flush-Keeps s h = grind (arith, all_true-append)

  inner_poll_close-Keeps : (s : BufBytesSink S A) → Keeps s (inner_poll_close sink s)
  unfolding inner_poll_close
  inner_poll_close-Keeps s h = grind (arith, all_true-append)

  then-Keeps :
      (s : BufBytesSink S A) (first : BufBytesSink S A × Poll (Result E))
      (rest : BufBytesSink S A → BufBytesSink S A × Poll (Result E))
      → Keeps s first
      → ((t : BufBytesSink S A) → Keeps t (rest t))
      → Keeps s (ready? first rest)
  then-Keeps s (t, pending) rest e k h = e refl
  then-Keeps s (t, ready ok) rest e k h = k t h ∙ e refl
  then-Keeps s (t, ready (err x)) rest e k h = absurd (ground arith)

  flush_if_needed-Keeps :
      (s : BufBytesSink S A)
      → Keeps s (if s.needs_flush then inner_poll_flush sink s else (s, ready ok))
  flush_if_needed-Keeps s h = ground (arith, inner_poll_flush-Keeps s)

  poll_flush_shallow-Keeps : (s : BufBytesSink S A) → Keeps s (poll_flush_shallow sink s)
  unfolding poll_flush_shallow
  poll_flush_shallow-Keeps s =
      then-Keeps s (poll_write_pending sink s) _ (poll_write_pending-Keeps s) poll_write_buf-Keeps

  -- A polling operation that does not fail tells no callback `false`.
  pub poll-Keeps : (op : Polling) (s : BufBytesSink S A) → Keeps s (poll sink op s)
  unfolding poll poll_ready poll_flush poll_close
  poll-Keeps readying s =
      then-Keeps s (poll_write_pending sink s) _ (poll_write_pending-Keeps s) flush_if_needed-Keeps
  poll-Keeps flushing s =
      then-Keeps s (poll_flush_shallow sink s) _ (poll_flush_shallow-Keeps s) inner_poll_flush-Keeps
  poll-Keeps closing s =
      then-Keeps s (poll_flush_shallow sink s) _ (poll_flush_shallow-Keeps s) inner_poll_close-Keeps
