-- ===== src/ByteBuffer/Callbacks.antt =====
-- witchcraft-server/src/logging/logger/byte_buffer.rs: each callback is answered exactly once, in
-- order, and with `true` only after a successful flush.
use witchcraft_rust_server.Common.{
  ℕ, ◌≡◌, refl, ap, ◌∙◌, Bool, Option, none, some, List, [], ◌∷◌, ◌++◌, map, if◌then◌else◌, to_list,
  append-nil, append_assoc, map-append, arith,
}
use witchcraft_rust_server.Poll.{Result, ok, Poll, ready, ready?, Sink, ready?-keeps}
use witchcraft_rust_server.ByteBuffer.{
  Payload, answer_all, BufBytesSink, inner_poll_flush, inner_poll_close, poll_write_buf,
  poll_write_pending, poll_flush_shallow, poll_ready, start_send, poll_flush, poll_close, Polling,
  readying, flushing, closing, poll,
}

module _ {A : Type 0} where
  pub cbs_of : Option (Payload A) → List ℕ
  cbs_of none = []
  cbs_of (some write) = to_list write.cb

-- The callbacks answered, those of the lines in the buffer, and that of the pending write.
all_cbs : {A : Type 0} → List (ℕ × Bool) → List ℕ → Option (Payload A) → List ℕ
all_cbs answered cbs write = map (λ a. a.0) answered ++ (cbs ++ cbs_of write)

pub callbacks : {S A : Type 0} → BufBytesSink S A → List ℕ
callbacks s = all_cbs s.answered s.pending_cbs s.pending_write

pub callbacks_answered :
    {S A : Type 0} (s : BufBytesSink S A)
    → s.pending_cbs ≡ []
    → s.pending_write ≡ none
    → callbacks s ≡ map (λ a. a.0) s.answered
unfolding callbacks all_cbs cbs_of
callbacks_answered s c w = rw (c, w) (append-nil (map (λ a. a.0) s.answered))

map_fst : (answer : Bool) (cbs : List ℕ) → map (λ (a : ℕ × Bool). a.0) (answer_all answer cbs) ≡ cbs
unfolding answer_all
map_fst answer [] = refl
map_fst answer (cb ∷ cbs) = ap (◌∷◌ cb) (map_fst answer cbs)

module _ {A : Type 0} where
  all_cbs-drain :
      (answered : List (ℕ × Bool)) (cbs : List ℕ) (write : Option (Payload A)) (answer : Bool)
      → all_cbs (answered ++ answer_all answer cbs) [] write ≡ all_cbs answered cbs write
  unfolding all_cbs
  all_cbs-drain answered cbs write answer = simp (map-append, map_fst, append_assoc)

  all_cbs-push :
      (answered : List (ℕ × Bool)) (cbs : List ℕ) (write : Payload A)
      → all_cbs {A = A} answered (cbs ++ to_list write.cb) none ≡ all_cbs answered cbs (some write)
  unfolding all_cbs cbs_of
  all_cbs-push answered cbs write = simp append-nil

module _ {S E A : Type 0} (sink : Sink S (List A) E) where
  poll_write_buf-callbacks :
      (s : BufBytesSink S A) → callbacks (poll_write_buf sink s).0 ≡ callbacks s
  unfolding callbacks poll_write_buf
  poll_write_buf-callbacks s = grind (arith, all_cbs-drain)

  poll_write_pending-callbacks :
      (s : BufBytesSink S A) → callbacks (poll_write_pending sink s).0 ≡ callbacks s
  unfolding callbacks poll_write_pending
  poll_write_pending-callbacks s = grind (arith, all_cbs-drain, all_cbs-push)

  inner_poll_flush-callbacks :
      (s : BufBytesSink S A) → callbacks (inner_poll_flush sink s).0 ≡ callbacks s
  unfolding callbacks inner_poll_flush
  inner_poll_flush-callbacks s = grind (arith, all_cbs-drain)

  inner_poll_close-callbacks :
      (s : BufBytesSink S A) → callbacks (inner_poll_close sink s).0 ≡ callbacks s
  unfolding callbacks inner_poll_close
  inner_poll_close-callbacks s = grind (arith, all_cbs-drain)

  pub start_send-callbacks :
      (s : BufBytesSink S A) (item : Payload (List A))
      → s.pending_write ≡ none
      → callbacks (start_send sink s item).0 ≡ callbacks s ++ to_list item.cb
  unfolding callbacks start_send all_cbs cbs_of
  start_send-callbacks s item e = rw e (simp (append-nil, append_assoc))

  -- A step that keeps the callbacks, after another one.
  then_keeps :
      (first : BufBytesSink S A × Poll (Result E))
      (rest : BufBytesSink S A → BufBytesSink S A × Poll (Result E)) (cbs : List ℕ)
      → callbacks first.0 ≡ cbs
      → ((s : BufBytesSink S A) → callbacks (rest s).0 ≡ callbacks s)
      → callbacks (ready? first rest).0 ≡ cbs
  then_keeps first rest cbs h k =
      ready?-keeps (λ s. callbacks s ≡ cbs) first rest h (λ s e. k s ∙ e)

  flush_if_needed-callbacks :
      (s : BufBytesSink S A)
      → callbacks (if s.needs_flush then inner_poll_flush sink s else (s, ready ok)).0 ≡ callbacks s
  flush_if_needed-callbacks s = ground (arith, inner_poll_flush-callbacks s)

  poll_flush_shallow-callbacks :
      (s : BufBytesSink S A) → callbacks (poll_flush_shallow sink s).0 ≡ callbacks s
  unfolding poll_flush_shallow
  poll_flush_shallow-callbacks s =
      then_keeps (poll_write_pending sink s) _ _ (poll_write_pending-callbacks s)
        poll_write_buf-callbacks

  -- No polling operation loses a callback, answers one twice or lets one overtake another, also
  -- when the inner sink fails: the callbacks answered, followed by those of the buffer and of the
  -- pending write, stay one and the same list.
  pub poll-callbacks :
      (op : Polling) (s : BufBytesSink S A) → callbacks (poll sink op s).0 ≡ callbacks s
  unfolding poll poll_ready poll_flush poll_close
  poll-callbacks readying s =
      then_keeps (poll_write_pending sink s) _ _ (poll_write_pending-callbacks s)
        flush_if_needed-callbacks
  poll-callbacks flushing s =
      then_keeps (poll_flush_shallow sink s) _ _ (poll_flush_shallow-callbacks s)
        inner_poll_flush-callbacks
  poll-callbacks closing s =
      then_keeps (poll_flush_shallow sink s) _ _ (poll_flush_shallow-callbacks s)
        inner_poll_close-callbacks
