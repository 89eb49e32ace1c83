-- ===== src/ResponseWriter/Writing.antt =====
-- body.rs: what is written to a response reaches the channel whole and in order.
use witchcraft_rust_server.Common.{
  ◌≡◌, refl, sym, ap, ◌∙◌, [], ◌++◌, ltb, length, is_empty, append-nil, append_assoc, Bool-cases,
  inl, inr,
}
use witchcraft_rust_server.Http.{Text, Frame, data_frame, trailers}
use witchcraft_rust_server.Poll.{Result, ok, err, Poll, pending, ready, ready?, Sink}
use witchcraft_rust_server.ResponseWriter.{
  ResponseWriter, on_sender, send_buf, poll_flush_shallow, poll_ready, poll_flush, poll_close,
  poll_write, take_all,
}

-- The bytes of a frame
abbrev pub bytes_of : Frame → Text
bytes_of (data_frame d) = d
bytes_of (trailers t) = []

-- What a channel does: a frame that it accepts is behind the frames before it, and one that it
-- refuses (since the receiver is gone) is not there.
pub record ChannelLaws {S E : Type 0} (sink : Sink S Frame E) : Type 0 where
  pub sent : S → Text
  pub sent-start_send :
      (s : S) (f : Frame)
      → (sink.start_send s f).1 ≡ ok
      → sent (sink.start_send s f).0 ≡ sent s ++ bytes_of f
  pub sent-poll_ready : (s : S) → sent (sink.poll_ready s).0 ≡ sent s
  pub sent-poll_flush : (s : S) → sent (sink.poll_flush s).0 ≡ sent s
  pub sent-poll_close : (s : S) → sent (sink.poll_close s).0 ≡ sent s

module _ {S E : Type 0} (sink : Sink S Frame E) (laws : ChannelLaws sink) where
  -- The bytes in the channel, then those in the buffer
  abbrev pub contents : ResponseWriter S → Text
  contents w = laws.sent w.sender ++ w.buf

  -- Unless the answer is an error, the contents are these.
  abbrev pub Holds : Text → ResponseWriter S × Poll (Result E) → Type 0
  Holds t (w, ready (err _)) = Unit {0}
  Holds t (w, ready ok) = contents w ≡ t
  Holds t (w, pending) = contents w ≡ t

  Holds-result :
      (t : Text) (w : ResponseWriter S) (r : Result E)
      → (r ≡ ok → contents w ≡ t)
      → Holds t (w, ready r)
  Holds-result t w ok h = h refl
  Holds-result t w (err e) h = tt

  Holds-any :
      (t : Text) (w : ResponseWriter S) (a : Poll (Result E)) → contents w ≡ t → Holds t (w, a)
  Holds-any t w pending h = h
  Holds-any t w (ready r) h = Holds-result t w r (λ _. h)

  ready?-Holds :
      (t u : Text) (first : ResponseWriter S × Poll (Result E))
      (rest : ResponseWriter S → ResponseWriter S × Poll (Result E))
      → Holds t first
      → ((w : ResponseWriter S) → contents w ≡ t → Holds t (rest w))
      → Holds t (ready? first rest)
  ready?-Holds t u (w, pending) rest h k = h
  ready?-Holds t u (w, ready ok) rest h k = k w h
  ready?-Holds t u (w, ready (err e)) rest h k = tt

  send_buf-Holds : (t : Text) (w : ResponseWriter S) → contents w ≡ t → Holds t (send_buf sink w)
  unfolding send_buf
  send_buf-Holds t w h =
      Holds-result t (send_buf sink w).0 (sink.start_send w.sender (data_frame w.buf)).1 (λ k.
        append-nil (laws.sent (sink.start_send w.sender (data_frame w.buf)).0)
        ∙ (laws.sent-start_send w.sender (data_frame w.buf) k ∙ h))

  on_sender-Holds :
      (method : S → S × Poll (Result E))
      → ((s : S) → laws.sent (method s).0 ≡ laws.sent s)
      → (t : Text) (w : ResponseWriter S) → contents w ≡ t
      → Holds t (on_sender sink method w)
  on_sender-Holds method keeps t w h =
      Holds-any t (on_sender sink method w).0 (method w.sender).1
        (ap (λ x. x ++ w.buf) (keeps w.sender) ∙ h)

  poll_flush_shallow-Holds :
      (t : Text) (w : ResponseWriter S) → contents w ≡ t → Holds t (poll_flush_shallow sink w)
  unfolding poll_flush_shallow
  poll_flush_shallow-Holds t w h = elim (Bool-cases (is_empty w.buf)) [
    | inl e ↦ rw e h
    | inr e ↦ rw e (
        ready?-Holds t t (on_sender sink sink.poll_ready w) (send_buf sink)
          (on_sender-Holds sink.poll_ready laws.sent-poll_ready t w h) (send_buf-Holds t))
  ]

  -- The polling methods of `Sink` and `AsyncWrite` that write nothing new
  pub data Polling : Type 0 where
    readying : Polling
    flushing : Polling
    closing : Polling

  abbrev pub poll : Polling → ResponseWriter S → ResponseWriter S × Poll (Result E)
  poll readying = poll_ready sink
  poll flushing = poll_flush sink
  poll closing = poll_close sink

  pub poll-Holds :
      (p : Polling) (t : Text) (w : ResponseWriter S) → contents w ≡ t → Holds t (poll p w)
  unfolding poll_ready poll_flush poll_close
  poll-Holds readying t w h =
      ready?-Holds t t (poll_flush_shallow sink w) (on_sender sink sink.poll_ready)
        (poll_flush_shallow-Holds t w h) (on_sender-Holds sink.poll_ready laws.sent-poll_ready t)
  poll-Holds flushing t w h =
      ready?-Holds t t (poll_flush_shallow sink w) (on_sender sink sink.poll_flush)
        (poll_flush_shallow-Holds t w h) (on_sender-Holds sink.poll_flush laws.sent-poll_flush t)
  poll-Holds closing t w h =
      ready?-Holds t t (poll_flush_shallow sink w) (on_sender sink sink.poll_close)
        (poll_flush_shallow-Holds t w h) (on_sender-Holds sink.poll_close laws.sent-poll_close t)

  -- What `poll_write` holds: with its bytes where it succeeds, as before where it has to wait.
  abbrev pub Wrote : Text → Text → ResponseWriter S × Poll (Result E) → Type 0
  Wrote t buf (w, ready (err _)) = Unit {0}
  Wrote t buf (w, ready ok) = contents w ≡ t ++ buf
  Wrote t buf (w, pending) = contents w ≡ t

  take_all-Wrote :
      (t buf : Text) (w : ResponseWriter S) → contents w ≡ t → Wrote t buf (take_all sink buf w)
  take_all-Wrote t buf w h =
      sym (append_assoc (laws.sent w.sender) w.buf buf) ∙ ap (λ x. x ++ buf) h

  ready?-Wrote :
      (t buf : Text) (first : ResponseWriter S × Poll (Result E))
      → Holds t first
      → Wrote t buf (ready? first (take_all sink buf))
  ready?-Wrote t buf (w, pending) h = h
  ready?-Wrote t buf (w, ready ok) h = take_all-Wrote t buf w h
  ready?-Wrote t buf (w, ready (err e)) h = tt

  pub poll_write-Wrote :
      (t buf : Text) (w : ResponseWriter S) → contents w ≡ t → Wrote t buf (poll_write sink buf w)
  unfolding poll_write
  poll_write-Wrote t buf w h = elim (Bool-cases (ltb 4096 (length w.buf))) [
    | inl e ↦ rw e (ready?-Wrote t buf (poll_flush_shallow sink w) (poll_flush_shallow-Holds t w h))
    | inr e ↦ rw e (take_all-Wrote t buf w h)
  ]
