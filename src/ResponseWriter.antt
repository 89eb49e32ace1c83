-- ===== src/ResponseWriter.antt =====
-- witchcraft-server/src/body.rs: `ResponseWriter`, through which an endpoint writes the body of its
-- response. The sender of the channel is a parameter, a `Poll.Sink` of frames; the kinds of errors
-- are those of the sender. `panicked` is the failure of the `assert!`.
pub mod Blocking
pub mod Writing
pub mod History
mod Tests
use witchcraft_rust_server.Common.{
  ℕ, ◌≡◌, Bool, true, false, List, [], ◌∷◌, ◌++◌, if◌then◌else◌, ltb, length, is_empty,
}
use witchcraft_rust_server.Http.{Text, Frame, data_frame, trailers}
use witchcraft_rust_server.Poll.{Result, ok, err, Poll, pending, ready, ready?, Sink}

pub record ResponseWriter (S : Type 0) : Type 0 where
  pub sender : S
  pub buf : Text

pub data Started (E : Type 0) : Type 0 where
  started : Result E → Started E
  panicked : Started E

module _ {S E : Type 0} (sink : Sink S Frame E) where
  unfoldable pub new : S → ResponseWriter S
  new sender = record { sender = sender; buf = [] }

  -- A polling method of the sender
  abbrev pub on_sender :
      (S → S × Poll (Result E)) → ResponseWriter S → ResponseWriter S × Poll (Result E)
  on_sender method w = let (s, answer) = method w.sender in (record w { sender = s }, answer)

  -- `self.sender.start_send(Frame::data(self.buf.split().freeze()))?`
  unfoldable pub send_buf : ResponseWriter S → ResponseWriter S × Poll (Result E)
  send_buf w =
      let (s, result) = sink.start_send w.sender (data_frame w.buf) in
      (record { sender = s; buf = [] }, ready result)

  unfoldable pub poll_flush_shallow : ResponseWriter S → ResponseWriter S × Poll (Result E)
  unfolding send_buf
  poll_flush_shallow w =
      if is_empty w.buf then (w, ready ok) else ready? (on_sender sink.poll_ready w) send_buf

  unfoldable pub start_send_inner : Frame → ResponseWriter S → ResponseWriter S × Started E
  start_send_inner item w =
      let (s, result) = sink.start_send w.sender item in
      if is_empty w.buf then (record w { sender = s }, started result) else (w, panicked)

  unfoldable pub start_send : Text → ResponseWriter S → ResponseWriter S × Started E
  unfolding start_send_inner
  start_send item w = start_send_inner (data_frame item) w

  unfoldable pub start_send_trailers : Text → ResponseWriter S → ResponseWriter S × Started E
  unfolding start_send_inner
  start_send_trailers t w = start_send_inner (trailers t) w

  unfoldable pub poll_ready : ResponseWriter S → ResponseWriter S × Poll (Result E)
  unfolding poll_flush_shallow
  poll_ready w = ready? (poll_flush_shallow w) (on_sender sink.poll_ready)

  unfoldable pub poll_flush : ResponseWriter S → ResponseWriter S × Poll (Result E)
  unfolding poll_flush_shallow
  poll_flush w = ready? (poll_flush_shallow w) (on_sender sink.poll_flush)

  -- `poll_close`, and `poll_shutdown` of `AsyncWrite`
  unfoldable pub poll_close : ResponseWriter S → ResponseWriter S × Poll (Result E)
  unfolding poll_flush_shallow
  poll_close w = ready? (poll_flush_shallow w) (on_sender sink.poll_close)

  abbrev pub take_all : Text → ResponseWriter S → ResponseWriter S × Poll (Result E)
  take_all buf w = (record w { buf = w.buf ++ buf }, ready ok)

  -- `AsyncWrite::poll_write`, which takes all the bytes where it succeeds
  unfoldable pub poll_write : Text → ResponseWriter S → ResponseWriter S × Poll (Result E)
  unfolding poll_flush_shallow
  poll_write buf w =
      if ltb 4096 (length w.buf)
      then ready? (poll_flush_shallow w) (take_all buf)
      else take_all buf w
