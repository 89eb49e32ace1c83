-- ===== src/ResponseWriter/Blocking.antt =====
-- The writer of a blocking endpoint, in witchcraft-server/src/blocking/body.rs. `feed`, `send` and
-- `flush` are those of the sender of the channel, each under `with_timeout`: a time-out is an error.
pub mod Finishing
use witchcraft_rust_server.Common.{
  ℕ, ◌≡◌, refl, sym, ap, ◌∙◌, Bool, true, false, List, [], ◌∷◌, ◌++◌, if◌then◌else◌, ltb, length,
  is_empty, append-nil, append_assoc, arith, Bool-cases, inl, inr, is_empty-nil, All,
}
use witchcraft_rust_server.Http.{Text, Frame, data_frame, trailers}
use witchcraft_rust_server.Poll.{Result, ok, err}
use witchcraft_rust_server.ResponseWriter.{ResponseWriter}
use witchcraft_rust_server.ResponseWriter.Writing.{bytes_of}

pub data BodyPart : Type 0 where
  frame : Frame → BodyPart
  body_done : BodyPart

pub record Sender (S E : Type 0) : Type 0 where
  pub feed : S → BodyPart → S × Result E
  pub send : S → BodyPart → S × Result E
  pub flush : S → S × Result E

module _ {S E : Type 0} (tx : Sender S E) where
  -- `first?; rest`
  abbrev then? :
      ResponseWriter S × Result E
      → (ResponseWriter S → ResponseWriter S × Result E)
      → ResponseWriter S × Result E
  then? (w, ok) rest = rest w
  then? (w, err e) rest = (w, err e)

  abbrev feed_part : BodyPart → ResponseWriter S → ResponseWriter S × Result E
  feed_part part w = let (s, result) = tx.feed w.sender part in (record w { sender = s }, result)

  abbrev send_part : BodyPart → ResponseWriter S → ResponseWriter S × Result E
  send_part part w = let (s, result) = tx.send w.sender part in (record w { sender = s }, result)

  abbrev flush_sender : ResponseWriter S → ResponseWriter S × Result E
  flush_sender w = let (s, result) = tx.flush w.sender in (record w { sender = s }, result)

  unfoldable pub flush_shallow : ResponseWriter S → ResponseWriter S × Result E
  flush_shallow w =
      if is_empty w.buf
      then (w, ok)
      else feed_part (frame (data_frame w.buf)) (record w { buf = [] })

  unfoldable pub send_inner : BodyPart → ResponseWriter S → ResponseWriter S × Result E
  unfolding flush_shallow
  send_inner part w = then? (flush_shallow w) (feed_part part)

  unfoldable pub send : Text → ResponseWriter S → ResponseWriter S × Result E
  unfolding send_inner
  send bytes w = send_inner (frame (data_frame bytes)) w

  unfoldable pub send_trailers : Text → ResponseWriter S → ResponseWriter S × Result E
  unfolding send_inner
  send_trailers t w = send_inner (frame (trailers t)) w

  unfoldable pub finish : ResponseWriter S → ResponseWriter S × Result E
  unfolding flush_shallow
  finish w = then? (flush_shallow w) (send_part body_done)

  abbrev extend_buf : Text → ResponseWriter S → ResponseWriter S × Result E
  extend_buf buf w = (record w { buf = w.buf ++ buf }, ok)

  -- `write`, which takes all the bytes where it succeeds
  unfoldable pub write : Text → ResponseWriter S → ResponseWriter S × Result E
  unfolding flush_shallow
  write buf w =
      if ltb 4096 (length w.buf) then then? (flush_shallow w) (extend_buf buf) else extend_buf buf w

  unfoldable pub flush : ResponseWriter S → ResponseWriter S × Result E
  unfolding flush_shallow
  flush w = then? (flush_shallow w) flush_sender
