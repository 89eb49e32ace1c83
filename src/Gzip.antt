-- ===== src/Gzip.antt =====
-- witchcraft-server/src/service/gzip.rs: compressing the bodies of responses. The encoder of the
-- crate `flate2` and the inner body are parameters. A value of a header is a list of bytes, which
-- `to_str` has found to be visible ASCII with spaces and tabs.
pub mod Content
pub mod Headers
pub mod Negotiation
mod Tests
use witchcraft_rust_server.Http.{
  Frame, data_frame, trailers, Polled, pending, ended, failed, framed, Body,
}
use witchcraft_rust_server.Common.{
  ℕ, suc, ◌+◌, ◌-◌, ◌*◌, ◌≡◌, Bool, true, false, not, ◌&&◌, ◌||◌, Option, none, some, List, [], ◌∷◌,
  ◌++◌, if◌then◌else◌, ltb, leb, ◌==◌, is_empty,
}
use witchcraft_rust_server.Http.{Text, eq_text, any}

-- `GzEncoder<Writer<BytesMut>>`: `buffer` is what `get_ref` shows and `split` takes.
pub record Encoder : Type 1 where
  pub E : Type 0
  pub new : E
  pub write_all : E → Text → E
  pub flush : E → E
  pub try_finish : E → E
  pub buffer : E → Text
  pub split : E → E

module _ (body : Body) (enc : Encoder) where
  pub data State : Type 0 where
    compressing : enc.E → State
    last : Frame → State
    done : State

  abbrev take : (enc.E → State) → enc.E → body.B → State × body.B × Polled
  take next e b = (next (enc.split e), b, framed (data_frame (enc.buffer e)))

  -- The answer of the inner body to a poll while the body is compressed
  abbrev compress : enc.E → body.B → Polled → State × body.B × Polled
  compress e b (framed (data_frame d)) =
      let e' = enc.write_all e d in
      if body.is_end_stream b
      then take (λ _. done) (enc.try_finish e') b
      else take compressing (enc.flush e') b
  compress e b (framed (trailers t)) =
      let e' = enc.try_finish e in
      if is_empty (enc.buffer e')
      then (done, b, framed (trailers t))
      else take (λ _. last (trailers t)) e' b
  compress e b failed = (done, b, failed)
  compress e b ended =
      let e' = enc.try_finish e in
      if is_empty (enc.buffer e') then (done, b, ended) else take (λ _. done) e' b
  compress e b pending = (compressing e, b, pending)

  unfoldable pub poll_frame : State → body.B → State × body.B × Polled
  poll_frame (compressing e) b = let (b', a) = body.poll_frame b in compress e b' a
  poll_frame (last f) b = (done, b, framed f)
  poll_frame done b = let (b', a) = body.poll_frame b in (done, b', a)

  unfoldable pub is_end_stream : State → body.B → Bool
  is_end_stream (compressing e) b = body.is_end_stream b
  is_end_stream (last f) b = false
  is_end_stream done b = body.is_end_stream b
