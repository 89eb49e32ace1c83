-- ===== src/RequestBody.antt =====
-- witchcraft-server/src/body.rs, and witchcraft-server/src/blocking/body.rs for blocking endpoints:
-- reading the body of a request. The raw body of hyper and `HeaderMap::extend` are parameters. The
-- loops run on fuel, and `spinning` says that it was not enough. `handle` only runs futures, so the
-- blocking body has the same fields.
pub mod Reading
pub mod Blocking
pub mod Fuel
mod Tests
use witchcraft_rust_server.Common.{
  ℕ, zero, suc, ◌≡◌, ◌<◌, Bool, true, false, not, Option, none, some, List, [], ◌∷◌, ◌++◌,
  if◌then◌else◌, leb, length, take, drop, is_empty,
}
use witchcraft_rust_server.Http.{
  Text, Frame, data_frame, trailers, Polled, pending, ended, framed, Body,
}

pub record RequestBody (B : Type 0) : Type 0 where
  pub inner : B
  pub cur : Text
  pub trailers : Option Text

-- `Poll<Option<Result<Bytes, E>>>`
pub data Next : Type 0 where
  not_ready : Next
  finished : Next
  failed : Next
  gave : Text → Next
  spinning : Next

-- What `poll_fill_buf` and `fill_buf` answer; the bytes are those of `cur`.
pub data Filled : Type 0 where
  not_ready : Filled
  failed : Filled
  filled : Filled
  spinning : Filled

abbrev pub min : ℕ → ℕ → ℕ
min a b = if leb a b then a else b

module _ (body : Body) (extend : Text → Text → Text) where
  unfoldable pub new : body.B → RequestBody body.B
  new inner = record { inner = inner; cur = []; trailers = none }

  abbrev keep_trailers : Text → RequestBody body.B → RequestBody body.B
  keep_trailers t r = record r {
    trailers = elim r.trailers [ none ↦ some t | some base ↦ some (extend base t) ];
  }

  -- `RequestBody::trailers`
  unfoldable pub take_trailers : RequestBody body.B → RequestBody body.B × Option Text
  take_trailers r = (record r { trailers = none }, r.trailers)

  -- A round of the loop, after the poll of the raw body
  abbrev raw_step :
      (RequestBody body.B → RequestBody body.B × Next)
      → RequestBody body.B
      → Polled
      → RequestBody body.B × Next
  raw_step again r pending = (r, Next.not_ready)
  raw_step again r ended = (r, Next.finished)
  raw_step again r Polled.failed = (r, Next.failed)
  raw_step again r (framed (data_frame d)) = (r, Next.gave d)
  raw_step again r (framed (trailers t)) = again (keep_trailers t r)

  unfoldable pub poll_next_raw : ℕ → RequestBody body.B → RequestBody body.B × Next
  poll_next_raw zero r = (r, Next.spinning)
  poll_next_raw (suc fuel) r =
      let (b, next) = body.poll_frame r.inner in
      raw_step (poll_next_raw fuel) (record r { inner = b }) next

  unfoldable pub poll_next : ℕ → RequestBody body.B → RequestBody body.B × Next
  unfolding poll_next_raw
  poll_next fuel r =
      if is_empty r.cur then poll_next_raw fuel r else (record r { cur = [] }, Next.gave r.cur)

  -- A round of the loop of `poll_fill_buf`, after `poll_next_raw`
  abbrev fill_step :
      (RequestBody body.B → RequestBody body.B × Filled)
      → RequestBody body.B × Next
      → RequestBody body.B × Filled
  fill_step again (r, Next.not_ready) = (r, Filled.not_ready)
  fill_step again (r, Next.finished) = (r, Filled.filled)
  fill_step again (r, Next.failed) = (r, Filled.failed)
  fill_step again (r, Next.gave bytes) = again (record r { cur = bytes })
  fill_step again (r, Next.spinning) = (r, Filled.spinning)

  unfoldable pub poll_fill_buf : ℕ → RequestBody body.B → RequestBody body.B × Filled
  unfolding poll_next_raw
  poll_fill_buf zero r = if is_empty r.cur then (r, Filled.spinning) else (r, Filled.filled)
  poll_fill_buf (suc fuel) r =
      let filled = fill_step (poll_fill_buf fuel) (poll_next_raw (suc fuel) r) in
      if is_empty r.cur then filled else (r, Filled.filled)

  -- `Bytes::advance` panics, which `none` is, where there are not as many bytes.
  unfoldable pub consume : ℕ → RequestBody body.B → Option (RequestBody body.B)
  consume amt r = if leb amt (length r.cur) then some (record r { cur = drop amt r.cur }) else none

  abbrev read_filled : ℕ → RequestBody body.B × Filled → RequestBody body.B × Filled × Text
  read_filled remaining (r, Filled.filled) =
      let len = min (length r.cur) remaining in
      (record r { cur = drop len r.cur }, Filled.filled, take len r.cur)
  read_filled remaining (r, Filled.not_ready) = (r, Filled.not_ready, [])
  read_filled remaining (r, Filled.failed) = (r, Filled.failed, [])
  read_filled remaining (r, Filled.spinning) = (r, Filled.spinning, [])

  -- `poll_read` into a buffer with room for `remaining` bytes: the bytes that it puts there
  unfoldable pub poll_read : ℕ → ℕ → RequestBody body.B → RequestBody body.B × Filled × Text
  unfolding poll_fill_buf
  poll_read fuel remaining r = read_filled remaining (poll_fill_buf fuel r)
