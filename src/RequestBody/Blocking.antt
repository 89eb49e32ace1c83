-- ===== src/RequestBody/Blocking.antt =====
-- The body of a blocking request, in witchcraft-server/src/blocking/body.rs. `frame` is what the raw
-- body gives within `IO_TIMEOUT`; `pending` is that it gives nothing in time, which is an error here.
use witchcraft_rust_server.Common.{
  Bool-cases, inl, inr, ◌∙◌, ℕ, zero, suc, ◌≡◌, refl, [], if◌then◌else◌, length, take, drop,
  is_empty, ap,
}
use witchcraft_rust_server.Http.{Text, data_frame, trailers, Polled, pending, ended, framed, Body}
use witchcraft_rust_server.RequestBody as Async
use witchcraft_rust_server.RequestBody.{RequestBody, Next, Filled, keep_trailers, min}

module _ (body : Body) (extend : Text → Text → Text) where
  abbrev next_step :
      (RequestBody body.B → RequestBody body.B × Next)
      → RequestBody body.B
      → Polled
      → RequestBody body.B × Next
  next_step again r pending = (r, Next.failed)
  next_step again r ended = (r, Next.finished)
  next_step again r Polled.failed = (r, Next.failed)
  next_step again r (framed (data_frame d)) = (r, Next.gave d)
  next_step again r (framed (trailers t)) = again (keep_trailers body extend t r)

  unfoldable pub next_raw : ℕ → RequestBody body.B → RequestBody body.B × Next
  next_raw zero r = (r, Next.spinning)
  next_raw (suc fuel) r =
      let (b, frame) = body.poll_frame r.inner in
      next_step (next_raw fuel) (record r { inner = b }) frame

  unfoldable pub next : ℕ → RequestBody body.B → RequestBody body.B × Next
  unfolding next_raw
  next fuel r = if is_empty r.cur then next_raw fuel r else (record r { cur = [] }, Next.gave r.cur)

  abbrev fill_step :
      (RequestBody body.B → RequestBody body.B × Filled)
      → RequestBody body.B × Next
      → RequestBody body.B × Filled
  fill_step again (r, Next.not_ready) = (r, Filled.not_ready)
  fill_step again (r, Next.finished) = (r, Filled.filled)
  fill_step again (r, Next.failed) = (r, Filled.failed)
  fill_step again (r, Next.gave bytes) = again (record r { cur = bytes })
  fill_step again (r, Next.spinning) = (r, Filled.spinning)

  unfoldable pub fill_buf : ℕ → RequestBody body.B → RequestBody body.B × Filled
  unfolding next_raw
  fill_buf zero r = if is_empty r.cur then (r, Filled.spinning) else (r, Filled.filled)
  fill_buf (suc fuel) r =
      let filled = fill_step (fill_buf fuel) (next_raw (suc fuel) r) in
      if is_empty r.cur then filled else (r, Filled.filled)

  abbrev read_filled : ℕ → RequestBody body.B × Filled → RequestBody body.B × Filled × Text
  read_filled n (r, Filled.filled) =
      let len = min (length r.cur) n in
      (record r { cur = drop len r.cur }, Filled.filled, take len r.cur)
  read_filled n (r, Filled.not_ready) = (r, Filled.not_ready, [])
  read_filled n (r, Filled.failed) = (r, Filled.failed, [])
  read_filled n (r, Filled.spinning) = (r, Filled.spinning, [])

  -- `read` into a buffer of `n` bytes: the bytes that it puts there
  unfoldable pub read : ℕ → ℕ → RequestBody body.B → RequestBody body.B × Filled × Text
  unfolding fill_buf
  read fuel n r = read_filled n (fill_buf fuel r)

  -- The same answer, where a body that is not ready has failed.
  abbrev pub timed_out : RequestBody body.B × Filled → RequestBody body.B × Filled
  timed_out (r, Filled.not_ready) = (r, Filled.failed)
  timed_out (r, Filled.failed) = (r, Filled.failed)
  timed_out (r, Filled.filled) = (r, Filled.filled)
  timed_out (r, Filled.spinning) = (r, Filled.spinning)

  abbrev next_timed_out : RequestBody body.B × Next → RequestBody body.B × Next
  next_timed_out (r, Next.not_ready) = (r, Next.failed)
  next_timed_out (r, Next.finished) = (r, Next.finished)
  next_timed_out (r, Next.failed) = (r, Next.failed)
  next_timed_out (r, Next.gave d) = (r, Next.gave d)
  next_timed_out (r, Next.spinning) = (r, Next.spinning)

  next_step-raw_step :
      (again again' : RequestBody body.B → RequestBody body.B × Next)
      → ((r : RequestBody body.B) → again r ≡ next_timed_out (again' r))
      → (r : RequestBody body.B) (p : Polled)
      → next_step again r p ≡ next_timed_out (Async.raw_step body extend again' r p)
  next_step-raw_step again again' h r pending = refl
  next_step-raw_step again again' h r ended = refl
  next_step-raw_step again again' h r Polled.failed = refl
  next_step-raw_step again again' h r (framed (data_frame d)) = refl
  next_step-raw_step again again' h r (framed (trailers t)) = h (keep_trailers body extend t r)

  next_raw-poll_next_raw :
      (fuel : ℕ) (r : RequestBody body.B)
      → next_raw fuel r ≡ next_timed_out (Async.poll_next_raw body extend fuel r)
  unfolding next_raw Async.poll_next_raw
  next_raw-poll_next_raw zero r = refl
  next_raw-poll_next_raw (suc fuel) r =
      next_step-raw_step (next_raw fuel) (Async.poll_next_raw body extend fuel)
        (next_raw-poll_next_raw fuel) (record r { inner = (body.poll_frame r.inner).0 })
        (body.poll_frame r.inner).1

  fill_step-fill_step :
      (again again' : RequestBody body.B → RequestBody body.B × Filled)
      → ((r : RequestBody body.B) → again r ≡ timed_out (again' r))
      → (n : RequestBody body.B × Next)
      → fill_step again (next_timed_out n) ≡ timed_out (Async.fill_step body extend again' n)
  fill_step-fill_step again again' h (r, Next.not_ready) = refl
  fill_step-fill_step again again' h (r, Next.finished) = refl
  fill_step-fill_step again again' h (r, Next.failed) = refl
  fill_step-fill_step again again' h (r, Next.spinning) = refl
  fill_step-fill_step again again' h (r, Next.gave d) = h (record r { cur = d })

  fill_buf-poll_fill_buf :
      (fuel : ℕ) (r : RequestBody body.B)
      → fill_buf fuel r ≡ timed_out (Async.poll_fill_buf body extend fuel r)
  unfolding fill_buf Async.poll_fill_buf
  fill_buf-poll_fill_buf zero r = elim (Bool-cases (is_empty r.cur)) [
    | inl e ↦ rw e refl
    | inr e ↦ rw e refl
  ]
  fill_buf-poll_fill_buf (suc fuel) r = elim (Bool-cases (is_empty r.cur)) [
    | inl e ↦ rw e (
        ap (fill_step (fill_buf fuel)) (next_raw-poll_next_raw (suc fuel) r)
        ∙ fill_step-fill_step (fill_buf fuel) (Async.poll_fill_buf body extend fuel)
            (fill_buf-poll_fill_buf fuel) (Async.poll_next_raw body extend (suc fuel) r))
    | inr e ↦ rw e refl
  ]

  abbrev pub read_timed_out :
      RequestBody body.B × Filled × Text → RequestBody body.B × Filled × Text
  read_timed_out (r, f, t) = let (r', f') = timed_out (r, f) in (r', f', t)

  read_filled-read_filled :
      (n : ℕ) (f : RequestBody body.B × Filled)
      → read_filled n (timed_out f) ≡ read_timed_out (Async.read_filled body extend n f)
  read_filled-read_filled n (r, Filled.filled) = refl
  read_filled-read_filled n (r, Filled.not_ready) = refl
  read_filled-read_filled n (r, Filled.failed) = refl
  read_filled-read_filled n (r, Filled.spinning) = refl

  -- A blocking read does what an asynchronous one does, but for a raw body that is not ready: there
  -- it fails.
  pub read-poll_read :
      (fuel n : ℕ) (r : RequestBody body.B)
      → read fuel n r ≡ read_timed_out (Async.poll_read body extend fuel n r)
  unfolding read Async.poll_read
  read-poll_read fuel n r =
      ap (read_filled n) (fill_buf-poll_fill_buf fuel r)
      ∙ read_filled-read_filled n (Async.poll_fill_buf body extend fuel r)
