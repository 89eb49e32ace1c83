-- ===== src/RequestBody/Fuel.antt =====
-- body.rs: the loops end where the raw body does not give frames without an end.
use witchcraft_rust_server.Common.{
  ℕ, zero, suc, ◌≡◌, ◌≢◌, ◌<◌, ◌≤◌, refl, is_empty, arith, Bool-cases, inl, inr,
}
use witchcraft_rust_server.Http.{
  Text, Frame, data_frame, trailers, Polled, pending, ended, framed, Body,
}
use witchcraft_rust_server.RequestBody.{
  RequestBody, Next, Filled, poll_next_raw, poll_fill_buf, raw_step, fill_step, keep_trailers,
}

-- Each frame that a raw body gives leaves fewer to come.
pub record IsFinite (body : Body) : Type 0 where
  pub left : body.B → ℕ
  pub fewer :
      (b : body.B) (f : Frame)
      → (body.poll_frame b).1 ≡ framed f
      → left (body.poll_frame b).0 < left b

module _ (body : Body) (extend : Text → Text → Text) (fin : IsFinite body) where
  -- A step that has fuel for what is left is not cut short, and one that gives bytes uses a frame.
  abbrev RawDone : ℕ → RequestBody body.B × Next → Type 0
  RawDone n (r, Next.spinning) = ⊥
  RawDone n (r, Next.gave d) = fin.left r.inner < n
  RawDone n (r, _) = Unit {0}

  RawDone-more : (n m : ℕ) (r : RequestBody body.B × Next) → n ≤ m → RawDone n r → RawDone m r
  RawDone-more n m (r, Next.spinning) l h = h
  RawDone-more n m (r, Next.gave d) l h = omega arith
  RawDone-more n m (r, Next.not_ready) l h = tt
  RawDone-more n m (r, Next.finished) l h = tt
  RawDone-more n m (r, Next.failed) l h = tt

  raw_step-RawDone :
      (again : RequestBody body.B → RequestBody body.B × Next) (fuel n : ℕ)
      → ((r : RequestBody body.B) → fin.left r.inner < fuel → RawDone (fin.left r.inner) (again r))
      → n < suc fuel
      → (r : RequestBody body.B) (next : Polled)
      → ((f : Frame) → next ≡ framed f → fin.left r.inner < n)
      → RawDone n (raw_step body extend again r next)
  raw_step-RawDone again fuel n h l r pending k = tt
  raw_step-RawDone again fuel n h l r ended k = tt
  raw_step-RawDone again fuel n h l r Polled.failed k = tt
  raw_step-RawDone again fuel n h l r (framed (data_frame d)) k = k (data_frame d) refl
  raw_step-RawDone again fuel n h l r (framed (trailers t)) k =
      let lt = k (trailers t) refl in
      RawDone-more (fin.left r.inner) n (again (keep_trailers body extend t r)) (omega arith)
        (h (keep_trailers body extend t r) (omega arith))

  poll_next_raw-RawDone :
      (fuel : ℕ) (r : RequestBody body.B)
      → fin.left r.inner < fuel
      → RawDone (fin.left r.inner) (poll_next_raw body extend fuel r)
  unfolding poll_next_raw
  poll_next_raw-RawDone zero r l = absurd (omega arith)
  poll_next_raw-RawDone (suc fuel) r l =
      raw_step-RawDone (poll_next_raw body extend fuel) fuel (fin.left r.inner)
        (poll_next_raw-RawDone fuel) l (record r { inner = (body.poll_frame r.inner).0 })
        (body.poll_frame r.inner).1 (fin.fewer r.inner)

  fill_step-returns :
      (again : RequestBody body.B → RequestBody body.B × Filled) (fuel n : ℕ)
      → ((r : RequestBody body.B) → fin.left r.inner < fuel → (again r).1 ≢ Filled.spinning)
      → n < suc fuel
      → (raw : RequestBody body.B × Next) → RawDone n raw
      → (fill_step body extend again raw).1 ≢ Filled.spinning
  fill_step-returns again fuel n h l (r, Next.not_ready) k = λ e. cc e
  fill_step-returns again fuel n h l (r, Next.finished) k = λ e. cc e
  fill_step-returns again fuel n h l (r, Next.failed) k = λ e. cc e
  fill_step-returns again fuel n h l (r, Next.spinning) k = absurd k
  fill_step-returns again fuel n h l (r, Next.gave d) k = h (record r { cur = d }) (omega arith)

  -- With fuel above the number of the frames that are to come, `poll_fill_buf` comes to an answer.
  pub poll_fill_buf-returns :
      (fuel : ℕ) (r : RequestBody body.B)
      → fin.left r.inner < fuel
      → (poll_fill_buf body extend fuel r).1 ≢ Filled.spinning
  unfolding poll_fill_buf
  poll_fill_buf-returns zero r l = absurd (omega arith)
  poll_fill_buf-returns (suc fuel) r l = elim (Bool-cases (is_empty r.cur)) [
    | inl e ↦ rw e (
        fill_step-returns (poll_fill_buf body extend fuel) fuel (fin.left r.inner)
          (poll_fill_buf-returns fuel) l (poll_next_raw body extend (suc fuel) r)
          (poll_next_raw-RawDone (suc fuel) r l))
    | inr e ↦ rw e (λ h. cc h)
  ]
