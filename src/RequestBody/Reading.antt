-- ===== src/RequestBody/Reading.antt =====
-- body.rs: reading a body gives all its bytes, in order.
use mathlib.Core.Option.{some-injective}
use witchcraft_rust_server.Common.{
  is_empty-nil, ℕ, zero, suc, ◌≡◌, refl, sym, ap, ◌∙◌, true, some, [], ◌++◌, leb, subst, arith,
  length, take, drop, is_empty, append-nil, append_assoc, take-append-drop, Bool-cases, inl, inr,
}
use witchcraft_rust_server.Http.{Text, data_frame, trailers, Polled, pending, ended, framed, Body}
use witchcraft_rust_server.RequestBody.{
  RequestBody, Next, Filled, new, poll_next_raw, poll_next, poll_fill_buf, consume, poll_read, min,
  keep_trailers, raw_step, fill_step, read_filled,
}

abbrev pub delivered : Next → Text
delivered (Next.gave d) = d
delivered _ = []

abbrev pub bytes_of : Polled → Text
bytes_of (framed (data_frame d)) = d
bytes_of _ = []

-- `given` is what the raw body has given so far, frame after frame.
pub record BodyTrace (body : Body) : Type 0 where
  pub given : body.B → Text
  pub given_lem :
      (b : body.B) → given (body.poll_frame b).0 ≡ given b ++ bytes_of (body.poll_frame b).1

module _ (body : Body) (extend : Text → Text → Text) (trace : BodyTrace body) where
  abbrev Raw : Text → Text → RequestBody body.B × Next → Type 0
  Raw before cur (r, next) = (trace.given r.inner ≡ before ++ delivered next) × (r.cur ≡ cur)

  raw_step-Raw :
      (again : RequestBody body.B → RequestBody body.B × Next)
      → ((r : RequestBody body.B) → Raw (trace.given r.inner) r.cur (again r))
      → (before : Text) (r : RequestBody body.B) (next : Polled)
      → trace.given r.inner ≡ before ++ bytes_of next
      → Raw before r.cur (raw_step body extend again r next)
  raw_step-Raw again h before r pending e = (e, refl)
  raw_step-Raw again h before r ended e = (e, refl)
  raw_step-Raw again h before r Polled.failed e = (e, refl)
  raw_step-Raw again h before r (framed (data_frame d)) e = (e, refl)
  raw_step-Raw again h before r (framed (trailers t)) e =
      let (a, b) = h (keep_trailers body extend t r) in
      (
        a
            ∙ ap (λ x. x ++ delivered (again (keep_trailers body extend t r)).1)
                (e ∙ append-nil before),
        b,
      )

  poll_next_raw-Raw :
      (fuel : ℕ) (r : RequestBody body.B)
      → Raw (trace.given r.inner) r.cur (poll_next_raw body extend fuel r)
  unfolding poll_next_raw
  poll_next_raw-Raw zero r = (sym (append-nil (trace.given r.inner)), refl)
  poll_next_raw-Raw (suc fuel) r =
      raw_step-Raw (poll_next_raw body extend fuel) (poll_next_raw-Raw fuel) (trace.given r.inner)
        (record r { inner = (body.poll_frame r.inner).0 }) (body.poll_frame r.inner).1
        (trace.given_lem r.inner)

  -- The bytes delivered so far, and those that are left in `cur`, are those the raw body has given.
  abbrev pub Inv : Text → RequestBody body.B → Type 0
  Inv out r = out ++ r.cur ≡ trace.given r.inner

  Raw-Inv :
      (out cur before : Text) (r : RequestBody body.B) (next : Next)
      → Raw before cur (r, next)
      → out ≡ before
      → cur ≡ []
      → Inv (out ++ delivered next) r
  Raw-Inv out cur before r next (a, b) e c =
      ap (λ x. (out ++ delivered next) ++ x) (b ∙ c)
      ∙ (append-nil (out ++ delivered next) ∙ (ap (λ x. x ++ delivered next) e ∙ sym a))

  empty-Inv :
      (out : Text) (r : RequestBody body.B)
      → Inv out r
      → is_empty r.cur ≡ true
      → out ≡ trace.given r.inner
  empty-Inv out r h e = sym (append-nil out) ∙ (ap (λ x. out ++ x) (sym (is_empty-nil r.cur e)) ∙ h)

  poll_next-Inv :
      (fuel : ℕ) (out : Text) (r : RequestBody body.B)
      → Inv out r
      → Inv (out ++ delivered (poll_next body extend fuel r).1) (poll_next body extend fuel r).0
  unfolding poll_next
  poll_next-Inv fuel out r h = elim (Bool-cases (is_empty r.cur)) [
    | inl e ↦ rw e (
        Raw-Inv out r.cur (trace.given r.inner) (poll_next_raw body extend fuel r).0
          (poll_next_raw body extend fuel r).1 (poll_next_raw-Raw fuel r) (empty-Inv out r h e)
          (is_empty-nil r.cur e))
    | inr e ↦ rw e (append-nil (out ++ r.cur) ∙ h)
  ]

  abbrev Filled-Inv : Text → RequestBody body.B × Filled → Type 0
  Filled-Inv out (r, _) = Inv out r

  fill_step-Inv :
      (again : RequestBody body.B → RequestBody body.B × Filled) (out before cur : Text)
      → ((r : RequestBody body.B) → Inv out r → Filled-Inv out (again r))
      → out ≡ before
      → cur ≡ []
      → (raw : RequestBody body.B × Next) → Raw before cur raw
      → Filled-Inv out (fill_step body extend again raw)
  fill_step-Inv again out before cur h e c (r, Next.not_ready) k =
      ap (λ x. x ++ r.cur) (sym (append-nil out)) ∙ Raw-Inv out cur before r Next.not_ready k e c
  fill_step-Inv again out before cur h e c (r, Next.finished) k =
      ap (λ x. x ++ r.cur) (sym (append-nil out)) ∙ Raw-Inv out cur before r Next.finished k e c
  fill_step-Inv again out before cur h e c (r, Next.failed) k =
      ap (λ x. x ++ r.cur) (sym (append-nil out)) ∙ Raw-Inv out cur before r Next.failed k e c
  fill_step-Inv again out before cur h e c (r, Next.spinning) k =
      ap (λ x. x ++ r.cur) (sym (append-nil out)) ∙ Raw-Inv out cur before r Next.spinning k e c
  fill_step-Inv again out before cur h e c (r, Next.gave bytes) (a, b) =
      h (record r { cur = bytes }) (ap (λ x. x ++ bytes) e ∙ sym a)

  poll_fill_buf-Inv :
      (fuel : ℕ) (out : Text) (r : RequestBody body.B)
      → Inv out r
      → Filled-Inv out (poll_fill_buf body extend fuel r)
  unfolding poll_fill_buf
  poll_fill_buf-Inv zero out r h = elim (Bool-cases (is_empty r.cur)) [
    | inl e ↦ rw e h
    | inr e ↦ rw e h
  ]
  poll_fill_buf-Inv (suc fuel) out r h = elim (Bool-cases (is_empty r.cur)) [
    | inl e ↦ rw e (
        fill_step-Inv (poll_fill_buf body extend fuel) out (trace.given r.inner) r.cur
          (poll_fill_buf-Inv fuel out) (empty-Inv out r h e) (is_empty-nil r.cur e)
          (poll_next_raw body extend (suc fuel) r) (poll_next_raw-Raw (suc fuel) r))
    | inr e ↦ rw e h
  ]

  read_filled-Inv :
      (remaining : ℕ) (out : Text) (f : RequestBody body.B × Filled)
      → Filled-Inv out f
      → Inv (out ++ (read_filled body extend remaining f).2) (read_filled body extend remaining f).0
  read_filled-Inv remaining out (r, Filled.filled) h =
      let len = min (length r.cur) remaining in
      append_assoc out (take len r.cur) (drop len r.cur)
      ∙ (ap (λ x. out ++ x) (take-append-drop len r.cur) ∙ h)
  read_filled-Inv remaining out (r, Filled.not_ready) h = ap (λ x. x ++ r.cur) (append-nil out) ∙ h
  read_filled-Inv remaining out (r, Filled.failed) h = ap (λ x. x ++ r.cur) (append-nil out) ∙ h
  read_filled-Inv remaining out (r, Filled.spinning) h = ap (λ x. x ++ r.cur) (append-nil out) ∙ h

  consume-Inv :
      (amt : ℕ) (out : Text) (r r' : RequestBody body.B)
      → consume body extend amt r ≡ some r'
      → Inv out r
      → Inv (out ++ take amt r.cur) r'
  unfolding consume
  consume-Inv amt out r r' c h = elim (Bool-cases (leb amt (length r.cur))) [
    | inr n ↦ absurd (ground arith)
    | inl l ↦ subst (Inv (out ++ take amt r.cur)) (some-injective _ _ (rw l at c)) (
        append_assoc out (take amt r.cur) (drop amt r.cur)
        ∙ (ap (λ x. out ++ x) (take-append-drop amt r.cur) ∙ h))
  ]

  -- What a client does with a body, and the bytes that it has got so far
  pub data Reads (start : body.B) : RequestBody body.B → Text → Type 0 where
    opens : Reads start (new body extend start) []
    streams :
        {r : RequestBody body.B} {out : Text} (fuel : ℕ)
        → Reads start r out
        → Reads start
            (poll_next body extend fuel r).0
            (out ++ delivered (poll_next body extend fuel r).1)
    fills :
        {r : RequestBody body.B} {out : Text} (fuel : ℕ)
        → Reads start r out
        → Reads start (poll_fill_buf body extend fuel r).0 out
    consumes :
        {r r' : RequestBody body.B} {out : Text} (amt : ℕ)
        → consume body extend amt r ≡ some r'
        → Reads start r out
        → Reads start r' (out ++ take amt r.cur)
    reads :
        {r : RequestBody body.B} {out : Text} (fuel remaining : ℕ)
        → Reads start r out
        → Reads start
            (poll_read body extend fuel remaining r).0
            (out ++ (poll_read body extend fuel remaining r).2)

  -- However a client mixes streaming, buffered and plain reads, the bytes that it has got, followed
  -- by those in the buffer of the body, are those that the raw body has given, in order.
  pub Reads-Inv :
      {start : body.B} {r : RequestBody body.B} {out : Text}
      → trace.given start ≡ []
      → Reads start r out
      → Inv out r
  unfolding new consume poll_read
  Reads-Inv e opens = sym e
  Reads-Inv e (streams {r = r} {out = out} fuel h) = poll_next-Inv fuel out r (Reads-Inv e h)
  Reads-Inv e (fills {r = r} {out = out} fuel h) = poll_fill_buf-Inv fuel out r (Reads-Inv e h)
  Reads-Inv e (consumes {r = r} {r' = r'} {out = out} amt c h) =
      consume-Inv amt out r r' c (Reads-Inv e h)
  Reads-Inv e (reads {r = r} {out = out} fuel remaining h) =
      read_filled-Inv remaining out (poll_fill_buf body extend fuel r)
        (poll_fill_buf-Inv fuel out r (Reads-Inv e h))
