-- ===== src/BodyLayers.antt =====
-- The bodies with which layers of witchcraft-server/src/service wrap those of requests and responses:
-- spans.rs (SpannedBody), catch_unwind.rs (CatchUnwindBody), audit_log.rs (AuditLogResponseBody) and
-- request_log.rs (the sizes in the request log). The inner bodies are parameters, and so is the
-- tracer. The sizes are taken not to pass 63 bits.
pub mod Spans
pub mod Sizes
mod Tests
use witchcraft_rust_server.Common.{
  ℕ, ◌+◌, ◌-◌, ◌*◌, ◌^◌, Bool, true, false, ◌≡◌, Option, none, some, List, [], ◌∷◌, length,
  if◌then◌else◌, leb,
}
use witchcraft_rust_server.Http.{
  Text, Frame, data_frame, trailers, Polled, pending, ended, failed, framed, Body,
}

-- The crate `zipkin`: a span of a new trace, or of a child, is opened, and closed when it is dropped.
pub record Tracer : Type 1 where
  pub W : Type 0
  pub Ctx : Type 0
  pub Span : Type 0
  pub open_span : W → Option Ctx → W × Span
  pub close_span : W → Span → W

module _ (body : Body) where
  module _ (tracer : Tracer) where
    pub data LazySpan : Type 0 where
      pending_span : Option tracer.Ctx → LazySpan
      live : tracer.Span → LazySpan

    pub record SpannedBody : Type 0 where
      pub inner : body.B
      pub span : Option LazySpan

    unfoldable pub new : body.B → Option tracer.Ctx → SpannedBody
    new b context = record { inner = b; span = some (pending_span context) }

    -- `LazySpan::get`
    unfoldable pub get : tracer.W → LazySpan → tracer.W × tracer.Span
    get w (pending_span context) = tracer.open_span w context
    get w (live span) = (w, span)

    -- After the answer of the inner body, the span is closed where the body has ended.
    abbrev pub after_poll :
        tracer.W → tracer.Span → body.B × Polled → tracer.W × SpannedBody × Polled
    after_poll w span (b, pending) = (w, record { inner = b; span = some (live span) }, pending)
    after_poll w span (b, ended) =
        (tracer.close_span w span, record { inner = b; span = none }, ended)
    after_poll w span (b, failed) =
        (tracer.close_span w span, record { inner = b; span = none }, failed)
    after_poll w span (b, framed f) = (w, record { inner = b; span = some (live span) }, framed f)

    abbrev pub poll_span : tracer.W → body.B → Option LazySpan → tracer.W × SpannedBody × Polled
    poll_span w b none = (w, record { inner = b; span = none }, ended)
    poll_span w b (some s) = let (w', span) = get w s in after_poll w' span (body.poll_frame b)

    unfoldable pub poll_frame : tracer.W → SpannedBody → tracer.W × SpannedBody × Polled
    unfolding get
    poll_frame w s = poll_span w s.inner s.span

  -- `AuditLogResponseBody`, whose body is none in the response 500
  unfoldable pub poll_audited : Option body.B → Option body.B × Polled
  poll_audited none = (none, ended)
  poll_audited (some b) = let (b', p) = body.poll_frame b in (some b', p)

  unfoldable pub is_end_audited : Option body.B → Bool
  is_end_audited none = true
  is_end_audited (some b) = body.is_end_stream b

-- A body whose poll may panic, which is none, and the answer of CatchUnwindBody
module _ {B : Type 0} (poll_frame : B → Option (B × Polled)) where
  abbrev caught : Option (B × Polled) → Option B × Polled
  caught none = (none, failed)
  caught (some (b, p)) = (some b, p)

  unfoldable pub poll_caught : Option B → Option B × Polled
  poll_caught none = (none, ended)
  poll_caught (some b) = caught (poll_frame b)

-- The bytes of data in an answer: `frame.data_ref()`
unfoldable pub remaining : Polled → ℕ
remaining (framed (data_frame d)) = length d
remaining (framed (trailers t)) = 0
remaining pending = 0
remaining ended = 0
remaining failed = 0

-- The sizes of the state of request_log.rs, and the two bodies
pub record Exchange (B1 B2 : Type 0) : Type 0 where
  pub request : B1
  pub response : B2
  pub request_size : ℕ
  pub response_size : ℕ

-- `SafeLong::try_from(size).ok().unwrap_or_else(SafeLong::max_value)`
unfoldable pub safe_long : ℕ → ℕ
safe_long size = if leb size (2 ^ 53 - 1) then size else 2 ^ 53 - 1

module _ (request response : Body) where
  -- `RequestLogRequestBody::poll_frame`
  unfoldable pub poll_request :
      Exchange request.B response.B → Exchange request.B response.B × Polled
  unfolding remaining
  poll_request x =
      let (b, value) = request.poll_frame x.request in
      (record x { request = b; request_size = x.request_size + remaining value }, value)

  -- `RequestLogResponseBody::poll_frame`
  unfoldable pub poll_response :
      Exchange request.B response.B → Exchange request.B response.B × Polled
  unfolding remaining
  poll_response x =
      let (b, value) = response.poll_frame x.response in
      (record x { response = b; response_size = x.response_size + remaining value }, value)

  -- The sizes in the request log, when the state is dropped
  unfoldable pub logged_sizes : Exchange request.B response.B → ℕ × ℕ
  unfolding safe_long
  logged_sizes x = (safe_long x.request_size, safe_long x.response_size)
