-- ===== src/BodyLayers/Spans.antt =====
-- spans.rs: the span of a body.
use witchcraft_rust_server.Common.{ℕ, suc, ◌+◌, ◌≡◌, ◌∙◌, Option, none, some, arith}
use witchcraft_rust_server.Http.{Polled, pending, ended, failed, framed, Body}
use witchcraft_rust_server.BodyLayers.{
  Tracer, LazySpan, pending_span, live, SpannedBody, new, get, after_poll, poll_span, poll_frame,
}

-- How many spans have been opened and closed
pub record TracerLaws (tracer : Tracer) : Type 0 where
  pub opened : tracer.W → ℕ
  pub closed : tracer.W → ℕ
  pub opened-open :
      (w : tracer.W) (c : Option tracer.Ctx) → opened (tracer.open_span w c).0 ≡ suc (opened w)
  pub closed-open :
      (w : tracer.W) (c : Option tracer.Ctx) → closed (tracer.open_span w c).0 ≡ closed w
  pub opened-close : (w : tracer.W) (s : tracer.Span) → opened (tracer.close_span w s) ≡ opened w
  pub closed-close :
      (w : tracer.W) (s : tracer.Span) → closed (tracer.close_span w s) ≡ suc (closed w)

module _ (body : Body) (tracer : Tracer) (laws : TracerLaws tracer) where
  -- Any number of polls of a body, with the world of its tracer
  pub data Polls (w₀ : tracer.W) (start : body.B) (context : Option tracer.Ctx)
      : tracer.W → SpannedBody body tracer → Type 0 where
    wrapped : Polls w₀ start context w₀ (new body tracer start context)
    polled :
        {w : tracer.W} {s : SpannedBody body tracer}
        → Polls w₀ start context w s
        → Polls w₀ start context (poll_frame body tracer w s).0 (poll_frame body tracer w s).1

  abbrev Counts : tracer.W → tracer.W → ℕ → ℕ → Type 0
  Counts w₀ w opens closes =
      (laws.opened w ≡ laws.opened w₀ + opens) × (laws.closed w ≡ laws.closed w₀ + closes)

  -- The spans that a body has opened and closed, by its state
  abbrev pub CountsOf : tracer.W → tracer.W → Option (LazySpan body tracer) → Type 0
  CountsOf w₀ w (some (pending_span context)) = Counts w₀ w 0 0
  CountsOf w₀ w (some (live span)) = Counts w₀ w 1 0
  CountsOf w₀ w none = Counts w₀ w 1 1

  after_poll-CountsOf :
      (w₀ w : tracer.W) (span : tracer.Span) (answer : body.B × Polled)
      → Counts w₀ w 1 0
      → CountsOf w₀
          (after_poll body tracer w span answer).0
          (after_poll body tracer w span answer).1.span
  after_poll-CountsOf w₀ w span (b, pending) c = c
  after_poll-CountsOf w₀ w span (b, ended) (o, c) =
      (laws.opened-close w span ∙ o, omega (arith, laws.closed-close w span))
  after_poll-CountsOf w₀ w span (b, failed) (o, c) =
      (laws.opened-close w span ∙ o, omega (arith, laws.closed-close w span))
  after_poll-CountsOf w₀ w span (b, framed f) c = c

  poll_span-CountsOf :
      (w₀ w : tracer.W) (b : body.B) (s : Option (LazySpan body tracer))
      → CountsOf w₀ w s
      → CountsOf w₀ (poll_span body tracer w b s).0 (poll_span body tracer w b s).1.span
  unfolding get
  poll_span-CountsOf w₀ w b none c = c
  poll_span-CountsOf w₀ w b (some (pending_span context)) (o, c) =
      after_poll-CountsOf w₀ (tracer.open_span w context).0 (tracer.open_span w context).1
        (body.poll_frame b)
        (omega (arith, laws.opened-open w context), omega (arith, laws.closed-open w context))
  poll_span-CountsOf w₀ w b (some (live span)) c =
      after_poll-CountsOf w₀ w span (body.poll_frame b) c

  -- However often a body is polled, it opens one span, at the first poll, and has closed it where it
  -- has ended or failed, and there only.
  pub Polls-CountsOf :
      {w₀ : tracer.W} {start : body.B} {context : Option tracer.Ctx} {w : tracer.W}
      {s : SpannedBody body tracer}
      → Polls w₀ start context w s
      → CountsOf w₀ w s.span
  unfolding new poll_frame
  Polls-CountsOf wrapped = (omega arith, omega arith)
  Polls-CountsOf {w₀} (polled {w = w} {s = s} p) =
      poll_span-CountsOf w₀ w s.inner s.span (Polls-CountsOf p)
