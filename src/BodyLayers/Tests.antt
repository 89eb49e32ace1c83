-- ===== src/BodyLayers/Tests.antt =====
-- Runs of the bodies of the layers, over a body that is a list of frames.
use witchcraft_rust_server.Common.{ℕ, suc, ◌≡◌, refl, Option, none, some, List, [], ◌∷◌, is_empty}
use witchcraft_rust_server.Http.{Frame, data_frame, trailers, Polled, ended, failed, framed, Body}
use witchcraft_rust_server.BodyLayers.{
  Tracer, SpannedBody, new, get, poll_frame, poll_caught, Exchange, poll_request, poll_response,
}
use witchcraft_rust_server.BodyLayers.Spans.{TracerLaws}

abbrev next_frame : List Frame → List Frame × Polled
next_frame [] = ([], ended)
next_frame (f ∷ fs) = (fs, framed f)

abbrev frames : Body
frames = record { B = List Frame; poll_frame = next_frame; is_end_stream = is_empty }

abbrev closing : ℕ × ℕ → Unit {0} → ℕ × ℕ
closing (o, c) s = (o, suc c)

abbrev opening : ℕ × ℕ → Option ℕ → (ℕ × ℕ) × Unit {0}
opening (o, c) context = ((suc o, c), record {})

abbrev counter : Tracer
counter = record { W = ℕ × ℕ; Ctx = ℕ; Span = Unit {0}; open_span = opening; close_span = closing }

counter_laws : TracerLaws counter
counter_laws = record {
  opened = λ w. w.0;
  closed = λ w. w.1;
  opened-open = λ w c. refl;
  closed-open = λ w c. refl;
  opened-close = λ w s. refl;
  closed-close = λ w s. refl;
}

abbrev one : List Frame
one = data_frame (1 ∷ 2 ∷ []) ∷ []

abbrev after_two : (ℕ × ℕ) × SpannedBody frames counter × Polled
after_two =
    let first = poll_frame frames counter (0, 0) (new frames counter one (some 3)) in
    poll_frame frames counter first.0 first.1

closed_at_end : after_two.0 ≡ (1, 1)
unfolding poll_frame new get
closed_at_end = refl

panic_once : (poll_caught {B = ℕ} (λ b. none) (some 1)).1 ≡ failed
unfolding poll_caught
panic_once = refl

abbrev start : Exchange (List Frame) (List Frame)
start = record { request = one; response = trailers [] ∷ one; request_size = 0; response_size = 0 }

abbrev exchange : Exchange (List Frame) (List Frame)
exchange =
    (poll_response frames frames
      (poll_response frames frames (poll_request frames frames start).0).0).0
