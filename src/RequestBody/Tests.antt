-- ===== src/RequestBody/Tests.antt =====
-- Runs of the readers of body.rs, over a raw body that is a list of frames.
use witchcraft_rust_server.Common.{
  ◌≡◌, ◌<◌, refl, sym, List, [], ◌∷◌, ◌++◌, length, is_empty, append-nil, arith,
}
use witchcraft_rust_server.Http.{Text, Frame, data_frame, trailers, Polled, ended, framed, Body}
use witchcraft_rust_server.RequestBody.{RequestBody, new, poll_read}
use witchcraft_rust_server.RequestBody.Reading.{BodyTrace, bytes_of, opens, reads, Inv, Reads-Inv}
use witchcraft_rust_server.RequestBody.Fuel.{IsFinite}

-- The bytes given, and the frames to come
abbrev next_frame : Text × List Frame → (Text × List Frame) × Polled
next_frame (given, []) = ((given, []), ended)
next_frame (given, f ∷ fs) = ((given ++ bytes_of (framed f), fs), framed f)

abbrev frames : Body
frames = record {
  B = Text × List Frame;
  poll_frame = next_frame;
  is_end_stream = λ b. is_empty b.1;
}

frames_given : (b : Text × List Frame) → (next_frame b).0.0 ≡ b.0 ++ bytes_of (next_frame b).1
frames_given (given, []) = sym (append-nil given)
frames_given (given, f ∷ fs) = refl

frames_trace : BodyTrace frames
frames_trace = record { given = λ b. b.0; given_lem = frames_given }

frames_fewer :
    (b : Text × List Frame) (f : Frame)
    → (next_frame b).1 ≡ framed f
    → length (next_frame b).0.1 < length b.1
frames_fewer (given, []) f h = ground arith
frames_fewer (given, g ∷ fs) f h = omega arith

frames_IsFinite : IsFinite frames
frames_IsFinite = record { left = λ b. length b.1; fewer = frames_fewer }

abbrev extend : Text → Text → Text
extend base t = base ++ t

abbrev start : Text × List Frame
start =
    ([], data_frame [] ∷ data_frame (1 ∷ 2 ∷ 3 ∷ []) ∷ trailers (9 ∷ []) ∷ data_frame (4 ∷ []) ∷ [])

abbrev after_read : RequestBody (Text × List Frame)
after_read = (poll_read frames extend 5 2 (new frames extend start)).0

read_two : (poll_read frames extend 5 2 (new frames extend start)).2 ≡ 1 ∷ 2 ∷ []
unfolding poll_read new
read_two = refl

Reads-Inv_example :
    Inv frames extend frames_trace
      ([] ++ (poll_read frames extend 5 2 (new frames extend start)).2)
      after_read
unfolding frames_trace
Reads-Inv_example = Reads-Inv frames extend frames_trace refl (reads 5 2 opens)
