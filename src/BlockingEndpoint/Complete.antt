-- ===== src/BlockingEndpoint/Complete.antt =====
-- blocking/conjure.rs, body.rs: a streaming body that ends is complete, and one that is given up fails.
use witchcraft_rust_server.Common.{
  ◌≡◌, ◌≢◌, ◌⊎◌, refl, sym, ap, ◌∙◌, subst, Bool, true, false, Option, none, some, List, [], ◌∷◌,
  ◌++◌, map, arith, inl, inr, Bool-cases,
}
use witchcraft_rust_server.Http.{Text, Frame, Polled, failed, framed, trailers}
use witchcraft_rust_server.ResponseWriter.{ResponseWriter}
use witchcraft_rust_server.ResponseWriter.Writing.{bytes_of}
use witchcraft_rust_server.Poll.{ok}
use witchcraft_rust_server.ResponseWriter.Blocking.{BodyPart, Sender, body_done, finish, frame}
use witchcraft_rust_server.ResponseWriter.Blocking.Finishing.{
  FramesOf, SenderLaws, Writes, finish-Complete,
}
use witchcraft_rust_server.BlockingEndpoint.{
  Channel, Reach, State, Step, Stream, Thread, context_dropped, drops, empty, feeds, fixed,
  gets_context, gone, leaves, poll_frame, poll_queue, polled_of, polls, starts, streaming,
  then_step, waiting, writing,
}
use witchcraft_rust_server.BlockingEndpoint.Streaming.{
  Ended, InvOf, Reach-Inv, frames_of, has_ended,
}

abbrev pub bytes_of_all : List Frame → Text
bytes_of_all [] = []
bytes_of_all (f ∷ fs) = bytes_of f ++ bytes_of_all fs

abbrev is_frame : BodyPart → Bool
is_frame (frame f) = true
is_frame body_done = false

abbrev head_or : BodyPart → List BodyPart → BodyPart
head_or d [] = d
head_or d (p ∷ ps) = p

abbrev tail : List BodyPart → List BodyPart
tail [] = []
tail (p ∷ ps) = ps

abbrev the_frame : Frame → BodyPart → Frame
the_frame d (frame f) = f
the_frame d body_done = d

-- The frames before the end are determined.
frames_unique :
    (parts rest : List BodyPart) (fs : List Frame) (out : Text)
    → FramesOf parts out
    → parts ++ (body_done ∷ []) ≡ map frame fs ++ (body_done ∷ rest)
    → bytes_of_all fs ≡ out
frames_unique [] rest [] out h e = sym h
frames_unique [] rest (f ∷ fs) out h e =
    let k : false ≡ true = ap (λ x. is_frame (head_or body_done x)) e in absurd (ground arith)
frames_unique (body_done ∷ parts) rest fs out h e = absurd h
frames_unique (frame g ∷ parts) rest [] out h e =
    let k : true ≡ false = ap (λ x. is_frame (head_or body_done x)) e in absurd (ground arith)
frames_unique (frame g ∷ parts) rest (f ∷ fs) out (more, q, h) e =
    let same : g ≡ f = ap (λ x. the_frame g (head_or body_done x)) e in
    ap (λ x. bytes_of x ++ bytes_of_all fs) (sym same)
    ∙ ap (λ x. bytes_of g ++ x) (frames_unique parts rest fs more h (ap tail e))
    ∙ sym q

no_done :
    (fs gs : List Frame) (rest : List BodyPart) → map frame fs ≢ map frame gs ++ (body_done ∷ rest)
no_done [] [] rest e =
    let k : true ≡ false = ap (λ x. is_frame (head_or (frame (trailers [])) x)) e in ground arith
no_done [] (g ∷ gs) rest e =
    let k : false ≡ true = ap (λ x. is_frame (head_or body_done x)) e in ground arith
no_done (f ∷ fs) [] rest e =
    let k : true ≡ false = ap (λ x. is_frame (head_or body_done x)) e in ground arith
no_done (f ∷ fs) (g ∷ gs) rest e = no_done fs gs rest (ap tail e)

has_ended-Ended :
    (whole : List BodyPart) (body : Option State) (answers : List Polled)
    (queue script : List BodyPart)
    → InvOf whole body answers queue script
    → has_ended answers ≡ true
    → Ended whole answers
has_ended-Ended whole none answers queue script (rest, e, k) h = k h
has_ended-Ended whole (some empty) answers queue script i h = i
has_ended-Ended whole (some (fixed f)) answers queue script i h = absurd i
has_ended-Ended whole (some (streaming b)) answers queue script (n, e) h = absurd (ground arith)

-- An endpoint writes a body with no error and finishes it, over a channel that keeps what it takes.
-- Whichever way the thread and the client take their steps, if a poll of the client's body has
-- answered that it has ended, then the frames of its polls hold all the bytes that the endpoint
-- wrote, in order.
pub ended_complete :
    {S E : Type 0} (tx : Sender S E) (laws : SenderLaws tx) {start : S} {w : ResponseWriter S}
    {out : Text}
    → laws.received start ≡ []
    → Writes tx laws start w out
    → (finish tx w).1 ≡ ok
    → {s : Stream} → Reach (laws.received (finish tx w).0.sender) s
    → has_ended s.answers ≡ true
    → bytes_of_all (frames_of s.answers) ≡ out
ended_complete tx laws {start} {w} {out} n ws h {s} r e =
    let (parts, q, fs) = finish-Complete tx laws n ws h in
    let whole : List BodyPart = laws.received (finish tx w).0.sender in
    let (rest, d) =
      has_ended-Ended whole s.body s.answers s.channel.queue s.script (Reach-Inv whole r) e in
    frames_unique parts rest (frames_of s.answers) out fs (sym q ∙ d)

abbrev not_gone : Thread → Bool
not_gone waiting = true
not_gone writing = true
not_gone gone = false

step-alive :
    {s t : Stream}
    → Step s t
    → s.channel.sender_alive ≡ not_gone s.thread
    → t.channel.sender_alive ≡ not_gone t.thread
unfolding poll_frame
step-alive (gets_context w c) h = rw w at h
step-alive (context_dropped w c b) h = refl
step-alive (feeds w e n) h = h
step-alive (leaves w) h = refl
step-alive (polls empty e) h = h
step-alive (polls (fixed f) e) h = h
step-alive (polls (streaming b) e) h = h
step-alive (drops b e) h = h

Reach-alive :
    {whole : List BodyPart} {s : Stream}
    → Reach whole s
    → s.channel.sender_alive ≡ not_gone s.thread
Reach-alive starts = refl
Reach-alive (then_step r st) = step-alive st (Reach-alive r)

-- What a poll answers once the thread is gone
abbrev pub Outcome : Channel → Polled → Type 0
Outcome c answer =
    ((c.queue ≡ []) × (answer ≡ failed))
    ⊎ ((f : Frame) × (rest : List BodyPart) × (c.queue ≡ frame f ∷ rest) × (answer ≡ framed f))

poll-Outcome :
    (fs : List Frame) (b : State) (c : Channel) (answers : List Polled) (script : List BodyPart)
    → c.sender_alive ≡ false
    → InvOf (map frame fs) (some b) answers c.queue script
    → Outcome c (poll_frame b c).2
unfolding poll_frame
poll-Outcome fs empty c answers script a (rest, e) = absurd (no_done fs (frames_of answers) rest e)
poll-Outcome fs (fixed f) c answers script a i = absurd i
poll-Outcome fs (streaming b) c answers script a (n, e) = go c.queue c.sender_alive refl a e
  where
    go :
        (queue : List BodyPart) (alive : Bool)
        → c.queue ≡ queue
        → alive ≡ false
        → map frame fs ≡ map frame (frames_of answers) ++ (queue ++ script)
        → Outcome c (polled_of (poll_queue alive queue).0)
    go [] true q h k = absurd (ground arith)
    go [] false q h k = inl (q, refl)
    go (frame f ∷ rest) alive q h k = inr (f, rest, q, refl)
    go (body_done ∷ rest) alive q h k = absurd (no_done fs (frames_of answers) (rest ++ script) k)

-- The polls of a body whose thread never feeds the end do not end it.
never_ended : (fs : List Frame) {s : Stream} → Reach (map frame fs) s → has_ended s.answers ≡ false
never_ended fs {s} r = elim (Bool-cases (has_ended s.answers)) [
  | inl h ↦
      let (rest, e) =
        has_ended-Ended (map frame fs) s.body s.answers s.channel.queue s.script
          (Reach-Inv (map frame fs) r) h in
      absurd (no_done fs (frames_of s.answers) rest e)
  | inr h ↦ h
]

-- A thread that never feeds the end of the body, because its endpoint fails, panics or is timed out:
-- once the thread is gone, no poll of the body that the client still has has answered that it ended,
-- and the next poll gives the next frame of the channel, or fails where there is none.
pub unfinished_fails :
    (fs : List Frame) {s : Stream} (b : State)
    → Reach (map frame fs) s
    → s.thread ≡ gone
    → s.body ≡ some b
    → (has_ended s.answers ≡ false) × Outcome s.channel (poll_frame b s.channel).2
unfinished_fails fs {s} b r g e = (
  never_ended fs r,
  poll-Outcome fs b s.channel s.answers s.script (Reach-alive r ∙ ap not_gone g) (
      subst (λ x. InvOf (map frame fs) x s.answers s.channel.queue s.script) e
        (Reach-Inv (map frame fs) r)),
)
