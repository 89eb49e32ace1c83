-- ===== src/BlockingEndpoint/Streaming.antt =====
-- blocking/conjure.rs: what the client gets of a streaming body, whichever way the thread and the
-- client take their steps.
use witchcraft_rust_server.Common.{
  ◌≡◌, ◌≢◌, refl, sym, ap, ◌∙◌, subst, Bool, true, false, Option, none, some, List, [], ◌∷◌, ◌++◌,
  map, map-append, append_assoc, arith,
}
use witchcraft_rust_server.Http.{Frame, Polled, ended, failed, framed, pending}
use witchcraft_rust_server.ResponseWriter.Blocking.{BodyPart, body_done, frame}
use witchcraft_rust_server.BlockingEndpoint.{
  Channel, Reach, State, Step, Stream, context_dropped, drops, empty, feeds, fixed, gets_context,
  leaves, poll_frame, poll_queue, polled_of, polls, starts, state_after, streaming, then_step,
}

-- The frames among the answers, of which the last one stands first
abbrev pub frames_of : List Polled → List Frame
frames_of [] = []
frames_of (framed f ∷ answers) = frames_of answers ++ (f ∷ [])
frames_of (pending ∷ answers) = frames_of answers
frames_of (ended ∷ answers) = frames_of answers
frames_of (failed ∷ answers) = frames_of answers

abbrev pub has_ended : List Polled → Bool
has_ended [] = false
has_ended (ended ∷ answers) = true
has_ended (framed f ∷ answers) = has_ended answers
has_ended (pending ∷ answers) = has_ended answers
has_ended (failed ∷ answers) = has_ended answers

abbrev pub parts_of : List Polled → List BodyPart
parts_of answers = map frame (frames_of answers)

-- The client has the frames before the end of the body.
abbrev pub Ended : List BodyPart → List Polled → Type 0
Ended whole answers = (rest : List BodyPart) × (whole ≡ parts_of answers ++ (body_done ∷ rest))

abbrev pub Dropped : List BodyPart → List Polled → Type 0
Dropped whole answers =
    (rest : List BodyPart) × (whole ≡ parts_of answers ++ rest)
    × (has_ended answers ≡ true → Ended whole answers)

-- Where the body is read, nothing is lost.
abbrev pub Streaming : List BodyPart → List Polled → List BodyPart → List BodyPart → Type 0
Streaming whole answers queue script =
    (has_ended answers ≡ false) × (whole ≡ parts_of answers ++ (queue ++ script))

abbrev pub InvOf :
    List BodyPart → Option State → List Polled → List BodyPart → List BodyPart → Type 0
InvOf whole none answers queue script = Dropped whole answers
InvOf whole (some empty) answers queue script = Ended whole answers
InvOf whole (some (fixed f)) answers queue script = ⊥
InvOf whole (some (streaming b)) answers queue script = Streaming whole answers queue script

abbrev pub Inv : List BodyPart → Stream → Type 0
Inv whole s = InvOf whole s.body s.answers s.channel.queue s.script

parts_of-framed :
    (f : Frame) (answers : List Polled) (rest : List BodyPart)
    → parts_of answers ++ (frame f ∷ rest) ≡ parts_of (framed f ∷ answers) ++ rest
parts_of-framed f answers rest =
    sym (append_assoc (parts_of answers) (frame f ∷ []) rest)
    ∙ ap (λ x. x ++ rest) (sym (map-append frame (frames_of answers) (f ∷ [])))

-- A poll of a body that is read
poll-Streaming :
    (whole : List BodyPart) (answers : List Polled) (script : List BodyPart) (alive : Bool)
    (queue : List BodyPart)
    → Streaming whole answers queue script
    → let (next, rest) = poll_queue alive queue in
      InvOf whole (some (state_after (polled_of next))) (polled_of next ∷ answers) rest script
poll-Streaming whole answers script true [] (n, e) = (n, e)
poll-Streaming whole answers script false [] (n, e) = (n, e)
poll-Streaming whole answers script alive (frame f ∷ queue) (n, e) =
    (n, e ∙ parts_of-framed f answers (queue ++ script))
poll-Streaming whole answers script alive (body_done ∷ queue) (n, e) = (queue ++ script, e)

poll-Inv :
    (whole : List BodyPart) (b : State) (c : Channel) (answers : List Polled)
    (script : List BodyPart)
    → InvOf whole (some b) answers c.queue script
    → InvOf whole
        (some (poll_frame b c).0)
        ((poll_frame b c).2 ∷ answers)
        (poll_frame b c).1.queue
        script
unfolding poll_frame
poll-Inv whole empty c answers script i = i
poll-Inv whole (fixed f) c answers script i = absurd i
poll-Inv whole (streaming b) c answers script i =
    poll-Streaming whole answers script c.sender_alive c.queue i

drop-Inv :
    (whole : List BodyPart) (b : State) (answers : List Polled) (queue script : List BodyPart)
    → InvOf whole (some b) answers queue script
    → Dropped whole answers
drop-Inv whole empty answers queue script (rest, e) = (body_done ∷ rest, e, λ h. (rest, e))
drop-Inv whole (fixed f) answers queue script i = absurd i
drop-Inv whole (streaming b) answers queue script (n, e) =
    (queue ++ script, e, λ h. absurd (ground arith))

feed-Inv :
    (whole : List BodyPart) (body : Option State) (answers : List Polled) (queue : List BodyPart)
    (part : BodyPart) (rest : List BodyPart)
    → body ≢ none
    → InvOf whole body answers queue (part ∷ rest)
    → InvOf whole body answers (queue ++ (part ∷ [])) rest
feed-Inv whole none answers queue part rest n i = absurd (n refl)
feed-Inv whole (some empty) answers queue part rest n i = i
feed-Inv whole (some (fixed f)) answers queue part rest n i = i
feed-Inv whole (some (streaming b)) answers queue part rest n (h, e) =
    (h, e ∙ ap (λ x. parts_of answers ++ x) (sym (append_assoc queue (part ∷ []) rest)))

step-Inv : (whole : List BodyPart) {s t : Stream} → Step s t → Inv whole s → Inv whole t
step-Inv whole (gets_context w c) i = i
step-Inv whole (context_dropped w c b) i = i
step-Inv whole {s} (feeds {part = part} {rest = rest} w e n) i =
    feed-Inv whole s.body s.answers s.channel.queue part rest n
      (subst (InvOf whole s.body s.answers s.channel.queue) e i)
step-Inv whole (leaves w) i = i
step-Inv whole {s} (polls b e) i =
    poll-Inv whole b s.channel s.answers s.script
      (subst (λ x. InvOf whole x s.answers s.channel.queue s.script) e i)
step-Inv whole {s} (drops b e) i =
    drop-Inv whole b s.answers s.channel.queue s.script
      (subst (λ x. InvOf whole x s.answers s.channel.queue s.script) e i)

pub Reach-Inv : (whole : List BodyPart) {s : Stream} → Reach whole s → Inv whole s
Reach-Inv whole starts = (refl, refl)
Reach-Inv whole (then_step r st) = step-Inv whole st (Reach-Inv whole r)
