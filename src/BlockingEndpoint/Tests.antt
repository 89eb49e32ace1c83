-- ===== src/BlockingEndpoint/Tests.antt =====
-- Requests to blocking endpoints: heads of responses, and a body that is read to its end.
use witchcraft_rust_server.Common.{
  ℕ, ◌≡◌, ◌≢◌, refl, true, false, Option, none, some, List, [], ◌∷◌, ◌++◌, map, arith,
}
use witchcraft_rust_server.Http.{Text, data_frame, ended, framed, pending}
use witchcraft_rust_server.Poll.{ok}
use witchcraft_rust_server.ResponseWriter.{ResponseWriter}
use witchcraft_rust_server.ResponseWriter.Blocking as Blocking
use witchcraft_rust_server.ResponseWriter.Blocking.{BodyPart, Sender, body_done, finish, frame}
use witchcraft_rust_server.ResponseWriter.Blocking.Finishing as Finishing
use witchcraft_rust_server.ResponseWriter.Blocking.Finishing.{SenderLaws}
use witchcraft_rust_server.BlockingEndpoint
use witchcraft_rust_server.BlockingEndpoint.{
  Channel, Handled, Reach, Response, ServerBody, Stream, blocking, empty_body, extend, feeds,
  fixed_body, gets_context, gone, handle, leaves, new_body, panicked, poll_frame, polls, returned,
  started, starts, streaming, then_step, waiting, writing,
}
use witchcraft_rust_server.BlockingEndpoint.Answers.{Answered, handle-Answered}
use witchcraft_rust_server.BlockingEndpoint.Streaming.{frames_of, has_ended}
use witchcraft_rust_server.BlockingEndpoint.Complete.{
  Outcome, bytes_of_all, ended_complete, unfinished_fails,
}

abbrev error_response : ℕ → Option (Response (ServerBody ℕ))
error_response e = some (record { status = e; extensions = []; body = empty_body })

abbrev hello : Response (ServerBody ℕ)
hello = record { status = 200; extensions = (1 ∷ [], 1 ∷ []) ∷ []; body = fixed_body (7 ∷ []) }

abbrev quiet : Channel
quiet = record { context_sent = false; queue = []; sender_alive = true }

dropped_panics : handle error_response true false (returned hello) [] ≡ none
unfolding handle
dropped_panics = refl

handle-Answered_example :
    Answered error_response true true
      (returned hello)
      ((1 ∷ [], 2 ∷ []) ∷ [])
      (1 ∷ [])
      quiet
      (handle error_response true true (returned hello) ((1 ∷ [], 2 ∷ []) ∷ []))
handle-Answered_example =
    handle-Answered error_response true true (returned hello) ((1 ∷ [], 2 ∷ []) ∷ []) (1 ∷ []) quiet
      (refl, record {})

abbrev sender : Sender (List BodyPart) Text
sender = record {
  feed = λ s p. (s ++ (p ∷ []), ok);
  send = λ s p. (s ++ (p ∷ []), ok);
  flush = λ s. (s, ok);
}

abbrev sender_laws : SenderLaws sender
sender_laws = record {
  received = λ s. s;
  received-feed = λ s p h. refl;
  received-send = λ s p h. refl;
  received-flush = λ s. refl;
}

abbrev written : ResponseWriter (List BodyPart)
written = (Blocking.write sender (1 ∷ 2 ∷ []) (record { sender = []; buf = [] })).0

written-Writes : Finishing.Writes sender sender_laws [] written ([] ++ (1 ∷ 2 ∷ []))
unfolding Blocking.write
written-Writes = Finishing.writes (1 ∷ 2 ∷ []) Finishing.opens refl

finish-ok : (finish sender written).1 ≡ ok
unfolding finish Blocking.write
finish-ok = refl

abbrev script : List BodyPart
script = frame (data_frame (1 ∷ 2 ∷ [])) ∷ body_done ∷ []

script-sent : (finish sender written).0.sender ≡ script
unfolding finish Blocking.write
script-sent = refl

-- The client polls, the thread has the context and feeds both parts, and the client polls twice.
abbrev read : Stream
read = record {
  thread = writing;
  script = [];
  channel = record { context_sent = true; queue = []; sender_alive = true };
  body = some BlockingEndpoint.empty;
  cancelled = false;
  answers = ended ∷ framed (data_frame (1 ∷ 2 ∷ [])) ∷ pending ∷ [];
}

has_body : (b : BlockingEndpoint.State) → some b ≢ none
has_body b e = ground arith

read-Reach : Reach script read
unfolding poll_frame
read-Reach =
    then_step
      (then_step
        (then_step
          (then_step
            (then_step (then_step starts (polls (streaming true) refl)) (gets_context refl refl))
            (feeds refl refl (has_body (streaming false))))
          (feeds refl refl (has_body (streaming false))))
        (polls (streaming false) refl))
      (polls (streaming false) refl)

read-finished : Reach (finish sender written).0.sender read
unfolding finish Blocking.write
read-finished = read-Reach

ended_complete_example : bytes_of_all (frames_of read.answers) ≡ 1 ∷ 2 ∷ []
ended_complete_example =
    ended_complete sender sender_laws {start = []} {w = written} {out = 1 ∷ 2 ∷ []} refl
      written-Writes finish-ok {s = read} read-finished refl

-- The endpoint panics after its first frame.
abbrev torn : Stream
torn = record {
  thread = gone;
  script = [];
  channel = record { context_sent = true; queue = []; sender_alive = false };
  body = some (streaming false);
  cancelled = false;
  answers = framed (data_frame (5 ∷ [])) ∷ pending ∷ [];
}

torn-Reach : Reach (map frame (data_frame (5 ∷ []) ∷ [])) torn
unfolding poll_frame
torn-Reach =
    then_step
      (then_step
        (then_step
          (then_step (then_step starts (polls (streaming true) refl)) (gets_context refl refl))
          (feeds refl refl (has_body (streaming false))))
        (leaves refl))
      (polls (streaming false) refl)

unfinished_fails_example :
    (has_ended torn.answers ≡ false)
    × Outcome torn.channel (poll_frame (streaming false) torn.channel).2
unfinished_fails_example =
    unfinished_fails (data_frame (5 ∷ []) ∷ []) (streaming false) torn-Reach refl refl
