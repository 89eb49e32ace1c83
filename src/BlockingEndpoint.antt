-- ===== src/BlockingEndpoint.antt =====
-- witchcraft-server/src/blocking/conjure.rs and cancellation.rs: a request to a blocking endpoint. The
-- job runs on a thread of the pool; it answers the head of the response through a oneshot channel and
-- feeds a streaming body through another one. The endpoint, and the response for an error, are
-- parameters. The context of tracing and the MDC, which the thread takes over, are left out here.
pub mod Answers
pub mod Streaming
pub mod Complete
mod Tests
use witchcraft_rust_server.Common.{
  ℕ, ◌≡◌, ◌≢◌, Bool, true, false, Option, none, some, List, [], ◌∷◌, ◌++◌, if◌then◌else◌,
}
use witchcraft_rust_server.Http.{Text, Frame, Polled, data_frame, ended, failed, framed, pending}
use witchcraft_rust_server.Assoc.{insert}
use witchcraft_rust_server.ResponseWriter.Blocking.{BodyPart, body_done, frame}

-- `server::ResponseBody`, where `W` is what writes a streaming body
pub data ServerBody (W : Type 0) : Type 0 where
  empty_body : ServerBody W
  fixed_body : Text → ServerBody W
  streaming_body : W → ServerBody W

-- A response with its extensions, by their types
pub record Response (B : Type 0) : Type 0 where
  pub status : ℕ
  pub extensions : List (Text × Text)
  pub body : B

-- `State` of `ResponseBody`; `streaming true` still has the sender of the context.
pub data State : Type 0 where
  empty : State
  fixed : Frame → State
  streaming : Bool → State

-- `ResponseBody::new`: the state, and what writes the body
unfoldable pub new_body : {W : Type 0} → ServerBody W → State × Option W
new_body empty_body = (empty, none)
new_body (fixed_body bytes) = (fixed (data_frame bytes), none)
new_body (streaming_body writer) = (streaming true, some writer)

-- What `endpoint.handle` does, under `catch_unwind`: `Ok(Ok(_))`, `Ok(Err(_))`, `Err(_)`
pub data Handled (W Err : Type 0) : Type 0 where
  returned : Response (ServerBody W) → Handled W Err
  refused : Err → Handled W Err
  panicked : Handled W Err

-- `Extensions::extend`
unfoldable pub extend : List (Text × Text) → List (Text × Text) → List (Text × Text)
extend extensions [] = extensions
extend extensions ((k, v) ∷ more) = extend (insert k v extensions) more

-- `errors::to_response` runs code of the error, so it may panic, which `none` is: that is not caught.
module _ {W Err : Type 0} (to_response : Err → Option (Response (ServerBody W))) where
  -- The `match` in the job
  abbrev pub response_of : Handled W Err → Option (Response (ServerBody W))
  response_of (returned r) = some r
  response_of (refused e) = to_response e
  response_of panicked = some (record { status = 500; extensions = []; body = empty_body })

  abbrev pub send_response :
      Option (Response (ServerBody W)) → List (Text × Text) → Option (Response State × Option W)
  send_response none response_extensions = none
  send_response (some response) response_extensions = some (
    record {
      status = response.status;
      extensions = extend response.extensions response_extensions;
      body = (new_body response.body).0;
    },
    (new_body response.body).1,
  )

  -- The job up to `sender.send`: the response that is sent, and the writer that is left to run. Where
  -- the job panics before, its sender is dropped.
  unfoldable pub blocking : Handled W Err → List (Text × Text) → Option (Response State × Option W)
  unfolding new_body extend
  blocking handled response_extensions = send_response (response_of handled) response_extensions

  -- `handle`, where `accepted` is the answer of `try_execute`, and `runs` is whether the pool runs the
  -- job or drops it. Where the sender is dropped, the receiver fails and `handle` resumes the panic,
  -- which is `none`.
  unfoldable pub handle :
      Bool → Bool → Handled W Err → List (Text × Text) → Option (Response State × Option W)
  unfolding blocking
  handle accepted runs handled response_extensions =
      if accepted
      then (if runs then blocking handled response_extensions else none)
      else some (record { status = 503; extensions = []; body = empty }, none)

-- The two channels between the thread and the body: the context that the thread waits for, and the
-- parts of the body, with the thread's end of these.
pub record Channel : Type 0 where
  pub context_sent : Bool
  pub queue : List BodyPart
  pub sender_alive : Bool

-- `poll_next` of the receiver
pub data Next : Type 0 where
  next_pending next_none : Next
  next_part : BodyPart → Next

abbrev pub poll_queue : Bool → List BodyPart → Next × List BodyPart
poll_queue alive (part ∷ queue) = (next_part part, queue)
poll_queue true [] = (next_pending, [])
poll_queue false [] = (next_none, [])

abbrev pub polled_of : Next → Polled
polled_of next_pending = pending
polled_of next_none = failed
polled_of (next_part (frame f)) = framed f
polled_of (next_part body_done) = ended

-- `if !matches!(poll, Poll::Ready(None))`: the state after a poll of the receiver
abbrev pub state_after : Polled → State
state_after ended = empty
state_after pending = streaming false
state_after failed = streaming false
state_after (framed f) = streaming false

-- `ResponseBody::poll_frame`
unfoldable pub poll_frame : State → Channel → State × Channel × Polled
poll_frame empty c = (empty, c, ended)
poll_frame (fixed f) c = (empty, c, framed f)
poll_frame (streaming context_sender) c =
    let (next, queue) = poll_queue c.sender_alive c.queue in
    (
      state_after (polled_of next),
      record c { context_sent = if context_sender then true else c.context_sent; queue = queue },
      polled_of next,
    )

unfoldable pub is_end_stream : State → Bool
is_end_stream empty = true
is_end_stream (fixed f) = false
is_end_stream (streaming b) = false

-- `StreamingWriter::write_body` on the thread of the pool: before it has the context, writing, and
-- gone. The writer drops its sender with it.
pub data Thread : Type 0 where
  waiting writing gone : Thread

-- A streaming response between the thread and the client. `script` is what the writer has still to
-- feed to the channel; `body` is `none` once the client has dropped it; `answers` are those of
-- `poll_frame`, the last one first.
pub record Stream : Type 0 where
  pub thread : Thread
  pub script : List BodyPart
  pub channel : Channel
  pub body : Option State
  pub cancelled : Bool
  pub answers : List Polled

abbrev pub close_sender : Channel → Channel
close_sender c = record c { sender_alive = false }

-- A step of the thread or of the client, in any order. A full channel only makes the thread wait. The
-- thread that waits for the context fails where the body is dropped before; a thread that writes may
-- fail at any time: by its endpoint, by a panic, by the time-out of a write, or because the body is
-- dropped.
pub data Step (s : Stream) : Stream → Type 0 where
  gets_context :
      s.thread ≡ waiting → s.channel.context_sent ≡ true → Step s (record s { thread = writing })
  context_dropped :
      s.thread ≡ waiting
      → s.channel.context_sent ≡ false
      → s.body ≡ none
      → Step s (record s { thread = gone; channel = close_sender s.channel })
  feeds :
      {part : BodyPart} {rest : List BodyPart}
      → s.thread ≡ writing
      → s.script ≡ part ∷ rest
      → s.body ≢ none
      → Step s (record s {
        script = rest;
        channel = record s.channel { queue = s.channel.queue ++ (part ∷ []) };
      })
  leaves :
      s.thread ≡ writing → Step s (record s { thread = gone; channel = close_sender s.channel })
  polls :
      (b : State)
      → s.body ≡ some b
      → Step s (record s {
        body = some (poll_frame b s.channel).0;
        channel = (poll_frame b s.channel).1;
        answers = (poll_frame b s.channel).2 ∷ s.answers;
      })
  drops :
      (b : State)
      → s.body ≡ some b
      → Step s
          (record s { body = none; cancelled = true; channel = record s.channel { queue = [] } })

-- What the client and the thread begin with, after `sender.send`
abbrev pub started : List BodyPart → Stream
started script = record {
  thread = waiting;
  script = script;
  channel = record { context_sent = false; queue = []; sender_alive = true };
  body = some (streaming true);
  cancelled = false;
  answers = [];
}

pub data Reach (script : List BodyPart) : Stream → Type 0 where
  starts : Reach script (started script)
  then_step : {s t : Stream} → Reach script s → Step s t → Reach script t
