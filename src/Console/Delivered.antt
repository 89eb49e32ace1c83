-- ===== src/Console/Delivered.antt =====
-- logging/logger/mod.rs: what a server that logs to the console has written when a flush succeeds.
use witchcraft_rust_server.Common.{Bool, true, ◌≡◌, refl, sym, ap, ◌∙◌, List, ◌++◌, append-nil}
use witchcraft_rust_server.Http.{Text}
use witchcraft_rust_server.Poll.{ok, ready}
use witchcraft_rust_server.ByteBuffer
use witchcraft_rust_server.ByteBuffer.{
  BufBytesSink, Payload, answer_all, buf_bytes_sink, flushing, poll, poll_flush,
}
use witchcraft_rust_server.ByteBuffer.Answers.{poll_flush-inner}
use witchcraft_rust_server.Stdout.{Blocking, StdoutSink, idle, stdout_sink}
use witchcraft_rust_server.Stdout.Written.{BlockingLaws, poll_state-ready, to_write}
use witchcraft_rust_server.Stdout.Laws.{stdout_sink-laws}
use witchcraft_rust_server.Console.{Appender, appender, new_appender, new_stdout, stdout_appender}
use witchcraft_rust_server.Console.Buffered.{
  Runs, cbs, flushed_since_new, lines, polled-poll, records, reported,
}

module _ {O H E T R : Type 0} (blocking : Blocking O H E) (laws : BlockingLaws blocking)
    (to_writer : T → Text × Bool) (invalid_input : E) (report : R → T → R) where
  appender-records :
      appender blocking to_writer invalid_input report
      ≡ records to_writer invalid_input report (stdout_sink blocking)
  unfolding appender stdout_appender
  appender-records = refl

  -- The inner sink of a buffer whose flush succeeds is idle.
  flushed-idle :
      (s : BufBytesSink (StdoutSink O H) _)
      → (poll_flush (stdout_sink blocking) s).1 ≡ ready ok
      → (poll_flush (stdout_sink blocking) s).0.inner.state ≡ idle
  unfolding stdout_sink
  flushed-idle s h =
      let (i, fine, same) = poll_flush-inner (stdout_sink blocking) s h in
      ap (λ x. x.state) same ∙ (poll_state-ready blocking laws i.out i.state fine).1

  -- A server that logs to the console, from its start: after any history without an error of polls,
  -- and of records that serialise, each sent after a `poll_ready` that was ready, a flush that succeeds
  -- leaves on the standard output what was there and one line for each record, in order; no other
  -- callback than theirs was told anything, and each of them was told `true`, once and in order; and
  -- each record was reported to the meters once, in order.
  pub console_flushed :
      (out : O) (reporter : R) {s : Appender O H R} {ps : List (Payload T)}
      → Runs to_writer invalid_input report (stdout_sink blocking) (new_appender out reporter) s ps
      → ((appender blocking to_writer invalid_input report).poll_flush s).1 ≡ ready ok
      → let s' = ((appender blocking to_writer invalid_input report).poll_flush s).0 in
        (laws.written s'.inner.inner.inner.out ≡ laws.written out ++ lines to_writer ps)
        × (s'.inner.inner.inner.state ≡ idle)
        × (s'.inner.inner.answered ≡ answer_all true (cbs ps))
        × (s'.reporter ≡ reported report reporter ps)
  unfolding appender stdout_appender new_appender new_stdout ByteBuffer.new poll stdout_sink-laws
  console_flushed out reporter {s} {ps} r h =
      let (answer, state) =
        polled-poll to_writer invalid_input report (stdout_sink blocking)
          (stdout_sink-laws blocking laws) flushing s in
      let still =
        ap (λ x. x.inner.inner.inner.state) state ∙ flushed-idle s.inner.inner (rw answer at h) in
      let (all, told, meters) =
        flushed_since_new to_writer invalid_input report (stdout_sink blocking)
          (stdout_sink-laws blocking laws) (record { out = out; state = idle }) reporter r h in
      let end : Appender O H R =
        ((appender blocking to_writer invalid_input report).poll_flush s).0 in
      (
        sym (append-nil (laws.written end.inner.inner.inner.out))
            ∙ ap (λ x. laws.written end.inner.inner.inner.out ++ to_write blocking laws x)
                (sym still)
            ∙ all
            ∙ ap (λ x. x ++ lines to_writer ps) (append-nil (laws.written out)),
        still,
        told,
        meters,
      )
