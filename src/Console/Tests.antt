-- ===== src/Console/Tests.antt =====
-- A run of the console's appender, with records that are numbers and a thread that has written its
-- bytes at the first poll and says so at the second.
use witchcraft_rust_server.Common.{
  ℕ, ◌+◌, ◌≡◌, refl, Bool, true, some, [], ◌∷◌, ◌++◌, append-nil, arith,
}
use witchcraft_rust_server.Http.{Text}
use witchcraft_rust_server.Poll.{ok, Poll, pending, ready, Sink}
use witchcraft_rust_server.ByteBuffer
use witchcraft_rust_server.ByteBuffer.{Payload, answer_all, buf_bytes_sink, flushing, sub_usize}
use witchcraft_rust_server.Appenders.{
  json_sink, json_start_send, metrics_sink, metrics_start_send, record_sink,
}
use witchcraft_rust_server.Stdout.{
  Blocking, Joined, idle, joined, poll_flush, start_send, stdout_sink,
}
use witchcraft_rust_server.Stdout.Written.{BlockingLaws}
use witchcraft_rust_server.Console.{Appender, appender, new_appender, new_stdout, stdout_appender}
use witchcraft_rust_server.Console.Buffered.{polls, sends, starts}
use witchcraft_rust_server.Console.Delivered.{console_flushed}

abbrev write_late : Text → Text → Text × Text × Poll (Joined ℕ)
write_late o [] = (o, [], ready (joined ok))
write_late o (b ∷ bs) = (o ++ (b ∷ bs), [], pending)

abbrev thread : Blocking Text Text ℕ
thread = record { spawn = λ o t. (o, t); poll = write_late }

write_late-writes : (o h : Text) → (write_late o h).0 ++ (write_late o h).1 ≡ o ++ h
write_late-writes o [] = refl
write_late-writes o (b ∷ bs) = append-nil (o ++ (b ∷ bs))

write_late-ready : (o h : Text) → (write_late o h).2 ≡ ready (joined ok) → (write_late o h).1 ≡ []
write_late-ready o [] e = refl
write_late-ready o (b ∷ bs) e = absurd (ground arith)

thread-BlockingLaws : BlockingLaws thread
thread-BlockingLaws = record {
  written = λ o. o;
  rest = λ h. h;
  spawn-writes = λ o t. refl;
  poll-writes = write_late-writes;
  rest-ready = write_late-ready;
}

abbrev writer : ℕ → Text × Bool
writer n = (123 ∷ n ∷ 125 ∷ [], true)

abbrev count : ℕ → ℕ → ℕ
count r n = r + 1

abbrev sink : Sink (Appender Text Text ℕ) (Payload ℕ) ℕ
sink = appender thread writer 5 count

abbrev seven : Payload ℕ
seven = record { value = 7; cb = some 1 }

abbrev eight : Payload ℕ
eight = record { value = 8; cb = some 2 }

abbrev opened : Appender Text Text ℕ
opened = new_appender (9 ∷ []) 0

abbrev two_sent : Appender Text Text ℕ
two_sent =
    (sink.start_send (sink.poll_ready (sink.start_send (sink.poll_ready opened).0 seven).0).0
      eight).0

abbrev waiting : Appender Text Text ℕ
waiting = (sink.poll_flush two_sent).0

console_flushed_example :
    ((sink.poll_flush waiting).0.inner.inner.inner.out
      ≡ 9 ∷ 123 ∷ 7 ∷ 125 ∷ 10 ∷ 123 ∷ 8 ∷ 125 ∷ 10 ∷ [])
    × ((sink.poll_flush waiting).0.inner.inner.inner.state ≡ idle)
    × ((sink.poll_flush waiting).0.inner.inner.answered ≡ answer_all true (1 ∷ 2 ∷ []))
    × ((sink.poll_flush waiting).0.reporter ≡ 2)
unfolding appender stdout_appender new_appender new_stdout record_sink json_sink metrics_sink
    metrics_start_send json_start_send buf_bytes_sink stdout_sink poll_flush start_send
    thread-BlockingLaws ByteBuffer.new
console_flushed_example =
    console_flushed thread thread-BlockingLaws writer 5 count (9 ∷ []) 0 {s = waiting}
      {ps = seven ∷ eight ∷ []}
      (polls flushing (sends eight (sends seven starts refl refl) refl refl) refl) refl
