-- ===== src/Stdout/Tests.antt =====
-- A run of the sink of the standard output, whose thread has written one byte at the first poll, and all
-- at the second.
use witchcraft_rust_server.Common.{ℕ, ◌≡◌, refl, [], ◌∷◌, ◌++◌, append_assoc, arith}
use witchcraft_rust_server.Http.{Text}
use witchcraft_rust_server.Poll.{ok, Poll, pending, ready, Sink}
use witchcraft_rust_server.Stdout.{Joined, joined, Blocking, idle, StdoutSink, stdout_sink}
use witchcraft_rust_server.Stdout.Written.{BlockingLaws}

abbrev write_one : Text → Text → Text × Text × Poll (Joined ℕ)
write_one o [] = (o, [], ready (joined ok))
write_one o (b ∷ bs) = (o ++ (b ∷ []), bs, pending)

abbrev writer : Blocking Text Text ℕ
writer = record { spawn = λ o t. (o, t); poll = write_one }

write_one-writes : (o h : Text) → (write_one o h).0 ++ (write_one o h).1 ≡ o ++ h
write_one-writes o [] = refl
write_one-writes o (b ∷ bs) = append_assoc o (b ∷ []) bs

write_one-ready : (o h : Text) → (write_one o h).2 ≡ ready (joined ok) → (write_one o h).1 ≡ []
write_one-ready o [] e = refl
write_one-ready o (b ∷ bs) e = absurd (ground arith)

writer-BlockingLaws : BlockingLaws writer
writer-BlockingLaws = record {
  written = λ o. o;
  rest = λ h. h;
  spawn-writes = λ o t. refl;
  poll-writes = write_one-writes;
  rest-ready = write_one-ready;
}

abbrev sink : Sink (StdoutSink Text Text) Text ℕ
sink = stdout_sink writer

abbrev sent : StdoutSink Text Text
sent = (sink.start_send (record { out = 9 ∷ []; state = idle }) (1 ∷ [])).0
