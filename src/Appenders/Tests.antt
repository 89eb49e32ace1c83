-- ===== src/Appenders/Tests.antt =====
-- Runs of the appenders, where a record is a number, zero does not serialise, and the inner sink keeps
-- what it is sent.
use witchcraft_rust_server.Common.{
  ℕ, ◌+◌, ◌≡◌, refl, Bool, true, false, none, some, List, [], ◌∷◌, ◌++◌, if◌then◌else◌, ◌==◌,
}
use witchcraft_rust_server.Http.{Text}
use witchcraft_rust_server.Poll.{ok, ready, Sink}
use witchcraft_rust_server.ByteBuffer.{Payload}
use witchcraft_rust_server.Appenders.{
  json_start_send, json_sink, metrics_start_send, metrics_sink, record_sink,
}
use witchcraft_rust_server.Appenders.Lines.{Trace, Both, both}

abbrev Kept : Type 0
Kept = List (Payload Text)

abbrev writer : ℕ → Text × Bool
writer n = (123 ∷ n ∷ [], if n == 0 then false else true)

abbrev keeper : Sink Kept (Payload Text) ℕ
keeper = record {
  poll_ready = λ s. (s, ready ok);
  start_send = λ s p. (s ++ (p ∷ []), ok);
  poll_flush = λ s. (s, ready ok);
  poll_close = λ s. (s, ready ok);
}

abbrev count : ℕ → ℕ → ℕ
count r n = r + 1

keeper_trace : Trace writer 5 count keeper
keeper_trace = record {
  sent = λ s. s;
  sent-start_send = λ s p. refl;
  sent-poll_ready = λ s. refl;
  sent-poll_flush = λ s. refl;
}

abbrev start : Both writer 5 count keeper
start = record { inner = record { inner = []; buf = [] }; reporter = 0 }

abbrev seven : Payload ℕ
seven = record { value = 7; cb = some 1 }

abbrev zero_record : Payload ℕ
zero_record = record { value = 0; cb = none }

one_line :
    ((both writer 5 count keeper).start_send start seven).0.inner.inner
    ≡ record { value = 123 ∷ 7 ∷ 10 ∷ []; cb = some 1 } ∷ []
unfolding record_sink json_sink metrics_sink metrics_start_send json_start_send
one_line = refl
