-- ===== src/Stdout/Laws.antt =====
-- stdout.rs: the sink of the standard output keeps what a byte sink promises.
use witchcraft_rust_server.Common.{false, ◌≡◌, refl, sym, ap, ◌∙◌, ◌++◌, append-nil, arith}
use witchcraft_rust_server.Http.{Text}
use witchcraft_rust_server.Poll.{Result, ok, err, Poll, pending, ready, SinkLaws, is_err}
use witchcraft_rust_server.Stdout.{
  Blocking, StdoutSink, idle, poll_flush, poll_state, start_send, stdout_sink,
}
use witchcraft_rust_server.Stdout.Written.{
  BlockingLaws, poll_state-pending, poll_state-ready, to_write,
}

module _ {O H E : Type 0} (blocking : Blocking O H E) (laws : BlockingLaws blocking) where
  -- The bytes on the output, and those that a thread has still to write
  abbrev pub taken : StdoutSink O H → Text
  taken s = laws.written s.out ++ to_write blocking laws s.state

  answered :
      (s : StdoutSink O H) (p : Poll (Result E))
      → (poll_state blocking s.out s.state).1 ≡ p
      → is_err p ≡ false
      → taken (poll_state blocking s.out s.state).0 ≡ taken s
  answered s pending e h = poll_state-pending blocking laws s.out s.state e
  answered s (ready ok) e h = (poll_state-ready blocking laws s.out s.state e).0
  answered s (ready (err x)) e h = absurd (ground arith)

  pub poll_flush-taken :
      (s : StdoutSink O H)
      → is_err (poll_flush blocking s).1 ≡ false
      → taken (poll_flush blocking s).0 ≡ taken s
  unfolding poll_flush
  poll_flush-taken s h = answered s (poll_state blocking s.out s.state).1 refl h

  pub start_send-taken :
      (s : StdoutSink O H) (item : Text)
      → s.state ≡ idle
      → (start_send blocking s item).1 ≡ ok
      → taken (start_send blocking s item).0 ≡ taken s ++ item
  unfolding start_send
  start_send-taken s item i h =
      laws.spawn-writes s.out item
      ∙ ap (λ x. x ++ item)
          (sym (append-nil (laws.written s.out))
            ∙ ap (λ x. laws.written s.out ++ to_write blocking laws x) (sym i))

  unfoldable pub stdout_sink-laws : SinkLaws (stdout_sink blocking)
  unfolding stdout_sink poll_flush
  stdout_sink-laws = record {
    IsReady = λ s. s.state ≡ idle;
    accepted = taken;
    ready_when_ok = λ s h. (poll_state-ready blocking laws s.out s.state h).1;
    accepted-poll_ready = poll_flush-taken;
    accepted-start_send = start_send-taken;
    accepted-poll_flush = poll_flush-taken;
    accepted-poll_close = poll_flush-taken;
  }
