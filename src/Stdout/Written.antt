-- ===== src/Stdout/Written.antt =====
-- stdout.rs: the bytes that are sent are on the standard output when a flush has succeeded.
use witchcraft_rust_server.Common.{
  ◌≡◌, refl, sym, ap, ◌∙◌, [], ◌++◌, append-nil, append_assoc, arith,
}
use witchcraft_rust_server.Http.{Text}
use witchcraft_rust_server.Poll.{ok, Poll, pending, ready}
use witchcraft_rust_server.Stdout.{
  Joined, joined, join_failed, Blocking, State, idle, busy, StdoutSink, after_poll, poll_state,
  poll_flush, start_send, stdout_sink,
}

-- `written` is what is on the output, and `rest` what a thread has still to write. A thread that has
-- ended well has written all; polling and spawning write nothing else.
pub record BlockingLaws {O H E : Type 0} (blocking : Blocking O H E) : Type 0 where
  pub written : O → Text
  pub rest : H → Text
  pub spawn-writes :
      (o : O) (t : Text)
      → written (blocking.spawn o t).0 ++ rest (blocking.spawn o t).1 ≡ written o ++ t
  pub poll-writes :
      (o : O) (h : H)
      → written (blocking.poll o h).0 ++ rest (blocking.poll o h).1 ≡ written o ++ rest h
  pub rest-ready :
      (o : O) (h : H) → (blocking.poll o h).2 ≡ ready (joined ok) → rest (blocking.poll o h).1 ≡ []

module _ {O H E : Type 0} (blocking : Blocking O H E) (laws : BlockingLaws blocking) where
  -- Any history of flushes that do not fail, and of sends to an idle sink, with the bytes sent
  pub data Sends (start : O) : StdoutSink O H → Text → Type 0 where
    opened : Sends start (record { out = start; state = idle }) []
    waits :
        {s : StdoutSink O H} {sent : Text}
        → Sends start s sent
        → ((stdout_sink blocking).poll_flush s).1 ≡ pending
        → Sends start ((stdout_sink blocking).poll_flush s).0 sent
    flushed :
        {s : StdoutSink O H} {sent : Text}
        → Sends start s sent
        → ((stdout_sink blocking).poll_flush s).1 ≡ ready ok
        → Sends start ((stdout_sink blocking).poll_flush s).0 sent
    sends :
        {s : StdoutSink O H} {sent : Text} (item : Text)
        → Sends start s sent
        → s.state ≡ idle
        → Sends start ((stdout_sink blocking).start_send s item).0 (sent ++ item)

  abbrev pub to_write : State H → Text
  to_write idle = []
  to_write (busy h) = laws.rest h

  abbrev pub Inv : O → StdoutSink O H → Text → Type 0
  Inv start s sent = laws.written s.out ++ to_write s.state ≡ laws.written start ++ sent

  after_poll-pending :
      (r : O × H × Poll (Joined E))
      → (after_poll blocking r).1 ≡ pending
      → laws.written (after_poll blocking r).0.out ++ to_write (after_poll blocking r).0.state
        ≡ laws.written r.0 ++ laws.rest r.1
  after_poll-pending (o, h, pending) e = refl
  after_poll-pending (o, h, ready (joined x)) e = absurd (ground arith)
  after_poll-pending (o, h, ready (join_failed x)) e = absurd (ground arith)

  after_poll-ready :
      (r : O × H × Poll (Joined E))
      → (r.2 ≡ ready (joined ok) → laws.rest r.1 ≡ [])
      → (after_poll blocking r).1 ≡ ready ok
      → (laws.written (after_poll blocking r).0.out ++ to_write (after_poll blocking r).0.state
          ≡ laws.written r.0 ++ laws.rest r.1)
        × ((after_poll blocking r).0.state ≡ idle)
  after_poll-ready (o, h, pending) d e = absurd (ground arith)
  after_poll-ready (o, h, ready (join_failed x)) d e = absurd (ground arith)
  after_poll-ready (o, h, ready (joined x)) d e =
      let answer : ready (joined x) ≡ ready (joined ok) = cc in (rw (d answer) refl, refl)

  pub poll_state-pending :
      (o : O) (s : State H)
      → (poll_state blocking o s).1 ≡ pending
      → laws.written (poll_state blocking o s).0.out ++ to_write (poll_state blocking o s).0.state
        ≡ laws.written o ++ to_write s
  poll_state-pending o idle e = absurd (ground arith)
  poll_state-pending o (busy h) e = after_poll-pending (blocking.poll o h) e ∙ laws.poll-writes o h

  pub poll_state-ready :
      (o : O) (s : State H)
      → (poll_state blocking o s).1 ≡ ready ok
      → (laws.written (poll_state blocking o s).0.out ++ to_write (poll_state blocking o s).0.state
          ≡ laws.written o ++ to_write s)
        × ((poll_state blocking o s).0.state ≡ idle)
  poll_state-ready o idle e = (refl, refl)
  poll_state-ready o (busy h) e =
      let (w, i) = after_poll-ready (blocking.poll o h) (laws.rest-ready o h) e in
      (w ∙ laws.poll-writes o h, i)

  Sends-Inv : {start : O} {s : StdoutSink O H} {sent : Text} → Sends start s sent → Inv start s sent
  unfolding stdout_sink poll_flush start_send
  Sends-Inv {start} opened = refl
  Sends-Inv (waits {s = s} h e) = poll_state-pending s.out s.state e ∙ Sends-Inv h
  Sends-Inv (flushed {s = s} h e) = (poll_state-ready s.out s.state e).0 ∙ Sends-Inv h
  Sends-Inv {start} (sends {s = s} {sent = sent} item h i) =
      let before : laws.written s.out ++ [] ≡ laws.written start ++ sent =
        ap (λ x. laws.written s.out ++ to_write x) (sym i) ∙ Sends-Inv h in
      laws.spawn-writes s.out item
      ∙ ap (λ x. x ++ item) (sym (append-nil (laws.written s.out)) ∙ before)
      ∙ append_assoc (laws.written start) sent item

  -- After any history without an error, a flush that succeeds leaves on the standard output all the
  -- bytes that were sent, in order, and a sink that takes the next ones.
  pub poll_flush-written :
      {start : O} {s : StdoutSink O H} {sent : Text}
      → Sends start s sent
      → ((stdout_sink blocking).poll_flush s).1 ≡ ready ok
      → (laws.written ((stdout_sink blocking).poll_flush s).0.out ≡ laws.written start ++ sent)
        × (((stdout_sink blocking).poll_flush s).0.state ≡ idle)
  unfolding stdout_sink poll_flush
  poll_flush-written {start} {s} {sent} h e =
      let (w, i) = poll_state-ready s.out s.state e in
      let all = w ∙ Sends-Inv h in
      (
        sym (append-nil (laws.written (poll_flush blocking s).0.out))
            ∙ (ap (λ x. laws.written (poll_flush blocking s).0.out ++ to_write x) (sym i) ∙ all),
        i,
      )
