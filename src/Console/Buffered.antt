-- ===== src/Console/Buffered.antt =====
-- json.rs, metrics.rs, byte_buffer.rs: the appenders of records over the buffer, over any byte sink
-- that keeps what a byte sink promises.
use witchcraft_rust_server.Common.{
  ℕ, Bool, true, false, ◌≡◌, refl, sym, ap, ◌∙◌, subst, none, List, [], ◌∷◌, ◌++◌, map, append-nil,
  append_assoc, to_list,
}
use witchcraft_rust_server.Http.{Text}
use witchcraft_rust_server.Poll.{Result, ok, Poll, ready, Sink, SinkLaws, is_err}
use witchcraft_rust_server.ByteBuffer.{
  BufBytesSink, new, Payload, Polling, answer_all, buf_bytes_sink, closing, flushing, poll,
  poll_flush, readying, start_send,
}
use witchcraft_rust_server.ByteBuffer.Answers.{IsClean, poll_flush-answers}
use witchcraft_rust_server.ByteBuffer.Callbacks.{
  callbacks, callbacks_answered, poll-callbacks, start_send-callbacks,
}
use witchcraft_rust_server.ByteBuffer.Capacity.{poll_ready-asserts}
use witchcraft_rust_server.ByteBuffer.Delivery.{
  contents, contents_of_clean, contents-start_send, poll-contents, poll_flush-accepted,
}
use witchcraft_rust_server.ByteBuffer.Truth.{all_true, all_true-answers, poll-Keeps}
use witchcraft_rust_server.Appenders.{
  JsonAppender, MetricsAppender, json_sink, json_start_send, metrics_sink, metrics_start_send,
  record_sink,
}

-- The bytes of the lines of records, and their callbacks
abbrev pub lines : {T : Type 0} → (T → Text × Bool) → List (Payload T) → Text
lines to_writer [] = []
lines to_writer (p ∷ ps) = ((to_writer p.value).0 ++ (10 ∷ [])) ++ lines to_writer ps

abbrev pub cbs : {T : Type 0} → List (Payload T) → List ℕ
cbs [] = []
cbs (p ∷ ps) = to_list p.cb ++ cbs ps

abbrev pub reported : {R T : Type 0} → (R → T → R) → R → List (Payload T) → R
reported report r [] = r
reported report r (p ∷ ps) = reported report (report r p.value) ps

module _ {T : Type 0} where
  lines-snoc :
      (to_writer : T → Text × Bool) (ps : List (Payload T)) (p : Payload T)
      → lines to_writer (ps ++ (p ∷ []))
        ≡ lines to_writer ps ++ ((to_writer p.value).0 ++ (10 ∷ []))
  lines-snoc to_writer [] p = append-nil ((to_writer p.value).0 ++ (10 ∷ []))
  lines-snoc to_writer (q ∷ ps) p =
      ap (λ x. ((to_writer q.value).0 ++ (10 ∷ [])) ++ x) (lines-snoc to_writer ps p)
      ∙ sym (
          append_assoc ((to_writer q.value).0 ++ (10 ∷ [])) (lines to_writer ps)
            ((to_writer p.value).0 ++ (10 ∷ [])))

  cbs-snoc : (ps : List (Payload T)) (p : Payload T) → cbs (ps ++ (p ∷ [])) ≡ cbs ps ++ to_list p.cb
  cbs-snoc [] p = append-nil (to_list p.cb)
  cbs-snoc (q ∷ ps) p =
      ap (λ x. to_list q.cb ++ x) (cbs-snoc ps p)
      ∙ sym (append_assoc (to_list q.cb) (cbs ps) (to_list p.cb))

reported-snoc :
    {R T : Type 0} (report : R → T → R) (r : R) (ps : List (Payload T)) (p : Payload T)
    → reported report r (ps ++ (p ∷ [])) ≡ report (reported report r ps) p.value
reported-snoc report r [] p = refl
reported-snoc report r (q ∷ ps) p = reported-snoc report (report r q.value) ps p

module _ {S T E R : Type 0} (to_writer : T → Text × Bool) (invalid_input : E) (report : R → T → R)
    (sink : Sink S Text E) where
  abbrev pub Records : Type 0
  Records = MetricsAppender (JsonAppender (BufBytesSink S ℕ)) R

  abbrev pub records : Sink Records (Payload T) E
  records = record_sink to_writer invalid_input report (buf_bytes_sink sink)

  abbrev pub polled : Polling → Records → Records × Poll (Result E)
  polled readying s = records.poll_ready s
  polled flushing s = records.poll_flush s
  polled closing s = records.poll_close s

  -- Any history of polls that do not fail and of records that serialise, each sent after a
  -- `poll_ready` that is ready, with the records
  pub data Runs (start : Records) : Records → List (Payload T) → Type 0 where
    starts : Runs start start []
    polls :
        {s : Records} {ps : List (Payload T)} (op : Polling)
        → Runs start s ps
        → is_err (polled op s).1 ≡ false
        → Runs start (polled op s).0 ps
    sends :
        {s : Records} {ps : List (Payload T)} (p : Payload T)
        → Runs start s ps
        → (records.poll_ready s).1 ≡ ready ok
        → (to_writer p.value).1 ≡ true
        → Runs start (records.start_send (records.poll_ready s).0 p).0 (ps ++ (p ∷ []))

  module _ (laws : SinkLaws sink) where
    abbrev bytes : Records → Text
    bytes s = contents sink laws s.inner.inner

    pub record Inv (start s : Records) (ps : List (Payload T)) : Type 0 where
      pub all_bytes : bytes s ≡ bytes start ++ lines to_writer ps
      pub all_callbacks : callbacks s.inner.inner ≡ callbacks start.inner.inner ++ cbs ps
      pub only_true : all_true s.inner.inner.answered ≡ all_true start.inner.inner.answered
      pub no_rest : s.inner.buf ≡ []
      pub all_reported : s.reporter ≡ reported report start.reporter ps

    -- A poll of the records' sink is one of the buffer.
    pub polled-poll :
        (op : Polling) (s : Records)
        → ((polled op s).1 ≡ (poll sink op s.inner.inner).1)
          × ((polled op s).0
              ≡ record s { inner = record s.inner { inner = (poll sink op s.inner.inner).0 } })
    unfolding record_sink json_sink metrics_sink buf_bytes_sink poll
    polled-poll readying s = (refl, refl)
    polled-poll flushing s = (refl, refl)
    polled-poll closing s = (refl, refl)

    polled-Inv :
        {start s : Records} {ps : List (Payload T)} (op : Polling)
        → Inv start s ps
        → is_err (polled op s).1 ≡ false
        → Inv start (polled op s).0 ps
    polled-Inv {start} {s} {ps} op i h =
        let (answer, state) = polled-poll op s in
        let fine : is_err (poll sink op s.inner.inner).1 ≡ false = rw answer at h in
        subst (λ x. Inv start x ps) (sym state)
          (record {
            all_bytes = poll-contents sink laws op s.inner.inner fine ∙ i.all_bytes;
            all_callbacks = poll-callbacks sink op s.inner.inner ∙ i.all_callbacks;
            only_true = poll-Keeps sink op s.inner.inner fine ∙ i.only_true;
            no_rest = i.no_rest;
            all_reported = i.all_reported;
          })

    -- A record that serialises becomes the pending write of a buffer that has none.
    sent-start_send :
        (s : Records) (p : Payload T)
        → (to_writer p.value).1 ≡ true
        → s.inner.buf ≡ []
        → (records.start_send s p).0 ≡ record {
          inner = record {
            inner =
                (start_send sink s.inner.inner
                  (record { value = (to_writer p.value).0 ++ (10 ∷ []); cb = p.cb })).0;
            buf = [];
          };
          reporter = report s.reporter p.value;
        }
    unfolding record_sink json_sink metrics_sink metrics_start_send json_start_send buf_bytes_sink
        start_send
    sent-start_send s p w b = rw (w, b) refl

    sent-Inv :
        {start s : Records} {ps : List (Payload T)} (p : Payload T)
        → Inv start s ps
        → s.inner.inner.pending_write ≡ none
        → (to_writer p.value).1 ≡ true
        → Inv start (records.start_send s p).0 (ps ++ (p ∷ []))
    unfolding start_send
    sent-Inv {start} {s} {ps} p i n w =
        let line : Payload Text = record {
          value = (to_writer p.value).0 ++ (10 ∷ []);
          cb = p.cb;
        } in
        subst (λ x. Inv start x (ps ++ (p ∷ []))) (sym (sent-start_send s p w i.no_rest))
          (record {
            all_bytes =
                contents-start_send sink laws s.inner.inner line n
                ∙ ap (λ x. x ++ line.value) i.all_bytes
                ∙ append_assoc (bytes start) (lines to_writer ps) line.value
                ∙ ap (λ x. bytes start ++ x) (sym (lines-snoc to_writer ps p));
            all_callbacks =
                start_send-callbacks sink s.inner.inner line n
                ∙ ap (λ x. x ++ to_list p.cb) i.all_callbacks
                ∙ append_assoc (callbacks start.inner.inner) (cbs ps) (to_list p.cb)
                ∙ ap (λ x. callbacks start.inner.inner ++ x) (sym (cbs-snoc ps p));
            only_true = i.only_true;
            no_rest = refl;
            all_reported =
                ap (λ x. report x p.value) i.all_reported
                ∙ sym (reported-snoc report start.reporter ps p);
          })

    readied-no_write :
        (s : Records)
        → (records.poll_ready s).1 ≡ ready ok
        → (records.poll_ready s).0.inner.inner.pending_write ≡ none
    unfolding poll
    readied-no_write s h =
        let (answer, state) = polled-poll readying s in
        ap (λ x. x.inner.inner.pending_write) state
        ∙ (poll_ready-asserts sink 0 s.inner.inner (rw answer at h)).0

    Runs-Inv :
        {start s : Records} {ps : List (Payload T)}
        → start.inner.buf ≡ []
        → Runs start s ps
        → Inv start s ps
    Runs-Inv {start} b starts = record {
      all_bytes = sym (append-nil (bytes start));
      all_callbacks = sym (append-nil (callbacks start.inner.inner));
      only_true = refl;
      no_rest = b;
      all_reported = refl;
    }
    Runs-Inv b (polls op r h) = polled-Inv op (Runs-Inv b r) h
    Runs-Inv b (sends {s = s} p r h w) =
        sent-Inv p (polled-Inv readying (Runs-Inv b r) (rw h refl)) (readied-no_write s h) w

    -- After a history without an error from a state with no answer `false`, a flush that succeeds has
    -- handed the inner sink a line for each record, in order, has told the callback of each `true`,
    -- once and in order, and each record was reported once.
    pub flushed_all :
        {start s : Records} {ps : List (Payload T)}
        → start.inner.buf ≡ []
        → all_true start.inner.inner.answered ≡ true
        → Runs start s ps
        → (records.poll_flush s).1 ≡ ready ok
        → (laws.accepted (records.poll_flush s).0.inner.inner.inner
            ≡ bytes start ++ lines to_writer ps)
          × ((records.poll_flush s).0.inner.inner.answered
              ≡ answer_all true (callbacks start.inner.inner ++ cbs ps))
          × ((records.poll_flush s).0.reporter ≡ reported report start.reporter ps)
    unfolding poll
    flushed_all {start} {s} {ps} b t r h =
        let (answer, state) = polled-poll flushing s in
        let i : Inv start s ps = Runs-Inv b r in
        let fine : (poll_flush sink s.inner.inner).1 ≡ ready ok = rw answer at h in
        let (told, clean, unset) = poll_flush-answers sink s.inner.inner fine in
        let after : Inv start (records.poll_flush s).0 ps = polled-Inv flushing i (rw h refl) in
        let cs : callbacks (poll_flush sink s.inner.inner).0
            ≡ callbacks start.inner.inner ++ cbs ps =
          ap (λ x. callbacks x.inner.inner) (sym state) ∙ after.all_callbacks in
        (
          ap (λ x. laws.accepted x.inner.inner.inner) state
              ∙ poll_flush-accepted sink laws s.inner.inner fine
              ∙ i.all_bytes,
          all_true-answers (records.poll_flush s).0.inner.inner.answered (after.only_true ∙ t)
              ∙ ap (answer_all true) (
                  ap (λ x. map (λ a. a.0) x.inner.inner.answered) state
                  ∙ sym (
                      callbacks_answered (poll_flush sink s.inner.inner).0 clean.no_cbs
                        clean.no_write)
                  ∙ cs),
          after.all_reported,
        )

    -- So it is of a new buffer, whose inner sink is `i`.
    pub flushed_since_new :
        (i : S) (reporter : R) {s : Records} {ps : List (Payload T)}
        → Runs (record { inner = record { inner = new i; buf = [] }; reporter = reporter }) s ps
        → (records.poll_flush s).1 ≡ ready ok
        → (laws.accepted (records.poll_flush s).0.inner.inner.inner
            ≡ laws.accepted i ++ lines to_writer ps)
          × ((records.poll_flush s).0.inner.inner.answered ≡ answer_all true (cbs ps))
          × ((records.poll_flush s).0.reporter ≡ reported report reporter ps)
    unfolding new all_true
    flushed_since_new i reporter {s} {ps} r h =
        let start : Records = record {
          inner = record { inner = new i; buf = [] };
          reporter = reporter;
        } in
        let clean : IsClean start.inner.inner = record {
          no_write = refl;
          no_bytes = refl;
          no_cbs = refl;
        } in
        let (all, told, meters) = flushed_all {start = start} refl refl r h in
        (
          all
              ∙ ap (λ x. x ++ lines to_writer ps)
                  (contents_of_clean sink laws start.inner.inner clean),
          told
              ∙ ap (λ x. answer_all true (x ++ cbs ps))
                  (callbacks_answered start.inner.inner refl refl),
          meters,
        )
