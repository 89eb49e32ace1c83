-- ===== src/Appenders/Lines.antt =====
-- json.rs, metrics.rs: what the inner sink gets for the records that are sent.
use witchcraft_rust_server.Common.{
  Bool, true, false, ◌≡◌, refl, sym, ap, ◌∙◌, List, [], ◌∷◌, ◌++◌, map, map-append, append-nil,
  append_assoc,
}
use witchcraft_rust_server.Http.{Text}
use witchcraft_rust_server.Poll.{Sink}
use witchcraft_rust_server.ByteBuffer.{Payload}
use witchcraft_rust_server.Appenders.{
  JsonAppender, MetricsAppender, json_start_send, json_sink, metrics_start_send, metrics_sink,
  record_sink,
}

module _ {S T E R : Type 0} (to_writer : T → Text × Bool) (invalid_input : E) (report : R → T → R)
    (sink : Sink S (Payload Text) E) where
  -- What the inner sink was sent; a poll sends it nothing.
  pub record Trace : Type 0 where
    pub sent : S → List (Payload Text)
    pub sent-start_send :
        (s : S) (p : Payload Text) → sent (sink.start_send s p).0 ≡ sent s ++ (p ∷ [])
    pub sent-poll_ready : (s : S) → sent (sink.poll_ready s).0 ≡ sent s
    pub sent-poll_flush : (s : S) → sent (sink.poll_flush s).0 ≡ sent s

  abbrev pub Both : Type 0
  Both = MetricsAppender (JsonAppender S) R

  abbrev pub both : Sink Both (Payload T) E
  both = record_sink to_writer invalid_input report sink

  -- Any history of polls and of sends whose records the serialiser takes, with these records
  pub data Sends (start : Both) : Both → List (Payload T) → Type 0 where
    starts : Sends start start []
    readies :
        {s : Both} {ps : List (Payload T)} → Sends start s ps → Sends start (both.poll_ready s).0 ps
    flushes :
        {s : Both} {ps : List (Payload T)} → Sends start s ps → Sends start (both.poll_flush s).0 ps
    sends :
        {s : Both} {ps : List (Payload T)} (p : Payload T)
        → (to_writer p.value).1 ≡ true
        → Sends start s ps
        → Sends start (both.start_send s p).0 (ps ++ (p ∷ []))

  abbrev pub line : Payload T → Payload Text
  line p = record { value = (to_writer p.value).0 ++ (10 ∷ []); cb = p.cb }

  abbrev pub reported : R → List (Payload T) → R
  reported r [] = r
  reported r (p ∷ ps) = reported (report r p.value) ps

  module _ (trace : Trace) where
    abbrev pub Delivered : Both → Both → List (Payload T) → Type 0
    Delivered start s ps =
        (trace.sent s.inner.inner ≡ trace.sent start.inner.inner ++ map line ps)
        × (s.inner.buf ≡ [])
        × (s.reporter ≡ reported start.reporter ps)

    sent-json :
        (s : JsonAppender S) (p : Payload T)
        → s.buf ≡ []
        → (to_writer p.value).1 ≡ true
        → (trace.sent (json_start_send to_writer invalid_input sink s p).0.inner
            ≡ trace.sent s.inner ++ (line p ∷ []))
          × ((json_start_send to_writer invalid_input sink s p).0.buf ≡ [])
    unfolding json_start_send
    sent-json s p b w = rw (w, b) (trace.sent-start_send s.inner (line p), refl)

    reported-snoc :
        (r : R) (ps : List (Payload T)) (p : Payload T)
        → reported r (ps ++ (p ∷ [])) ≡ report (reported r ps) p.value
    reported-snoc r [] p = refl
    reported-snoc r (q ∷ ps) p = reported-snoc (report r q.value) ps p

    -- In any history of polls and of sends of records that serialise, the inner sink is sent one line
    -- for each record, in order and with its callback, and each record is reported once.
    pub Sends-Delivered :
        {start s : Both} {ps : List (Payload T)}
        → start.inner.buf ≡ []
        → Sends start s ps
        → Delivered start s ps
    unfolding record_sink json_sink metrics_sink metrics_start_send
    Sends-Delivered {start} b starts = (sym (append-nil (trace.sent start.inner.inner)), b, refl)
    Sends-Delivered b (readies {s = s} h) =
        let (e, f, r) = Sends-Delivered b h in (trace.sent-poll_ready s.inner.inner ∙ e, f, r)
    Sends-Delivered b (flushes {s = s} h) =
        let (e, f, r) = Sends-Delivered b h in (trace.sent-poll_flush s.inner.inner ∙ e, f, r)
    Sends-Delivered {start} b (sends {s = s} {ps = ps} p w h) =
        let (e, f, r) = Sends-Delivered b h in
        let (g, k) = sent-json s.inner p f w in
        (
          g
              ∙ ap (λ x. x ++ (line p ∷ [])) e
              ∙ (append_assoc (trace.sent start.inner.inner) (map line ps) (line p ∷ [])
                  ∙ ap (λ x. trace.sent start.inner.inner ++ x)
                      (sym (map-append line ps (p ∷ [])))),
          k,
          ap (λ x. report x p.value) r ∙ sym (reported-snoc start.reporter ps p),
        )

    -- A record that the serialiser gives up in its middle leaves the bytes before, and the line of the
    -- next record begins with them.
    pub json-leaks :
        (s : JsonAppender S) (bad next : Payload T)
        → s.buf ≡ []
        → (to_writer bad.value).1 ≡ false
        → (to_writer next.value).1 ≡ true
        → trace.sent
            (json_start_send to_writer invalid_input sink
              (json_start_send to_writer invalid_input sink s bad).0
              next).0.inner
          ≡ trace.sent s.inner
            ++ (record {
              value = ((to_writer bad.value).0 ++ (to_writer next.value).0) ++ (10 ∷ []);
              cb = next.cb;
            }
                ∷ [])
    unfolding json_start_send
    json-leaks s bad next b f w = rw (f, w, b) (trace.sent-start_send s.inner _)
