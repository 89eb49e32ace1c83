-- ===== src/Appenders.antt =====
-- witchcraft-server/src/logging/logger/json.rs and metrics.rs: the appenders that turn a record into a
-- line and that count it, as logger/mod.rs puts one on the other. The serialiser, the reporter and
-- the inner sink are parameters.
pub mod Lines
mod Tests
use witchcraft_rust_server.Common.{
  ℕ, Bool, true, false, ◌≡◌, Option, none, some, List, [], ◌∷◌, ◌++◌, if◌then◌else◌,
}
use witchcraft_rust_server.Http.{Text}
use witchcraft_rust_server.Poll.{Result, ok, err, Poll, Sink}
use witchcraft_rust_server.ByteBuffer.{Payload}

pub record JsonAppender (S : Type 0) : Type 0 where
  pub inner : S
  pub buf : Text

pub record MetricsAppender (S R : Type 0) : Type 0 where
  pub inner : S
  pub reporter : R

-- An operation of the inner sink, and what it leaves
abbrev pub on_inner : {S T A : Type 0} → (S → T) → S × A → T × A
on_inner wrap (s, a) = (wrap s, a)

module _ {S T E : Type 0} (to_writer : T → Text × Bool) (invalid_input : E)
    (sink : Sink S (Payload Text) E) where
  -- The bytes of a record go to the shared buffer, also those of one that fails in its middle.
  abbrev pub start_written : JsonAppender S → Option ℕ → Text × Bool → JsonAppender S × Result E
  start_written s cb (bytes, false) = (record s { buf = s.buf ++ bytes }, err invalid_input)
  start_written s cb (bytes, true) =
      on_inner (λ i. record { inner = i; buf = [] })
        (sink.start_send s.inner (record { value = (s.buf ++ bytes) ++ (10 ∷ []); cb = cb }))

  unfoldable pub json_start_send : JsonAppender S → Payload T → JsonAppender S × Result E
  json_start_send s value = start_written s value.cb (to_writer value.value)

  unfoldable pub json_sink : Sink (JsonAppender S) (Payload T) E
  unfolding json_start_send
  json_sink = record {
    poll_ready = λ s. on_inner (λ i. record s { inner = i }) (sink.poll_ready s.inner);
    start_send = json_start_send;
    poll_flush = λ s. on_inner (λ i. record s { inner = i }) (sink.poll_flush s.inner);
    poll_close = λ s. on_inner (λ i. record s { inner = i }) (sink.poll_close s.inner);
  }

module _ {S T E R : Type 0} (report : R → T → R) (sink : Sink S (Payload T) E) where
  unfoldable pub metrics_start_send :
      MetricsAppender S R → Payload T → MetricsAppender S R × Result E
  metrics_start_send s item =
      on_inner (λ i. record { inner = i; reporter = report s.reporter item.value })
        (sink.start_send s.inner item)

  unfoldable pub metrics_sink : Sink (MetricsAppender S R) (Payload T) E
  unfolding metrics_start_send
  metrics_sink = record {
    poll_ready = λ s. on_inner (λ i. record s { inner = i }) (sink.poll_ready s.inner);
    start_send = metrics_start_send;
    poll_flush = λ s. on_inner (λ i. record s { inner = i }) (sink.poll_flush s.inner);
    poll_close = λ s. on_inner (λ i. record s { inner = i }) (sink.poll_close s.inner);
  }

-- The two appenders, as `appender` puts them on an inner one
unfoldable pub record_sink :
    {S T E R : Type 0}
    → (T → Text × Bool)
    → E
    → (R → T → R)
    → Sink S (Payload Text) E
    → Sink (MetricsAppender (JsonAppender S) R) (Payload T) E
unfolding json_sink metrics_sink
record_sink to_writer invalid_input report sink =
    metrics_sink report (json_sink to_writer invalid_input sink)
