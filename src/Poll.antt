-- ===== src/Poll.antt =====
-- `std::task::Poll`, `Result` and the trait `futures_sink::Sink`, which the appenders of
-- witchcraft-server/src/logging/logger implement and call. The task context `cx` only says whom to
-- wake, so the polling functions do not take it.
use witchcraft_rust_server.Common.{◌≡◌, refl, Bool, true, false, List, ◌++◌}

pub data Result (E : Type 0) : Type 0 where
  ok : Result E
  err : E → Result E

pub data Poll {ℓ} (A : Type ℓ) : Type ℓ where
  pending : Poll A
  ready : A → Poll A

-- `ready!(first)?; rest`
abbrev pub ready? :
    {S E : Type 0} → S × Poll (Result E) → (S → S × Poll (Result E)) → S × Poll (Result E)
ready? (s, pending) rest = (s, pending)
ready? (s, ready ok) rest = rest s
ready? (s, ready (err e)) rest = (s, ready (err e))

-- A property of the state that each part keeps is kept by the whole.
pub ready?-keeps {ℓ} :
    {S E : Type 0} (P : S → Type ℓ) (first : S × Poll (Result E)) (rest : S → S × Poll (Result E))
    → P first.0
    → ((s : S) → P s → P (rest s).0)
    → P (ready? first rest).0
ready?-keeps P (s, pending) rest h k = h
ready?-keeps P (s, ready ok) rest h k = k s h
ready?-keeps P (s, ready (err e)) rest h k = h

-- The whole succeeds only if each part does.
pub ready?-eq-ok :
    {S E : Type 0} (first : S × Poll (Result E)) (rest : S → S × Poll (Result E))
    → (ready? first rest).1 ≡ ready ok
    → (first.1 ≡ ready ok) × (ready? first rest ≡ rest first.0)
ready?-eq-ok (s, pending) rest h = cc
ready?-eq-ok (s, ready ok) rest h = (refl, refl)
ready?-eq-ok (s, ready (err e)) rest h = cc

-- The four operations of a sink, on its explicit state.
pub record Sink (S Item E : Type 0) : Type 0 where
  pub poll_ready : S → S × Poll (Result E)
  pub start_send : S → Item → S × Result E
  pub poll_flush : S → S × Poll (Result E)
  pub poll_close : S → S × Poll (Result E)

abbrev pub is_err : {E : Type 0} → Poll (Result E) → Bool
is_err (ready (err _)) = true
is_err (ready ok) = false
is_err pending = false

-- What a byte sink promises its client: `accepted` is all that it has taken so far. A client may
-- send only after `poll_ready` has answered `Ready(Ok(()))`; the item is then appended, and no other
-- operation that succeeds or is pending loses or reorders what was accepted.
pub record SinkLaws {S E A : Type 0} (sink : Sink S (List A) E) : Type 1 where
  pub IsReady : S → Type 0
  pub accepted : S → List A
  pub ready_when_ok : (s : S) → (sink.poll_ready s).1 ≡ ready ok → IsReady (sink.poll_ready s).0
  pub accepted-poll_ready :
      (s : S) → is_err (sink.poll_ready s).1 ≡ false → accepted (sink.poll_ready s).0 ≡ accepted s
  pub accepted-start_send :
      (s : S) (item : List A)
      → IsReady s
      → (sink.start_send s item).1 ≡ ok
      → accepted (sink.start_send s item).0 ≡ accepted s ++ item
  pub accepted-poll_flush :
      (s : S) → is_err (sink.poll_flush s).1 ≡ false → accepted (sink.poll_flush s).0 ≡ accepted s
  pub accepted-poll_close :
      (s : S) → is_err (sink.poll_close s).1 ≡ false → accepted (sink.poll_close s).0 ≡ accepted s
