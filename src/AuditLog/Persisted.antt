-- ===== src/AuditLog/Persisted.antt =====
-- audit_log.rs: a client sees a response only after its audit log was written.
use witchcraft_rust_server.Common.{ℕ, Bool, true, false, ◌≡◌, refl, ap, Option, none, some, arith}
use witchcraft_rust_server.Poll.{Result, ok, err}
use witchcraft_rust_server.Http.{ended, Body}
use witchcraft_rust_server.BodyLayers.{poll_audited, is_end_audited}
use witchcraft_rust_server.AuditLog.{
  Response, Logger, received, fed, send, respond, call_with, call,
}

module _ {Entry E : Type 0} (body : Body) (logger : Logger Entry E) where
  -- The sink has taken the entry, and has told its callback true.
  abbrev pub IsPersisted : logger.L → Entry → Type 0
  IsPersisted l entry =
      ((logger.feed l entry).1 ≡ ok) × ((logger.receive (logger.feed l entry).0).1 ≡ some true)

  received-true : (r : logger.L × Option Bool) → (received logger r).1 ≡ true → r.1 ≡ some true
  received-true (l, none) h = absurd (ground arith)
  received-true (l, some b) h = ap some h

  fed-true :
      (r : logger.L × Result E)
      → (fed logger r).1 ≡ true
      → (r.1 ≡ ok) × ((logger.receive r.0).1 ≡ some true)
  fed-true (l, err e) h = absurd (ground arith)
  fed-true (l, ok) h = (refl, received-true (logger.receive l) h)

  abbrev pub Written : logger.L → Option Entry → Type 0
  Written l none = Unit
  Written l (some entry) = IsPersisted l entry

  abbrev pub Guarantee : logger.L → Response body.B Entry → ℕ → Option body.B → Type 0
  Guarantee l r status none =
      (status ≡ 500) × ((poll_audited body none).1 ≡ ended) × (is_end_audited body none ≡ true)
  Guarantee l r status (some b) = (status ≡ r.status) × (b ≡ r.body) × Written l r.audit_log_entry

  respond-Guarantee :
      (l : logger.L) (r : Response body.B Entry) (sent : logger.L × Bool)
      → (sent.1 ≡ true → Written l r.audit_log_entry)
      → Guarantee l r (respond logger r sent).1.status (respond logger r sent).1.inner
  unfolding poll_audited is_end_audited
  respond-Guarantee l r (m, true) h = (refl, refl, h refl)
  respond-Guarantee l r (m, false) h = (refl, refl, refl)

  call_with-Guarantee :
      (l : logger.L) (r : Response body.B Entry) (entry : Option Entry)
      → r.audit_log_entry ≡ entry
      → Guarantee l r (call_with logger r l entry).1.status (call_with logger r l entry).1.inner
  unfolding send
  call_with-Guarantee l r none e = (refl, refl, rw e (record {}))
  call_with-Guarantee l r (some entry) e =
      respond-Guarantee l r (fed logger (logger.feed l entry))
        λ h. rw e (fed-true (logger.feed l entry) h)

  -- A client gets the response of the inner service only where it has no audit log entry, or the sink
  -- has taken the entry and told its callback true; else it gets the status 500 with an empty body.
  pub call-Guarantee :
      (l : logger.L) (r : Response body.B Entry)
      → Guarantee l r (call logger l r).1.status (call logger l r).1.inner
  unfolding call
  call-Guarantee l r = call_with-Guarantee l r r.audit_log_entry refl
