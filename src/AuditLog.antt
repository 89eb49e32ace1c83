-- ===== src/AuditLog.antt =====
-- witchcraft-server/src/service/audit_log.rs: AuditLogService::call. The sink behind the lock and the
-- other end of the callback are parameters; the future of `call` waits until both have answered.
pub mod Persisted
mod Tests
use witchcraft_rust_server.Common.{ℕ, Bool, true, false, ◌≡◌, Option, none, some}
use witchcraft_rust_server.Poll.{Result, ok, err}

pub record Response (B Entry : Type 0) : Type 0 where
  pub status : ℕ
  pub body : B
  pub audit_log_entry : Option Entry

pub record Answered (B : Type 0) : Type 0 where
  pub status : ℕ
  pub inner : Option B

-- `feed` of the sink, and what `rx` receives then, where none is a callback that was dropped
pub record Logger (Entry E : Type 0) : Type 1 where
  pub L : Type 0
  pub feed : L → Entry → L × Result E
  pub receive : L → L × Option Bool

module _ {Entry E : Type 0} (logger : Logger Entry E) where
  -- Whether `send` succeeds
  abbrev pub received : logger.L × Option Bool → logger.L × Bool
  received (l, none) = (l, false)
  received (l, some b) = (l, b)

  abbrev pub fed : logger.L × Result E → logger.L × Bool
  fed (l, err e) = (l, false)
  fed (l, ok) = received (logger.receive l)

  unfoldable pub send : logger.L → Entry → logger.L × Bool
  send l entry = fed (logger.feed l entry)

module _ {B Entry E : Type 0} (logger : Logger Entry E) where
  abbrev pub respond : Response B Entry → logger.L × Bool → logger.L × Answered B
  respond r (l, true) = (l, record { status = r.status; inner = some r.body })
  respond r (l, false) = (l, record { status = 500; inner = none })

  abbrev pub call_with : Response B Entry → logger.L → Option Entry → logger.L × Answered B
  call_with r l none = (l, record { status = r.status; inner = some r.body })
  call_with r l (some entry) = respond r (send logger l entry)

  -- `call`, after the inner service has given the response
  unfoldable pub call : logger.L → Response B Entry → logger.L × Answered B
  unfolding send
  call l r = call_with r l r.audit_log_entry
