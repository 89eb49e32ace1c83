-- ===== src/AuditLog/Tests.antt =====
-- Runs of the audit log layer, with a sink that tells each callback what its state says.
use witchcraft_rust_server.Common.{ℕ, ◌≡◌, refl, Bool, true, Option, none, some}
use witchcraft_rust_server.Poll.{ok}
use witchcraft_rust_server.Http.{ended, Body}
use witchcraft_rust_server.AuditLog.{Response, Logger, send, call}
use witchcraft_rust_server.AuditLog.Persisted.{Guarantee, call-Guarantee}

abbrev told : Logger ℕ ℕ
told = record { L = Option Bool; feed = λ l e. (l, ok); receive = λ l. (l, l) }

abbrev empty_body : Body
empty_body = record { B = ℕ; poll_frame = λ b. (b, ended); is_end_stream = λ b. true }

abbrev response : Response ℕ ℕ
response = record { status = 200; body = 7; audit_log_entry = some 1 }

lost_callback : (call told none response).1 ≡ record { status = 500; inner = none }
unfolding call send
lost_callback = refl

call-Guarantee_example :
    Guarantee empty_body told
      (some true)
      response
      (call told (some true) response).1.status
      (call told (some true) response).1.inner
call-Guarantee_example = call-Guarantee empty_body told (some true) response
