-- ===== src/Mdc.antt =====
-- witchcraft-server/src/service/mdc.rs: each request has its own diagnostic context (MDC). The MDC of
-- a thread is a value, which `mdc::swap` exchanges with a snapshot; the inner service, which may read
-- and write the MDC of its thread in each poll, is a parameter.
pub mod Isolation
mod Tests
use witchcraft_rust_server.Common.{
  ℕ, ◌≡◌, Bool, true, false, Option, none, some, List, [], ◌∷◌, if◌then◌else◌, ◌==◌,
}
use witchcraft_rust_server.Http.{Polled}

pub record Inner (M : Type 0) : Type 1 where
  pub Req : Type 0
  pub F : Type 0
  pub B : Type 0
  pub call : Req → M → F × M
  pub poll : F → M → F × M × Option B
  pub drop : F → M → M
  pub poll_frame : B → M → B × M × Polled
  pub drop_body : B → M → M

-- `mdc::swap`: the MDC of the thread, and the snapshot
abbrev pub swap : {M : Type 0} → M × M → M × M
swap (thread, snapshot) = (snapshot, thread)

-- What runs between `with` and the drop of its guard: the thread and the snapshot, and the result
abbrev pub guarded : {M A : Type 0} → (M → A × M) → M × M → A × M × M
guarded run mdcs =
    let (thread, snapshot) = swap mdcs in
    let (a, thread') = run thread in
    let (thread_end, snapshot_end) = swap (thread', snapshot) in (a, thread_end, snapshot_end)

module _ {M : Type 0} (service : Inner M) (empty : M) where
  pub record MdcFuture : Type 0 where
    pub inner : Option service.F
    pub snapshot : M

  pub record MdcBody : Type 0 where
    pub inner : service.B
    pub snapshot : M

  -- The part of `call` before the future is polled: the future and the MDC of the thread
  unfoldable pub call : service.Req → M → MdcFuture × M
  call req thread =
      let (f, thread', snapshot) = guarded (service.call req) (thread, empty) in
      (record { inner = some f; snapshot = snapshot }, thread')

  -- `r.map(|inner| MdcBody { inner, snapshot: mdc::snapshot() })`, before the guard is dropped
  abbrev pub answer_of : Option service.B → M → Option MdcBody
  answer_of none thread = none
  answer_of (some b) thread = some (record { inner = b; snapshot = thread })

  abbrev poll_inner : service.F → M → (service.F × Option MdcBody) × M
  poll_inner f thread =
      let (f', thread', answer) = service.poll f thread in ((f', answer_of answer thread'), thread')

  abbrev pub poll_some : Option service.F → M → M → Option (MdcFuture × M × Option MdcBody)
  poll_some none snapshot thread = none
  poll_some (some f) snapshot thread =
      let ((f', answer), thread', snapshot') = guarded (poll_inner f) (thread, snapshot) in
      some (record { inner = some f'; snapshot = snapshot' }, thread', answer)

  -- `MdcFuture::poll`, where none is the panic of `unwrap`
  unfoldable pub poll : MdcFuture → M → Option (MdcFuture × M × Option MdcBody)
  poll f thread = poll_some f.inner f.snapshot thread

  abbrev drop_inner : Option service.F → M → Unit {0} × M
  drop_inner none thread = (record {}, thread)
  drop_inner (some f) thread = (record {}, service.drop f thread)

  -- `PinnedDrop::drop`, with the MDC of the thread
  unfoldable pub drop : MdcFuture → M → M
  drop f thread =
      let (u, thread', snapshot) = guarded (drop_inner f.inner) (thread, f.snapshot) in thread'

  abbrev poll_frame_inner : service.B → M → (service.B × Polled) × M
  poll_frame_inner b thread =
      let (b', thread', polled) = service.poll_frame b thread in ((b', polled), thread')

  -- `MdcBody::poll_frame`
  unfoldable pub poll_frame : MdcBody → M → MdcBody × M × Polled
  poll_frame b thread =
      let ((b', polled), thread', snapshot) =
        guarded (poll_frame_inner b.inner) (thread, b.snapshot) in
      (record { inner = b'; snapshot = snapshot }, thread', polled)

  -- The drop of an `MdcBody`: it has no guard, so the inner body is dropped with the thread's own MDC.
  unfoldable pub drop_body : MdcBody → M → M
  drop_body b thread = service.drop_body b.inner thread

  -- A request of the server: it is polled for its response, then its body for frames.
  pub data Request : Type 0 where
    responding : MdcFuture → Request
    streaming : MdcBody → Request
    closed : Request

  pub data Event : Type 0 where
    arrives : service.Req → Event
    polled : Event
    dropped : Event

  abbrev pub after_poll : Option (MdcFuture × M × Option MdcBody) → M → Request × M
  after_poll none thread = (closed, thread)
  after_poll (some (f, thread', none)) thread = (responding f, thread')
  after_poll (some (f, thread', some b)) thread = (streaming b, drop f thread')

  -- An event of a request on a thread, where `closed` is also a request that is still to come
  unfoldable pub handle : Event → Request → M → Request × M
  unfolding call poll drop poll_frame drop_body
  handle (arrives req) closed thread = let (f, thread') = call req thread in (responding f, thread')
  handle (arrives req) r thread = (r, thread)
  handle polled (responding f) thread = after_poll (poll f thread) thread
  handle polled (streaming b) thread =
      let (b', thread', p) = poll_frame b thread in (streaming b', thread')
  handle polled closed thread = (closed, thread)
  handle dropped (responding f) thread = (closed, drop f thread)
  handle dropped (streaming b) thread = (closed, drop_body b thread)
  handle dropped closed thread = (closed, thread)

  -- The requests and the threads of the server, by their numbers
  pub record Server : Type 0 where
    pub requests : ℕ → Request
    pub threads : ℕ → M

  abbrev pub set {ℓ} : {A : Type ℓ} → ℕ → A → (ℕ → A) → ℕ → A
  set i a f j = if i == j then a else f j

  -- Each event is of a request, on a thread.
  unfoldable pub serve : List (ℕ × ℕ × Event) → Server → Server
  unfolding handle
  serve [] s = s
  serve ((i, t, e) ∷ rest) s =
      let (r, thread) = handle e (s.requests i) (s.threads t) in
      serve rest (record { requests = set i r s.requests; threads = set t thread s.threads })
