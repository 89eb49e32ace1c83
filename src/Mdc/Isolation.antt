-- ===== src/Mdc/Isolation.antt =====
-- mdc.rs: requests that share threads do not see each other's MDC.
use witchcraft_rust_server.Common.{
  ℕ, ◌≡◌, refl, ap, sym, ◌∙◌, ◌++◌, Option, none, some, List, [], ◌∷◌, if◌then◌else◌, ◌==◌,
  Bool-cases, Option-cases, inl, inr, arith,
}
use witchcraft_rust_server.Mdc.{
  Inner, call, poll, drop, drop_body, poll_frame, Request, responding, streaming, closed, Event,
  arrives, polled, dropped, handle, serve, after_poll, poll_some, Server, set,
}

module _ {M : Type 0} (service : Inner M) (empty : M) where
  after_poll-restores :
      (o : Option service.F) (snapshot thread : M)
      → (after_poll service empty (poll_some service empty o snapshot thread) thread).1 ≡ thread
  unfolding drop
  after_poll-restores none snapshot thread = refl
  after_poll-restores (some f) snapshot thread = elim (Option-cases (service.poll f snapshot).2) [
    | inl e ↦ rw e refl
    | inr (b, e) ↦ rw e refl
  ]

  after_poll-independent :
      (o : Option service.F) (snapshot t u : M)
      → (after_poll service empty (poll_some service empty o snapshot t) t).0
        ≡ (after_poll service empty (poll_some service empty o snapshot u) u).0
  after_poll-independent none snapshot t u = refl
  after_poll-independent (some f) snapshot t u = elim (Option-cases (service.poll f snapshot).2) [
    | inl e ↦ rw e refl
    | inr (b, e) ↦ rw e refl
  ]

  -- The body that an event of a request drops, if it does
  abbrev pub dropped_body : Event service empty → Request service empty → List service.B
  dropped_body (arrives req) r = []
  dropped_body polled r = []
  dropped_body dropped (responding f) = []
  dropped_body dropped (streaming b) = b.inner ∷ []
  dropped_body dropped closed = []

  -- The drops of bodies, one after the other
  abbrev pub drop_all : List service.B → M → M
  drop_all [] thread = thread
  drop_all (b ∷ bodies) thread = drop_all bodies (service.drop_body b thread)

  drop_all-append :
      (first more : List service.B) (thread : M)
      → drop_all (first ++ more) thread ≡ drop_all more (drop_all first thread)
  drop_all-append [] more thread = refl
  drop_all-append (b ∷ first) more thread = drop_all-append first more (service.drop_body b thread)

  -- The thread has its own MDC again after each event of a request, but for what the drop of a body
  -- does to it.
  handle-restores :
      (e : Event service empty) (r : Request service empty) (thread : M)
      → (handle service empty e r thread).1 ≡ drop_all (dropped_body e r) thread
  unfolding handle call poll drop poll_frame drop_body
  handle-restores (arrives req) closed thread = refl
  handle-restores (arrives req) (responding f) thread = refl
  handle-restores (arrives req) (streaming b) thread = refl
  handle-restores polled (responding f) thread = after_poll-restores f.inner f.snapshot thread
  handle-restores polled (streaming b) thread = refl
  handle-restores polled closed thread = refl
  handle-restores dropped (responding f) thread = refl
  handle-restores dropped (streaming b) thread = refl
  handle-restores dropped closed thread = refl

  -- What becomes of a request does not depend on the MDC of the thread.
  handle-independent :
      (e : Event service empty) (r : Request service empty) (t u : M)
      → (handle service empty e r t).0 ≡ (handle service empty e r u).0
  unfolding handle call poll drop poll_frame drop_body
  handle-independent (arrives req) closed t u = refl
  handle-independent (arrives req) (responding f) t u = refl
  handle-independent (arrives req) (streaming b) t u = refl
  handle-independent polled (responding f) t u = after_poll-independent f.inner f.snapshot t u
  handle-independent polled (streaming b) t u = refl
  handle-independent polled closed t u = refl
  handle-independent dropped (responding f) t u = refl
  handle-independent dropped (streaming b) t u = refl
  handle-independent dropped closed t u = refl

  -- The events of one request, with no other request about, on a thread that has an empty MDC
  unfoldable pub alone :
      ℕ → List (ℕ × ℕ × Event service empty) → Request service empty → Request service empty
  alone i [] r = r
  alone i ((j, t, e) ∷ rest) r =
      alone i rest (if j == i then (handle service empty e r empty).0 else r)

  serve-requests :
      (events : List (ℕ × ℕ × Event service empty)) (s : Server service empty) (i : ℕ)
      → (serve service empty events s).requests i ≡ alone i events (s.requests i)
  unfolding serve alone
  serve-requests [] s i = refl
  serve-requests ((j, t, e) ∷ rest) s i =
      let (r, thread) = handle service empty e (s.requests j) (s.threads t) in
      let s' : Server service empty = record {
        requests = set service empty j r s.requests;
        threads = set service empty t thread s.threads;
      } in
      let next = serve-requests rest s' i in
      elim (Bool-cases (j == i)) [
        | inl h ↦
            let same : j ≡ i = ground arith in
            next
            ∙ ap (alone i rest) (
                rw h (
                  handle-independent e (s.requests j) (s.threads t) empty
                  ∙ ap (λ k. (handle service empty e (s.requests k) empty).0) same))
        | inr h ↦ next ∙ ap (alone i rest) (rw h refl)
      ]

  -- The bodies that events drop on one thread, in their order, by the requests alone
  unfoldable pub dropped_on :
      ℕ → List (ℕ × ℕ × Event service empty) → (ℕ → Request service empty) → List service.B
  dropped_on t [] requests = []
  dropped_on t ((j, u, e) ∷ rest) requests =
      let more =
        dropped_on t rest
          (set service empty j (handle service empty e (requests j) empty).0 requests) in
      if u == t then dropped_body e (requests j) ++ more else more

  serve-threads :
      (events : List (ℕ × ℕ × Event service empty)) (s : Server service empty) (t : ℕ)
      → (serve service empty events s).threads t
        ≡ drop_all (dropped_on t events s.requests) (s.threads t)
  unfolding serve dropped_on
  serve-threads [] s t = refl
  serve-threads ((j, u, e) ∷ rest) s t =
      let (r, thread) = handle service empty e (s.requests j) (s.threads u) in
      let s' : Server service empty = record {
        requests = set service empty j r s.requests;
        threads = set service empty u thread s.threads;
      } in
      let as_if : r ≡ (handle service empty e (s.requests j) empty).0 =
        handle-independent e (s.requests j) (s.threads u) empty in
      let now = dropped_body e (s.requests j) in
      let kept : thread ≡ drop_all now (s.threads u) =
        handle-restores e (s.requests j) (s.threads u) in
      let more =
        dropped_on t rest
          (set service empty j (handle service empty e (s.requests j) empty).0 s.requests) in
      let next : (serve service empty rest s').threads t ≡ drop_all more (s'.threads t) =
        serve-threads rest s' t
        ∙ ap (λ q. drop_all (dropped_on t rest (set service empty j q s.requests)) (s'.threads t))
            as_if in
      next ∙ elim (Bool-cases (u == t)) [
        | inl h ↦
            let same : u ≡ t = ground arith in
            rw h (
              ap (drop_all more) (kept ∙ ap (λ k. drop_all now (s.threads k)) same)
              ∙ sym (drop_all-append now more (s.threads t)))
        | inr h ↦ rw h refl
      ]

  -- However the events of requests are interleaved on the threads of the server, and whatever MDC the
  -- threads have, each request ends as if it were alone; and each thread has its MDC again, but for
  -- what the destructors of the bodies that are dropped on it do, in their order: these run with the
  -- thread's own MDC.
  pub serve-isolates :
      (events : List (ℕ × ℕ × Event service empty)) (s : Server service empty) (i t : ℕ)
      → ((serve service empty events s).requests i ≡ alone i events (s.requests i))
        × ((serve service empty events s).threads t
            ≡ drop_all (dropped_on t events s.requests) (s.threads t))
  serve-isolates events s i t = (serve-requests events s i, serve-threads events s t)
