-- ===== src/ThreadPool/Counting.antt =====
-- witchcraft-server/src/blocking/pool/mod.rs: the counters count, and the pool keeps to its limits.
use witchcraft_rust_server.Common.{
  ℕ, ◌+◌, ◌*◌, ◌≤◌, ◌<◌, ◌≡◌, refl, ap, ◌∙◌, Bool, true, false, Option, none, some, List, [], ◌∷◌,
  ◌++◌, length, length-append, arith,
}
use witchcraft_rust_server.ThreadPool.{
  Worker, fetching, entering, popping, parked, notified, expired, exited, running, leaving,
  Submitter, nobody, pushed, admitted, Pool, active, add_thread, add_all, new, admit, grow, leave,
  with_worker, At, Step, fetches, finds_none, enters, pops, parks, wakes, times_out, gives_up,
  leaves, finishes, admits, notifies, notifies_expired, notifies_nobody, grows, Reach, here, next,
}

module _ {J : Type 0} where
  -- The threads that `idle_threads` counts: those inside the loop of `get_job`.
  abbrev pub idle : Worker J → ℕ
  idle popping = 1
  idle parked = 1
  idle notified = 1
  idle expired = 1
  idle (leaving _) = 1
  idle _ = 0

  abbrev pub live : Worker J → ℕ
  live exited = 0
  live _ = 1

  -- The threads with a job.
  abbrev pub busy : Worker J → ℕ
  busy (running _) = 1
  busy (leaving (some _)) = 1
  busy _ = 0

  abbrev pub sum : (Worker J → ℕ) → List (Worker J) → ℕ
  sum f [] = 0
  sum f (w ∷ ws) = f w + sum f ws

  sum-at :
      (f : Worker J → ℕ) (before after : List (Worker J)) (w : Worker J)
      → sum f (before ++ (w ∷ after)) ≡ f w + (sum f before + sum f after)
  sum-at f [] after w = omega arith
  sum-at f (b ∷ before) after w = omega (arith, sum-at f before after w)

  abbrev is_admitted : Submitter J → Bool
  is_admitted (admitted _) = true
  is_admitted _ = false

  pub record Inv (p : Pool J) : Type 0 where
    pub idle_exact : p.idle_threads ≡ sum idle p.workers
    pub live_exact : p.threads ≡ sum live p.workers
    pub capped : p.threads ≤ p.max_threads
    pub queue_capped : length p.jobs ≤ p.max_threads
    pub room : is_admitted p.submitter ≡ true → length p.jobs + active p < p.max_threads

  sum-idle-le : (ws : List (Worker J)) → sum idle ws ≤ sum live ws
  sum-idle-le [] = omega arith
  sum-idle-le (w ∷ ws) = omega (arith, sum-idle-le ws, one w)
    where
      one : (w : Worker J) → idle w ≤ live w
      one w = ground arith

  sum-busy-le : (ws : List (Worker J)) → sum busy ws ≤ sum live ws
  sum-busy-le [] = omega arith
  sum-busy-le (w ∷ ws) = omega (arith, sum-busy-le ws, one w)
    where
      one : (w : Worker J) → busy w ≤ live w
      one w = ground arith

  add_thread-Inv :
      (spawned : Bool) (p : Pool J) → p.submitter ≡ nobody → Inv p → Inv (add_thread spawned p)
  unfolding add_thread
  add_thread-Inv spawned p n h = ground arith

  -- What a step that changes one thread adds to a sum.
  module _ (p : Pool J) (before after : List (Worker J)) (old : Worker J)
      (e : At p before old after) where
    was : (f : Worker J → ℕ) → sum f p.workers ≡ f old + (sum f before + sum f after)
    was f = ap (sum f) e ∙ sum-at f before after old

    same_counts :
        (w : Worker J)
        → idle w ≡ idle old
        → live w ≡ live old
        → Inv p
        → Inv (with_worker before w after p)
    same_counts w i l h = record {
      idle_exact = omega (arith, h.idle_exact, was idle, sum-at idle before after w);
      live_exact = omega (arith, h.live_exact, was live, sum-at live before after w);
      capped = h.capped;
      queue_capped = h.queue_capped;
      room = h.room;
    }

  fewer_jobs :
      (p : Pool J) (job : J) (rest : List J)
      → p.jobs ≡ job ∷ rest
      → Inv p
      → Inv (record p { jobs = rest })
  fewer_jobs p job rest e h = ground arith

  more_jobs :
      (p : Pool J) (job : J)
      → p.submitter ≡ admitted job
      → Inv p
      → Inv (record p { jobs = p.jobs ++ (job ∷ []); submitter = pushed })
  more_jobs p job e h = ground (arith, length-append p.jobs (job ∷ []))

  enters-Inv :
      (p : Pool J) (before after : List (Worker J))
      → At p before entering after
      → p.submitter ≡ nobody
      → Inv p
      → Inv (with_worker before popping after (record p { idle_threads = p.idle_threads + 1 }))
  enters-Inv p before after e n h = record {
    idle_exact =
        omega (
          arith,
          h.idle_exact,
          was p before after entering e idle,
          sum-at idle before after popping,
        );
    live_exact =
        omega (
          arith,
          h.live_exact,
          was p before after entering e live,
          sum-at live before after popping,
        );
    capped = h.capped;
    queue_capped = h.queue_capped;
    room = ground arith;
  }

  leaves-Inv :
      (p : Pool J) (before after : List (Worker J)) (r : Option J)
      → At p before (leaving r) after
      → p.submitter ≡ nobody
      → Inv p
      → Inv (with_worker before (leave r p).0 after (leave r p).1)
  unfolding leave
  leaves-Inv p before after (some job) e n h = record {
    idle_exact = omega (
      arith,
      h.idle_exact,
      was p before after (leaving (some job)) e idle,
      sum-at idle before after (running job),
    );
    live_exact = omega (
      arith,
      h.live_exact,
      was p before after (leaving (some job)) e live,
      sum-at live before after (running job),
    );
    capped = h.capped;
    queue_capped = h.queue_capped;
    room = ground arith;
  }
  leaves-Inv p before after none e n h = ground (
    arith,
    was p before after (leaving none) e idle,
    was p before after (leaving none) e live,
    sum-at idle before after exited,
    sum-at live before after exited,
    sum-at idle before after popping,
    sum-at live before after popping,
  )

  admit-Inv : (job : J) (p : Pool J) → Inv p → Inv (admit job p).0
  unfolding admit
  admit-Inv job p h = ground arith

  grow-Inv : (spawned : Bool) (p : Pool J) → Inv p → Inv (grow spawned p)
  unfolding grow
  grow-Inv spawned p h = ground arith

  step-Inv : {p q : Pool J} → Step p q → Inv p → Inv q
  step-Inv {p} (fetches {rest = rest} before after job e j) h =
      same_counts (record p { jobs = rest }) before after fetching e (running job) refl refl
        (fewer_jobs p job rest j h)
  step-Inv {p} (finds_none before after e j) h =
      same_counts p before after fetching e entering refl refl h
  step-Inv {p} (enters before after e n) h = enters-Inv p before after e n h
  step-Inv {p} (pops {rest = rest} before after job e j) h =
      same_counts (record p { jobs = rest }) before after popping e (leaving (some job)) refl refl
        (fewer_jobs p job rest j h)
  step-Inv {p} (parks before after e j) h = same_counts p before after popping e parked refl refl h
  step-Inv {p} (wakes before after e) h = same_counts p before after notified e popping refl refl h
  step-Inv {p} (times_out before after e) h =
      same_counts p before after parked e expired refl refl h
  step-Inv {p} (gives_up before after e) h =
      same_counts p before after expired e (leaving none) refl refl h
  step-Inv {p} (leaves before after r e n) h = leaves-Inv p before after r e n h
  step-Inv {p} (finishes before after job e) h =
      same_counts p before after (running job) e fetching refl refl h
  step-Inv {p} (admits job n) h = admit-Inv job p h
  step-Inv {p} (notifies before after job e a) h =
      same_counts (record p { jobs = p.jobs ++ (job ∷ []); submitter = pushed }) before after parked
        e notified refl refl (more_jobs p job a h)
  step-Inv {p} (notifies_expired before after job e a) h = more_jobs p job a h
  step-Inv {p} (notifies_nobody job e a) h = more_jobs p job a h
  step-Inv {p} (grows spawned a) h = grow-Inv spawned p h

  add_thread-submitter :
      (spawned : Bool) (p : Pool J)
      → p.submitter ≡ nobody
      → (add_thread spawned p).submitter ≡ nobody
  unfolding add_thread
  add_thread-submitter spawned p n = ground arith

  add_all-Inv :
      (spawns : List Bool) (p : Pool J) → p.submitter ≡ nobody → Inv p → Inv (add_all spawns p)
  unfolding add_all
  add_all-Inv [] p n h = h
  add_all-Inv (s ∷ rest) p n h =
      add_all-Inv rest (add_thread s p) (add_thread-submitter s p n) (add_thread-Inv s p n h)

  new-Inv : (min max : ℕ) (spawns : List Bool) → Inv (new min max spawns)
  unfolding new
  new-Inv min max spawns = add_all-Inv spawns _ refl (ground arith)

  pub Reach-Inv : {p q : Pool J} → Reach p q → Inv p → Inv q
  Reach-Inv here h = h
  Reach-Inv (next r s) h = step-Inv s (Reach-Inv r h)

  step-max : {p q : Pool J} → Step p q → q.max_threads ≡ p.max_threads
  unfolding admit grow add_thread leave
  step-max (fetches before after job e j) = refl
  step-max (finds_none before after e j) = refl
  step-max (enters before after e n) = refl
  step-max (pops before after job e j) = refl
  step-max (parks before after e j) = refl
  step-max (wakes before after e) = refl
  step-max (times_out before after e) = refl
  step-max (gives_up before after e) = refl
  step-max (leaves before after (some job) e n) = refl
  step-max (leaves before after none e n) = ground arith
  step-max (finishes before after job e) = refl
  step-max (admits job n) = ground arith
  step-max (notifies before after job e a) = refl
  step-max (notifies_expired before after job e a) = refl
  step-max (notifies_nobody job e a) = refl
  step-max (grows spawned a) = ground arith

  Reach-max : {p q : Pool J} → Reach p q → q.max_threads ≡ p.max_threads
  Reach-max here = refl
  Reach-max (next r s) = step-max s ∙ Reach-max r

  add_all-max : (spawns : List Bool) (p : Pool J) → (add_all spawns p).max_threads ≡ p.max_threads
  unfolding add_all add_thread
  add_all-max [] p = refl
  add_all-max (s ∷ rest) p = ground (arith, add_all-max rest (add_thread s p))

new-max :
    (J : Type 0) (min max : ℕ) (spawns : List Bool) → (new {J = J} min max spawns).max_threads ≡ max
unfolding new
new-max J min max spawns = add_all-max spawns _

module _ {J : Type 0} where
  -- In any interleaving of the pool's threads and of the callers: the counters are the numbers of
  -- threads that they stand for, so `threads - idle_threads` does not underflow; and at most
  -- `max_threads` threads are alive, at most as many jobs are queued, and at most twice as many are
  -- queued or held by a thread.
  pub pool_bounds :
      (min max : ℕ) (spawns : List Bool) {p : Pool J}
      → Reach (new min max spawns) p
      → (p.threads ≡ sum live p.workers)
        × (p.idle_threads ≡ sum idle p.workers)
        × (p.idle_threads ≤ p.threads)
        × (p.threads ≤ max)
        × (length p.jobs ≤ max)
        × (length p.jobs + sum busy p.workers ≤ 2 * max)
  pool_bounds min max spawns {p} r =
      let h = Reach-Inv r (new-Inv min max spawns) in
      let m = Reach-max r ∙ new-max J min max spawns in
      let le = sum-busy-le p.workers in
      (
        h.live_exact,
        h.idle_exact,
        omega (arith, h.live_exact, h.idle_exact, sum-idle-le p.workers),
        omega (arith, h.capped, m),
        omega (arith, h.queue_capped, m),
        omega (arith, h.capped, h.queue_capped, h.live_exact, m, le),
      )
