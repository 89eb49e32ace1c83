-- ===== src/ThreadPool.antt =====
-- witchcraft-server/src/blocking/pool/mod.rs: `ThreadPool`, whose threads take jobs from the queue and
-- leave after they have been idle for a while. The pool's counters are under the state lock, the jobs
-- under the queue's; a step here is what a thread does under one lock, and threads step in any order.
-- Of `JobQueue` there are the jobs and which threads wait; a `push` notifies one of these, or a thread
-- whose wait has timed out and that has not taken the lock since: it is still listed, and then the
-- notification wakes nobody.
pub mod Counting
pub mod Stranded
mod Tests
use witchcraft_rust_server.Common.{
  ℕ, suc, ◌+◌, ◌-◌, ◌≡◌, ◌≢◌, Bool, true, false, Option, none, some, List, [], ◌∷◌, ◌++◌,
  if◌then◌else◌, ltb, leb, length,
}

-- A thread of the pool: before `try_pop`; with a job; before the lock with which `get_job` counts it
-- as idle; before `pop_until` takes the queue's lock; waiting; notified; past its timeout; with the
-- answer of `pop_until`, before it takes the state lock; gone.
pub data Worker (J : Type 0) : Type 0 where
  fetching entering popping parked notified expired exited : Worker J
  running : J → Worker J
  leaving : Option J → Worker J

-- The thread that is in `try_execute` holds the state lock from the admission on.
pub data Submitter (J : Type 0) : Type 0 where
  nobody pushed : Submitter J
  admitted : J → Submitter J

pub record Pool (J : Type 0) : Type 0 where
  pub min_threads : ℕ
  pub max_threads : ℕ
  pub threads : ℕ
  pub idle_threads : ℕ
  pub next_id : ℕ
  pub jobs : List J
  pub workers : List (Worker J)
  pub submitter : Submitter J

module _ {J : Type 0} where
  -- `State::active`, on `usize`
  abbrev pub active : Pool J → ℕ
  active p = p.threads - p.idle_threads

  -- `add_thread`, where `spawned` says whether the system gave a thread
  pub add_thread : Bool → Pool J → Pool J
  add_thread spawned p =
      if leb p.max_threads p.threads
      then p
      else (if spawned
          then record p {
            next_id = p.next_id + 1;
            threads = p.threads + 1;
            workers = fetching ∷ p.workers;
          }
          else record p { next_id = p.next_id + 1 })

  -- `ThreadPool::new`: `min_threads` threads are added; the list says which spawns succeed.
  add_all : List Bool → Pool J → Pool J
  add_all [] p = p
  add_all (spawned ∷ rest) p = add_all rest (add_thread spawned p)

  pub new : ℕ → ℕ → List Bool → Pool J
  unfolding add_all
  new min max spawns = add_all spawns (record {
    min_threads = min;
    max_threads = max;
    threads = 0;
    idle_threads = 0;
    next_id = 0;
    jobs = [];
    workers = [];
    submitter = nobody;
  })

  -- The first half of `try_execute`: `false` is `Err(f)`.
  pub admit : J → Pool J → Pool J × Bool
  admit job p =
      if leb p.max_threads (length p.jobs + active p)
      then (p, false)
      else (record p { submitter = admitted job }, true)

  -- The last part of `try_execute`
  pub grow : Bool → Pool J → Pool J
  unfolding add_thread
  grow spawned p =
      let q : Pool J = record p { submitter = nobody } in
      if ltb p.idle_threads (length p.jobs) then add_thread spawned q else q

  -- `match r` in `get_job`: what the thread does next, and the counters.
  pub leave : Option J → Pool J → Worker J × Pool J
  leave (some job) p = (running job, record p { idle_threads = p.idle_threads - 1 })
  leave none p =
      if ltb p.min_threads p.threads
      then (exited, record p { idle_threads = p.idle_threads - 1; threads = p.threads - 1 })
      else (popping, p)

  -- One thread of the pool is replaced.
  abbrev pub with_worker : List (Worker J) → Worker J → List (Worker J) → Pool J → Pool J
  with_worker before w after p = record p { workers = before ++ (w ∷ after) }

  abbrev pub At : Pool J → List (Worker J) → Worker J → List (Worker J) → Type 0
  At p before w after = p.workers ≡ before ++ (w ∷ after)

  -- A step of the pool. Where a step needs the state lock, `submitter` is `nobody`.
  pub data Step (p : Pool J) : Pool J → Type 0 where
    fetches :
        {rest : List J} (before after : List (Worker J)) (job : J)
        → At p before fetching after
        → p.jobs ≡ job ∷ rest
        → Step p (with_worker before (running job) after (record p { jobs = rest }))
    finds_none :
        (before after : List (Worker J))
        → At p before fetching after
        → p.jobs ≡ []
        → Step p (with_worker before entering after p)
    enters :
        (before after : List (Worker J))
        → At p before entering after
        → p.submitter ≡ nobody
        → Step p (with_worker before popping after (record p { idle_threads = p.idle_threads + 1 }))
    pops :
        {rest : List J} (before after : List (Worker J)) (job : J)
        → At p before popping after
        → p.jobs ≡ job ∷ rest
        → Step p (with_worker before (leaving (some job)) after (record p { jobs = rest }))
    parks :
        (before after : List (Worker J))
        → At p before popping after
        → p.jobs ≡ []
        → Step p (with_worker before parked after p)
    wakes :
        (before after : List (Worker J))
        → At p before notified after
        → Step p (with_worker before popping after p)
    times_out :
        (before after : List (Worker J))
        → At p before parked after
        → Step p (with_worker before expired after p)
    gives_up :
        (before after : List (Worker J))
        → At p before expired after
        → Step p (with_worker before (leaving none) after p)
    leaves :
        (before after : List (Worker J)) (r : Option J)
        → At p before (leaving r) after
        → p.submitter ≡ nobody
        → Step p (with_worker before (leave r p).0 after (leave r p).1)
    finishes :
        (before after : List (Worker J)) (job : J)
        → At p before (running job) after
        → Step p (with_worker before fetching after p)
    admits : (job : J) → p.submitter ≡ nobody → Step p (admit job p).0
    notifies :
        (before after : List (Worker J)) (job : J)
        → At p before parked after
        → p.submitter ≡ admitted job
        → Step p (
            with_worker before notified after
              (record p { jobs = p.jobs ++ (job ∷ []); submitter = pushed }))
    notifies_expired :
        (before after : List (Worker J)) (job : J)
        → At p before expired after
        → p.submitter ≡ admitted job
        → Step p (record p { jobs = p.jobs ++ (job ∷ []); submitter = pushed })
    notifies_nobody :
        (job : J)
        → ((before after : List (Worker J)) → p.workers ≢ before ++ (parked ∷ after))
        → p.submitter ≡ admitted job
        → Step p (record p { jobs = p.jobs ++ (job ∷ []); submitter = pushed })
    grows : (spawned : Bool) → p.submitter ≡ pushed → Step p (grow spawned p)

  pub data Reach (p : Pool J) : Pool J → Type 0 where
    here : Reach p p
    next : {q r : Pool J} → Reach p q → Step q r → Reach p r
