-- ===== src/ThreadPool/Stranded.antt =====
-- witchcraft-server/src/blocking/pool/mod.rs, job_queue.rs: a job whose notification meets a thread
-- that has just timed out.
use witchcraft_rust_server.Common.{
  ℕ, suc, ◌+◌, ◌-◌, ◌≤◌, ◌<◌, ◌≡◌, refl, Bool, true, none, List, [], ◌∷◌, ◌++◌, length, arith,
}
use witchcraft_rust_server.ThreadPool.{
  Worker, expired, exited, leaving, nobody, pushed, admitted, Pool, active, admit, grow, leave,
  with_worker, Step, gives_up, leaves, admits, notifies_expired, grows, Reach, here, next,
}

module _ {J : Type 0} where
  admit_lem :
      (job : J) (p : Pool J)
      → length p.jobs + active p < p.max_threads
      → (admit job p).0 ≡ record p { submitter = admitted job }
  unfolding admit
  admit_lem job p h = ground arith

  grow_lem :
      (spawned : Bool) (p : Pool J)
      → length p.jobs ≤ p.idle_threads
      → grow spawned p ≡ record p { submitter = nobody }
  unfolding grow
  grow_lem spawned p h = ground arith

  leave_lem :
      (p : Pool J)
      → p.min_threads < p.threads
      → leave none p
        ≡ (exited, record p { idle_threads = p.idle_threads - 1; threads = p.threads - 1 })
  unfolding leave
  leave_lem p h = ground arith

  Step-eq : {p q r : Pool J} → Step p q → q ≡ r → Step p r
  Step-eq {p} s e = rw e at s

  -- A wake-up can be lost: where the only idle thread has timed out and not yet taken the lock, an
  -- accepted job notifies it in vain and, as it still counts as idle, starts no new thread; the thread
  -- then leaves without another look at the queue. The job is left queued, with one thread fewer than
  -- before, and no thread has been woken for it.
  pub job_stranded :
      (min max t id : ℕ) (before after : List (Worker J)) (job : J)
      → suc t ≤ max
      → min < suc t
      → Reach
          (record {
            min_threads = min;
            max_threads = max;
            threads = suc t;
            idle_threads = 1;
            next_id = id;
            jobs = [];
            workers = before ++ (expired ∷ after);
            submitter = nobody;
          })
          (record {
            min_threads = min;
            max_threads = max;
            threads = t;
            idle_threads = 0;
            next_id = id;
            jobs = job ∷ [];
            workers = before ++ (exited ∷ after);
            submitter = nobody;
          })
  job_stranded min max t id before after job fits over =
      let start : Pool J = record {
        min_threads = min;
        max_threads = max;
        threads = suc t;
        idle_threads = 1;
        next_id = id;
        jobs = [];
        workers = before ++ (expired ∷ after);
        submitter = nobody;
      } in
      let taken : Pool J = record start { submitter = admitted job } in
      let queued : Pool J = record start { jobs = job ∷ []; submitter = pushed } in
      let waiting : Pool J = record start { jobs = job ∷ [] } in
      let late : Pool J = record waiting { workers = before ++ (leaving none ∷ after) } in
      let s1 : Step start taken = Step-eq (admits job refl) (admit_lem job start (omega arith)) in
      let s2 : Step taken queued = notifies_expired before after job refl refl in
      let s3 : Step queued waiting =
        Step-eq (grows true refl) (grow_lem true queued (omega arith)) in
      let s4 : Step waiting late = gives_up before after refl in
      let s5 : Step late (with_worker before (leave none late).0 after (leave none late).1) =
        leaves before after none refl refl in
      next (next (next (next (next here s1) s2) s3) s4)
        (Step-eq s5 (rw (leave_lem late over) (ground arith)))
