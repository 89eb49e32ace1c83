-- ===== src/ThreadPool/Tests.antt =====
-- witchcraft-server/src/blocking/pool/mod.rs: the theorems for small pools.
use witchcraft_rust_server.Common.{ℕ, ◌+◌, ◌*◌, ◌≤◌, ◌≡◌, refl, true, [], ◌∷◌, length, arith}
use witchcraft_rust_server.ThreadPool.{
  parked, expired, exited, nobody, Pool, new, add_thread, finds_none, enters, parks, Reach, here,
  next,
}
use witchcraft_rust_server.ThreadPool.Counting.{idle, live, busy, sum, pool_bounds}
use witchcraft_rust_server.ThreadPool.Stranded.{job_stranded}

-- One thread, which found no job and waits.
abbrev resting : Pool ℕ
resting = record {
  min_threads = 1;
  max_threads = 2;
  threads = 1;
  idle_threads = 1;
  next_id = 1;
  jobs = [];
  workers = parked ∷ [];
  submitter = nobody;
}

resting-Reach : Reach (new 1 2 (true ∷ [])) resting
unfolding new add_thread
resting-Reach =
    next (next (next here (finds_none [] [] refl refl)) (enters [] [] refl refl))
      (parks [] [] refl refl)

pool_bounds_example :
    (resting.threads ≡ sum live resting.workers)
    × (resting.idle_threads ≡ sum idle resting.workers)
    × (resting.idle_threads ≤ resting.threads)
    × (resting.threads ≤ 2)
    × (length resting.jobs ≤ 2)
    × (length resting.jobs + sum busy resting.workers ≤ 2 * 2)
pool_bounds_example = pool_bounds 1 2 (true ∷ []) resting-Reach

-- The only thread of a pool that keeps none: the job is left with no thread at all.
job_stranded_example :
    Reach {J = ℕ}
      (record {
        min_threads = 0;
        max_threads = 1;
        threads = 1;
        idle_threads = 1;
        next_id = 1;
        jobs = [];
        workers = expired ∷ [];
        submitter = nobody;
      })
      (record {
        min_threads = 0;
        max_threads = 1;
        threads = 0;
        idle_threads = 0;
        next_id = 1;
        jobs = 9 ∷ [];
        workers = exited ∷ [];
        submitter = nobody;
      })
job_stranded_example = job_stranded 0 1 0 1 [] [] 9 (omega arith) (omega arith)
