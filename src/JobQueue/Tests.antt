-- ===== src/JobQueue/Tests.antt =====
-- witchcraft-server/src/blocking/pool/job_queue.rs: three threads wait, the one in the middle gives
-- up, and a job wakes the one that came last, as in the unit test `wake_lifo`.
use witchcraft_rust_server.Common.{ℕ, refl, none, [], ◌∷◌}
use witchcraft_rust_server.JobQueue.{JobQueue, Node, delist, enlist, new, push}
use witchcraft_rust_server.JobQueue.Waiters.{
  Links, Waits, Waits-Chain, enlists, expires, notifies, resumes, starts,
}

memory : ℕ → Node
memory p = record { next = none; prev = none }

three : JobQueue ℕ
three = enlist 3 (enlist 2 (enlist 1 (new memory)))

three-Waits : Waits three (3 ∷ 2 ∷ 1 ∷ []) []
unfolding three
three-Waits =
    enlists 3 (enlists 2 (enlists 1 (starts memory) tt tt) (refl, tt) tt) (refl, (refl, tt)) tt

-- The thread 2 has given up, 3 is notified, 4 comes, and only then does 3 have the lock.
last : JobQueue ℕ
last = delist 3 (enlist 4 (push 9 (delist 2 three)).0)

last-Waits : Waits last (4 ∷ 1 ∷ []) []
unfolding last
last-Waits =
    resumes 3 [] []
      (enlists 4 (notifies 9 3 (expires 2 (3 ∷ []) (1 ∷ []) three-Waits refl) refl) (refl, tt)
        (refl, tt))
      refl

Waits-Chain_example : Links last (4 ∷ 1 ∷ []) []
Waits-Chain_example = Waits-Chain last-Waits
