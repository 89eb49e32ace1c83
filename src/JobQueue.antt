-- ===== src/JobQueue.antt =====
-- witchcraft-server/src/blocking/pool/job_queue.rs: `JobQueue`, a queue of jobs with the list of the
-- threads that wait for one. A waiting thread's node lies on its stack, and the nodes are linked by
-- raw pointers: here `nodes` is the memory, and a pointer is the number of the thread whose node it
-- names. The condition variable of a node wakes its thread only. Each function is what a caller does
-- under the lock; `pop_until` gives the lock up while it waits, so it is in two parts.
pub mod Linked
pub mod Woken
pub mod Waiters
mod Tests
use mathlib.Core.List.{head?, tail}
use witchcraft_rust_server.Common.{
  ℕ, Bool, true, false, Option, none, some, List, [], ◌∷◌, ◌++◌, if◌then◌else◌, ◌==◌, length,
}

pub record Node : Type 0 where
  pub next : Option ℕ
  pub prev : Option ℕ

pub record JobQueue (J : Type 0) : Type 0 where
  pub head : Option ℕ
  pub nodes : ℕ → Node
  pub jobs : List J

abbrev pub write : (ℕ → Node) → ℕ → Node → ℕ → Node
write nodes p node q = if p == q then node else nodes q

-- `(*p).prev = …`, on a pointer that may be null
pub set_prev : Option ℕ → Option ℕ → (ℕ → Node) → ℕ → Node
set_prev none to nodes = nodes
set_prev (some p) to nodes = write nodes p (record (nodes p) { prev = to })

pub set_next : Option ℕ → Option ℕ → (ℕ → Node) → ℕ → Node
set_next none to nodes = nodes
set_next (some p) to nodes = write nodes p (record (nodes p) { next = to })

pub new : {J : Type 0} → (ℕ → Node) → JobQueue J
new nodes = record { head = none; nodes = nodes; jobs = [] }

module _ {J : Type 0} where
  pub len : JobQueue J → ℕ
  len q = length q.jobs

  wake_head : Option ℕ → JobQueue J → JobQueue J × Option ℕ
  unfolding set_prev set_next
  wake_head none q = (q, none)
  wake_head (some woken) q =
      let head = (q.nodes woken).next in
      (
        record q { head = head; nodes = set_next (some woken) none (set_prev head none q.nodes) },
        some woken,
      )

  -- The job is queued, and the first waiter, if there is one, is taken off the list and notified.
  pub push : J → JobQueue J → JobQueue J × Option ℕ
  unfolding wake_head
  push job q = wake_head q.head (record q { jobs = q.jobs ++ (job ∷ []) })

  pub try_pop : JobQueue J → JobQueue J × Option J
  try_pop q = (record q { jobs = tail q.jobs }, head? q.jobs)

  -- The head of the loop of `pop_until`: a job, or else the thread `me` joins the waiters and waits.
  pub enlist : ℕ → JobQueue J → JobQueue J
  unfolding set_prev
  enlist me q = record q {
    head = some me;
    nodes = set_prev q.head (some me) (write q.nodes me (record { next = q.head; prev = none }));
  }

  pub pop_or_enlist : ℕ → JobQueue J → JobQueue J × Option J
  unfolding enlist
  pop_or_enlist me q = elim q.jobs [
    | [] ↦ (enlist me q, none)
    | job ∷ rest ↦ (record q { jobs = rest }, some job)
  ]

  -- What the thread does when the wait is over: its node leaves the list, if it is still there.
  pub delist : ℕ → JobQueue J → JobQueue J
  unfolding set_prev set_next
  delist me q =
      let nodes = set_prev (q.nodes me).next (q.nodes me).prev q.nodes in
      let r : JobQueue J = record q { nodes = nodes } in
      elim (nodes me).prev [
        | some p ↦ record r { nodes = set_next (some p) (nodes me).next nodes }
        | none ↦ elim q.head [
          | none ↦ r
          | some h ↦ if h == me then record r { head = (nodes me).next } else r
        ]
      ]
