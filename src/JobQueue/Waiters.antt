-- ===== src/JobQueue/Waiters.antt =====
-- witchcraft-server/src/blocking/pool/job_queue.rs: the pointers through any history of the queue.
use mathlib.Core.Path.{subst}
use witchcraft_rust_server.Common.{ℕ, ◌≡◌, refl, sym, none, List, [], ◌∷◌, ◌++◌}
use witchcraft_rust_server.JobQueue.{Node, JobQueue, new, push, wake_head, enlist, delist, try_pop}
use witchcraft_rust_server.JobQueue.Woken.{
  AreWoken, AreWoken-one, Distinct-remove, delist-AreWoken, enlist-AreWoken, push_empty-nodes,
  push_notifies-AreWoken,
}
use witchcraft_rust_server.JobQueue.Linked.{
  Chain, Absent, Distinct, enlist-Chain, push-Chain, delist-Chain, delist_notified,
}

-- The history of a queue, with the threads that wait after it, the one that came last first, and those
-- that were notified but have not yet had the lock again. A thread enlists where it is among neither; a
-- push notifies the first that waits; a wait that times out may be that of any that waits; and a thread
-- that was notified runs the same code after its wait, whenever it has the lock.
pub data Waits {J : Type 0} : JobQueue J → List ℕ → List ℕ → Type 0 where
  starts : (nodes : ℕ → Node) → Waits (new nodes) [] []
  enlists :
      {q : JobQueue J} {ids woken : List ℕ} (me : ℕ)
      → Waits q ids woken
      → Absent me ids
      → Absent me woken
      → Waits (enlist me q) (me ∷ ids) woken
  queues :
      {q : JobQueue J} {woken : List ℕ} (job : J) → Waits q [] woken → Waits (push job q).0 [] woken
  notifies :
      {q : JobQueue J} {all ids woken : List ℕ} (job : J) (me : ℕ)
      → Waits q all woken
      → all ≡ me ∷ ids
      → Waits (push job q).0 ids (me ∷ woken)
  expires :
      {q : JobQueue J} {all woken : List ℕ} (me : ℕ) (xs ys : List ℕ)
      → Waits q all woken
      → all ≡ xs ++ (me ∷ ys)
      → Waits (delist me q) (xs ++ ys) woken
  resumes :
      {q : JobQueue J} {ids all : List ℕ} (me : ℕ) (xs ys : List ℕ)
      → Waits q ids all
      → all ≡ xs ++ (me ∷ ys)
      → Waits (delist me q) ids (xs ++ ys)
  pops : {q : JobQueue J} {ids woken : List ℕ} → Waits q ids woken → Waits (try_pop q).0 ids woken

new-head : (J : Type 0) (nodes : ℕ → Node) → (new {J = J} nodes).head ≡ none
unfolding new
new-head J nodes = refl

module _ {J : Type 0} where
  -- The pointers link exactly the threads that wait, and the notified ones' nodes point nowhere.
  pub record Links (q : JobQueue J) (ids woken : List ℕ) : Type 0 where
    pub distinct : Distinct ids
    pub chain : Chain q.nodes none q.head ids
    pub are_woken : AreWoken q.nodes ids woken

  push_empty : (job : J) (q : JobQueue J) → q.head ≡ none → (push job q).0.head ≡ none
  unfolding push
  push_empty job q e = rw (e, wake_head)

  try_pop-Links :
      (q : JobQueue J) (ids woken : List ℕ) → Links q ids woken → Links (try_pop q).0 ids woken
  unfolding try_pop
  try_pop-Links q ids woken h = record {
    distinct = h.distinct;
    chain = h.chain;
    are_woken = h.are_woken;
  }

  push-Links :
      (job : J) (q : JobQueue J) (me : ℕ) (ids woken : List ℕ)
      → Links q (me ∷ ids) woken
      → Links (push job q).0 ids (me ∷ woken)
  push-Links job q me ids woken h = record {
    distinct = h.distinct.1;
    chain = (push-Chain job q me ids h.distinct h.chain).1;
    are_woken = push_notifies-AreWoken job q me ids woken h.distinct h.chain h.are_woken;
  }

  expire-Links :
      (q : JobQueue J) (me : ℕ) (xs ys woken : List ℕ)
      → Links q (xs ++ (me ∷ ys)) woken
      → Links (delist me q) (xs ++ ys) woken
  expire-Links q me xs ys woken h = record {
    distinct = Distinct-remove me xs ys h.distinct;
    chain = delist-Chain me q xs ys h.distinct h.chain;
    are_woken = delist-AreWoken me q xs ys woken h.distinct h.chain h.are_woken;
  }

  resume-Links :
      (q : JobQueue J) (me : ℕ) (ids xs ys : List ℕ)
      → Links q ids (xs ++ (me ∷ ys))
      → Links (delist me q) ids (xs ++ ys)
  resume-Links q me ids xs ys h =
      let (f, a, rest) = AreWoken-one q.nodes ids me xs ys h.are_woken in
      subst (λ r. Links r ids (xs ++ ys))
        (sym (delist_notified me q ids f.next_null f.prev_null a h.chain))
        (record { distinct = h.distinct; chain = h.chain; are_woken = rest })

  -- Through any history, the pointers link exactly the threads that wait, each once, in both
  -- directions, the thread that came last first; and the node of a thread that was notified and has not
  -- had the lock since points nowhere, and its thread is not among those that wait.
  pub Waits-Chain : {q : JobQueue J} {ids woken : List ℕ} → Waits q ids woken → Links q ids woken
  Waits-Chain (starts nodes) = record { distinct = tt; chain = new-head J nodes; are_woken = tt }
  Waits-Chain (enlists {q = q} {ids = ids} {woken = woken} me w a b) =
      let h = Waits-Chain w in
      record {
        distinct = (a, h.distinct);
        chain = enlist-Chain me q ids a h.distinct h.chain;
        are_woken = enlist-AreWoken me q ids woken h.chain b h.are_woken;
      }
  Waits-Chain (queues {q = q} {woken = woken} job w) =
      let h = Waits-Chain w in
      record {
        distinct = tt;
        chain = push_empty job q h.chain;
        are_woken =
            subst (λ n. AreWoken n [] woken) (sym (push_empty-nodes job q h.chain)) h.are_woken;
      }
  Waits-Chain (notifies {q = q} {ids = ids} {woken = woken} job me w e) =
      push-Links job q me ids woken (subst (λ l. Links q l woken) e (Waits-Chain w))
  Waits-Chain (expires {q = q} {woken = woken} me xs ys w e) =
      expire-Links q me xs ys woken (subst (λ l. Links q l woken) e (Waits-Chain w))
  Waits-Chain (resumes {q = q} {ids = ids} me xs ys w e) =
      resume-Links q me ids xs ys (subst (Links q ids) e (Waits-Chain w))
  Waits-Chain (pops {q = q} {ids = ids} {woken = woken} w) =
      try_pop-Links q ids woken (Waits-Chain w)
