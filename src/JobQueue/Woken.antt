-- ===== src/JobQueue/Woken.antt =====
-- witchcraft-server/src/blocking/pool/job_queue.rs: the node of a thread that was notified, until the
-- thread has the lock again and runs the code after its wait.
use witchcraft_rust_server.Common.{
  ℕ, ◌≡◌, refl, ap, ◌∙◌, false, none, some, List, [], ◌∷◌, ◌++◌, ◌==◌, arith,
}
use witchcraft_rust_server.JobQueue.{
  Node, JobQueue, delist, enlist, push, set_next, set_prev, wake_head, write,
}
use witchcraft_rust_server.JobQueue.Linked.{
  Absent, Chain, Chain-Misses, Distinct, delist_behind, delist_first, own_next-Misses, own_prev,
  next-Misses, prev-Misses, push-Chain, set_next-ne, set_prev-ne, unlinked-ne, write-ne, write_self,
}

-- The node points nowhere.
pub record Free (nodes : ℕ → Node) (p : ℕ) : Type 0 where
  pub next_null : (nodes p).next ≡ none
  pub prev_null : (nodes p).prev ≡ none

-- The threads that were notified have such nodes, and are not among those that wait.
abbrev pub AreWoken : (ℕ → Node) → List ℕ → List ℕ → Type 0
AreWoken nodes ids [] = Unit {0}
AreWoken nodes ids (p ∷ ps) = Free nodes p × Absent p ids × AreWoken nodes ids ps

Free-same : (nodes nodes' : ℕ → Node) (p : ℕ) → nodes' p ≡ nodes p → Free nodes p → Free nodes' p
Free-same nodes nodes' p e f = record {
  next_null = ap (λ n. n.next) e ∙ f.next_null;
  prev_null = ap (λ n. n.prev) e ∙ f.prev_null;
}

module _ {J : Type 0} where
  enlist-same :
      (me p : ℕ) (q : JobQueue J) (ids : List ℕ)
      → Chain q.nodes none q.head ids
      → Absent p ids
      → (me == p) ≡ false
      → (enlist me q).nodes p ≡ q.nodes p
  unfolding enlist
  enlist-same me p q ids c a n =
      let node : Node = record { next = q.head; prev = none } in
      set_prev-ne (write q.nodes me node) q.head (some me) p
        (Chain-Misses q.nodes none q.head ids p a c)
      ∙ write-ne q.nodes me p node n

  pub enlist-AreWoken :
      (me : ℕ) (q : JobQueue J) (ids woken : List ℕ)
      → Chain q.nodes none q.head ids
      → Absent me woken
      → AreWoken q.nodes ids woken
      → AreWoken (enlist me q).nodes (me ∷ ids) woken
  enlist-AreWoken me q ids [] c n w = tt
  enlist-AreWoken me q ids (p ∷ ps) c (n, ns) (f, a, w) =
      let back : (p == me) ≡ false = ground arith in
      (
        Free-same q.nodes (enlist me q).nodes p (enlist-same me p q ids c a n) f,
        (back, a),
        enlist-AreWoken me q ids ps c ns w,
      )

  push-same :
      (job : J) (q : JobQueue J) (me p : ℕ) (ids : List ℕ)
      → Chain q.nodes none q.head (me ∷ ids)
      → Absent p (me ∷ ids)
      → (push job q).0.nodes p ≡ q.nodes p
  unfolding push
  push-same job q me p ids (e, b, c) (n, a) =
      let miss = Chain-Misses q.nodes (some me) (q.nodes me).next ids p a c in
      let other : (me == p) ≡ false = ground arith in
      rw (e, wake_head)
        (set_next-ne (set_prev (q.nodes me).next none q.nodes) (some me) none p other
          ∙ set_prev-ne q.nodes (q.nodes me).next none p miss)

  push-AreWoken :
      (job : J) (q : JobQueue J) (me : ℕ) (ids woken : List ℕ)
      → Chain q.nodes none q.head (me ∷ ids)
      → AreWoken q.nodes (me ∷ ids) woken
      → AreWoken (push job q).0.nodes ids woken
  push-AreWoken job q me ids [] c w = tt
  push-AreWoken job q me ids (p ∷ ps) c (f, a, w) = (
    Free-same q.nodes (push job q).0.nodes p (push-same job q me p ids c a) f,
    a.1,
    push-AreWoken job q me ids ps c w,
  )

  push_woken-prev :
      (job : J) (q : JobQueue J) (me : ℕ) (ids : List ℕ)
      → Distinct (me ∷ ids)
      → Chain q.nodes none q.head (me ∷ ids)
      → ((push job q).0.nodes me).prev ≡ none
  unfolding push set_next
  push_woken-prev job q me ids (a, d) (e, b, c) =
      let miss = Chain-Misses q.nodes (some me) (q.nodes me).next ids me a c in
      rw (e, wake_head)
        (ap (λ n. n.prev) (write_self (set_prev (q.nodes me).next none q.nodes) me _)
          ∙ ap (λ n. n.prev) (set_prev-ne q.nodes (q.nodes me).next none me miss)
          ∙ b)

  -- The thread that a push notifies is one more of them.
  pub push_notifies-AreWoken :
      (job : J) (q : JobQueue J) (me : ℕ) (ids woken : List ℕ)
      → Distinct (me ∷ ids)
      → Chain q.nodes none q.head (me ∷ ids)
      → AreWoken q.nodes (me ∷ ids) woken
      → AreWoken (push job q).0.nodes ids (me ∷ woken)
  push_notifies-AreWoken job q me ids woken d c w = (
    record {
      next_null = (push-Chain job q me ids d c).2;
      prev_null = push_woken-prev job q me ids d c;
    },
    d.0,
    push-AreWoken job q me ids woken c w,
  )

  pub push_empty-nodes : (job : J) (q : JobQueue J) → q.head ≡ none → (push job q).0.nodes ≡ q.nodes
  unfolding push
  push_empty-nodes job q e = rw (e, wake_head) refl

  delist-same :
      (me p : ℕ) (q : JobQueue J) (xs ys : List ℕ)
      → Distinct (xs ++ (me ∷ ys))
      → Chain q.nodes none q.head (xs ++ (me ∷ ys))
      → Absent p (xs ++ (me ∷ ys))
      → (delist me q).nodes p ≡ q.nodes p
  delist-same me p q [] ys d (e, b, c) a =
      let own = Chain-Misses q.nodes (some me) (q.nodes me).next ys me d.0 c in
      ap (λ (r : JobQueue J). r.nodes p) (delist_first me q b e own)
      ∙ set_prev-ne q.nodes (q.nodes me).next none p
          (Chain-Misses q.nodes (some me) (q.nodes me).next ys p a.1 c)
  delist-same me p q (x ∷ xs) ys d c a =
      let (k, back) = own_prev q.nodes me none q.head x xs ys c in
      let own = own_next-Misses q.nodes me none q.head (x ∷ xs) ys d c in
      ap (λ (r : JobQueue J). r.nodes p) (delist_behind me k q back own)
      ∙ unlinked-ne q.nodes me ys p (prev-Misses q.nodes me ys none q.head p x xs a c)
          (next-Misses q.nodes me ys none q.head p (x ∷ xs) a c)

Absent-remove : (p me : ℕ) (xs ys : List ℕ) → Absent p (xs ++ (me ∷ ys)) → Absent p (xs ++ ys)
Absent-remove p me [] ys a = a.1
Absent-remove p me (x ∷ xs) ys a = (a.0, Absent-remove p me xs ys a.1)

pub Distinct-remove : (me : ℕ) (xs ys : List ℕ) → Distinct (xs ++ (me ∷ ys)) → Distinct (xs ++ ys)
Distinct-remove me [] ys d = d.1
Distinct-remove me (x ∷ xs) ys d = (Absent-remove x me xs ys d.0, Distinct-remove me xs ys d.1)

pub delist-AreWoken :
    {J : Type 0} (me : ℕ) (q : JobQueue J) (xs ys woken : List ℕ)
    → Distinct (xs ++ (me ∷ ys))
    → Chain q.nodes none q.head (xs ++ (me ∷ ys))
    → AreWoken q.nodes (xs ++ (me ∷ ys)) woken
    → AreWoken (delist me q).nodes (xs ++ ys) woken
delist-AreWoken me q xs ys [] d c w = tt
delist-AreWoken me q xs ys (p ∷ ps) d c (f, a, w) = (
  Free-same q.nodes (delist me q).nodes p (delist-same me p q xs ys d c a) f,
  Absent-remove p me xs ys a,
  delist-AreWoken me q xs ys ps d c w,
)

-- One of them, and the others
pub AreWoken-one :
    (nodes : ℕ → Node) (ids : List ℕ) (me : ℕ) (xs ys : List ℕ)
    → AreWoken nodes ids (xs ++ (me ∷ ys))
    → Free nodes me × Absent me ids × AreWoken nodes ids (xs ++ ys)
AreWoken-one nodes ids me [] ys w = w
AreWoken-one nodes ids me (x ∷ xs) ys (f, a, w) =
    let (g, b, rest) = AreWoken-one nodes ids me xs ys w in (g, b, (f, a, rest))
