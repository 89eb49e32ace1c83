-- ===== src/JobQueue/Linked.antt =====
-- witchcraft-server/src/blocking/pool/job_queue.rs: the pointers form a doubly linked list of the
-- waiting threads, which each operation changes as an operation on a list of threads does.
use mathlib.Core.Path.{subst}
use witchcraft_rust_server.Common.{
  ℕ, ◌≡◌, refl, ap, sym, ◌∙◌, true, false, Option, none, some, List, [], ◌∷◌, ◌++◌, ◌==◌, All,
  arith,
}
use witchcraft_rust_server.JobQueue.{
  Node, JobQueue, write, set_prev, set_next, push, wake_head, enlist, delist,
}

-- The nodes from `cur` on are those of `ids`, linked both ways; the first one's `prev` is `prev`.
abbrev pub Chain : (ℕ → Node) → Option ℕ → Option ℕ → List ℕ → Type 0
Chain nodes prev cur [] = cur ≡ none
Chain nodes prev cur (p ∷ ps) =
    (cur ≡ some p) × ((nodes p).prev ≡ prev) × Chain nodes (some p) (nodes p).next ps

abbrev pub Absent : ℕ → List ℕ → Type 0
Absent p ids = All (λ q. (p == q) ≡ false) ids

abbrev pub Distinct : List ℕ → Type 0
Distinct [] = Unit {0}
Distinct (p ∷ ps) = Absent p ps × Distinct ps

eq_refl : (p : ℕ) → (p == p) ≡ true
eq_refl p = ground arith

eq_sym : (p q : ℕ) → (p == q) ≡ false → (q == p) ≡ false
eq_sym p q h = ground arith

pub write-ne :
    (nodes : ℕ → Node) (p q : ℕ) (v : Node) → (p == q) ≡ false → write nodes p v q ≡ nodes q
write-ne nodes p q v h = rw h

pub write_self : (nodes : ℕ → Node) (p : ℕ) (v : Node) → write nodes p v p ≡ v
write_self nodes p v = rw (eq_refl p)

-- A write elsewhere changes nothing.
write-Chain :
    (nodes : ℕ → Node) (p : ℕ) (v : Node) (prev cur : Option ℕ) (ids : List ℕ)
    → Absent p ids
    → Chain nodes prev cur ids
    → Chain (write nodes p v) prev cur ids
write-Chain nodes p v prev cur [] a c = c
write-Chain nodes p v prev cur (q ∷ qs) (n, a) (e, b, c) =
    rw n (e, b, write-Chain nodes p v (some q) (nodes q).next qs a c)

-- The first node can be given another `prev`.
set_prev-Chain :
    (nodes : ℕ → Node) (prev to cur : Option ℕ) (ids : List ℕ)
    → Distinct ids
    → Chain nodes prev cur ids
    → Chain (set_prev cur to nodes) to cur ids
unfolding set_prev
set_prev-Chain nodes prev to cur [] d c = c
set_prev-Chain nodes prev to cur (p ∷ ps) (a, d) (e, b, c) =
    let node : Node = record (nodes p) { prev = to } in
    let self = write_self nodes p node in
    subst (λ h. Chain (set_prev h to nodes) to h (p ∷ ps)) (sym e)
      (
        refl,
        ap (λ n. n.prev) self,
        subst (λ h. Chain (write nodes p node) (some p) h ps) (sym (ap (λ n. n.next) self))
            (write-Chain nodes p node (some p) (nodes p).next ps a c),
      )

-- The pointer is null or names another node.
abbrev pub Misses : Option ℕ → ℕ → Type 0
Misses none q = Unit {0}
Misses (some p) q = (p == q) ≡ false

pub set_prev-ne :
    (nodes : ℕ → Node) (cur to : Option ℕ) (q : ℕ)
    → Misses cur q
    → set_prev cur to nodes q ≡ nodes q
unfolding set_prev
set_prev-ne nodes none to q h = refl
set_prev-ne nodes (some p) to q h = rw h

pub set_next-ne :
    (nodes : ℕ → Node) (cur to : Option ℕ) (q : ℕ)
    → Misses cur q
    → set_next cur to nodes q ≡ nodes q
unfolding set_next
set_next-ne nodes none to q h = refl
set_next-ne nodes (some p) to q h = rw h

pub Chain-Misses :
    (nodes : ℕ → Node) (prev cur : Option ℕ) (ids : List ℕ) (q : ℕ)
    → Absent q ids
    → Chain nodes prev cur ids
    → Misses cur q
Chain-Misses nodes prev cur [] q a c = rw c tt
Chain-Misses nodes prev cur (p ∷ ps) q (n, a) (e, _, _) = rw e (eq_sym q p n)

-- A thread that waits becomes the first of the list.
pub enlist-Chain :
    {J : Type 0} (me : ℕ) (q : JobQueue J) (ids : List ℕ)
    → Absent me ids
    → Distinct ids
    → Chain q.nodes none q.head ids
    → Chain (enlist me q).nodes none (enlist me q).head (me ∷ ids)
unfolding enlist
enlist-Chain me q ids a d c =
    let node : Node = record { next = q.head; prev = none } in
    let linked = write-Chain q.nodes me node none q.head ids a c in
    let mine =
      set_prev-ne (write q.nodes me node) q.head (some me) me
        (Chain-Misses q.nodes none q.head ids me a c)
      ∙ write_self q.nodes me node in
    (
      refl,
      ap (λ n. n.prev) mine,
      subst (λ h. Chain (set_prev q.head (some me) (write q.nodes me node)) (some me) h ids)
          (sym (ap (λ n. n.next) mine))
          (set_prev-Chain (write q.nodes me node) none (some me) q.head ids d linked),
    )

set_next-Chain :
    (nodes : ℕ → Node) (p : ℕ) (to prev cur : Option ℕ) (ids : List ℕ)
    → Absent p ids
    → Chain nodes prev cur ids
    → Chain (set_next (some p) to nodes) prev cur ids
unfolding set_next
set_next-Chain nodes p to prev cur ids a c = write-Chain nodes p _ prev cur ids a c

-- `push` notifies the thread that came last, and takes it off the list.
pub push-Chain :
    {J : Type 0} (job : J) (q : JobQueue J) (me : ℕ) (ids : List ℕ)
    → Distinct (me ∷ ids)
    → Chain q.nodes none q.head (me ∷ ids)
    → ((push job q).1 ≡ some me)
      × Chain (push job q).0.nodes none (push job q).0.head ids
      × (((push job q).0.nodes me).next ≡ none)
unfolding push
push-Chain job q me ids (a, d) (e, b, c) =
    rw (e, wake_head)
      (
        refl,
        set_next-Chain _ me none none _ ids a
            (set_prev-Chain q.nodes (some me) none (q.nodes me).next ids d c),
        ap (λ n. n.next) (write_self (set_prev (q.nodes me).next none q.nodes) me _),
      )

-- The memory after the node of `me` is unlinked behind another one.
pub unlinked : (ℕ → Node) → ℕ → ℕ → Node
unlinked nodes me =
    set_next (nodes me).prev (nodes me).next (set_prev (nodes me).next (nodes me).prev nodes)

module _ (nodes : ℕ → Node) (me : ℕ) (ys : List ℕ) where
  pub prev-Misses :
      (prev cur : Option ℕ) (x z : ℕ) (zs : List ℕ)
      → Absent x (z ∷ zs ++ (me ∷ ys))
      → Chain nodes prev cur (z ∷ zs ++ (me ∷ ys))
      → Misses (nodes me).prev x
  prev-Misses prev cur x z [] a (_, _, (_, b, _)) = rw b (eq_sym x z a.0)
  prev-Misses prev cur x z (y ∷ zs) a (_, _, c) = prev-Misses (some z) (nodes z).next x y zs a.1 c

  pub next-Misses :
      (prev cur : Option ℕ) (x : ℕ) (zs : List ℕ)
      → Absent x (zs ++ (me ∷ ys))
      → Chain nodes prev cur (zs ++ (me ∷ ys))
      → Misses (nodes me).next x
  next-Misses prev cur x [] a (_, _, c) = Chain-Misses nodes _ _ ys x a.1 c
  next-Misses prev cur x (z ∷ zs) a (_, _, c) = next-Misses (some z) (nodes z).next x zs a.1 c

  pub unlinked-ne :
      (x : ℕ) → Misses (nodes me).prev x → Misses (nodes me).next x → unlinked nodes me x ≡ nodes x
  unfolding unlinked
  unlinked-ne x p n =
      set_next-ne (set_prev (nodes me).next (nodes me).prev nodes) (nodes me).prev (nodes me).next x
        p
      ∙ set_prev-ne nodes (nodes me).next (nodes me).prev x n

  unlink_after :
      (prev cur : Option ℕ) (x : ℕ)
      → Distinct (x ∷ me ∷ ys)
      → Chain nodes prev cur (x ∷ me ∷ ys)
      → Chain (unlinked nodes me) prev cur (x ∷ ys)
  unfolding unlinked set_next
  unlink_after prev cur x (a, (_, d)) (e, b, (_, back, c)) =
      let fixed = set_prev-Chain nodes (some me) (some x) (nodes me).next ys d c in
      let miss = Chain-Misses nodes (some me) (nodes me).next ys x a.1 c in
      let kept = set_prev-ne nodes (nodes me).next (some x) x miss in
      let node : Node = record (set_prev (nodes me).next (some x) nodes x) {
        next = (nodes me).next;
      } in
      let self = write_self (set_prev (nodes me).next (some x) nodes) x node in
      subst
        (λ h.
          Chain (set_next h (nodes me).next (set_prev (nodes me).next h nodes)) prev cur (x ∷ ys))
        (sym back)
        (
          e,
          ap (λ n. n.prev) self ∙ ap (λ n. n.prev) kept ∙ b,
          subst (λ h. Chain (write (set_prev (nodes me).next (some x) nodes) x node) (some x) h ys)
              (sym (ap (λ n. n.next) self))
              (write-Chain (set_prev (nodes me).next (some x) nodes) x node (some x) (nodes me).next
                ys a.1 fixed),
        )

  unlink-Chain :
      (prev cur : Option ℕ) (x : ℕ) (xs : List ℕ)
      → Distinct (x ∷ xs ++ (me ∷ ys))
      → Chain nodes prev cur (x ∷ xs ++ (me ∷ ys))
      → Chain (unlinked nodes me) prev cur (x ∷ xs ++ ys)
  unlink-Chain prev cur x [] d c = unlink_after prev cur x d c
  unlink-Chain prev cur x (y ∷ xs) (a, d) (e, b, c) =
      let same =
        unlinked-ne x (prev-Misses (some x) (nodes x).next x y xs a c)
          (next-Misses (some x) (nodes x).next x (y ∷ xs) a c) in
      (
        e,
        ap (λ n. n.prev) same ∙ b,
        subst (λ h. Chain (unlinked nodes me) (some x) h (y ∷ xs ++ ys))
            (sym (ap (λ n. n.next) same)) (unlink-Chain (some x) (nodes x).next y xs d c),
      )

pub delist_behind :
    {J : Type 0} (me p : ℕ) (q : JobQueue J)
    → (q.nodes me).prev ≡ some p
    → Misses (q.nodes me).next me
    → delist me q ≡ record q { nodes = unlinked q.nodes me }
unfolding delist unlinked
delist_behind me p q back miss =
    ground (arith, set_prev-ne q.nodes (q.nodes me).next (q.nodes me).prev me miss)

pub delist_first :
    {J : Type 0} (me : ℕ) (q : JobQueue J)
    → (q.nodes me).prev ≡ none
    → q.head ≡ some me
    → Misses (q.nodes me).next me
    → delist me q
      ≡ record q { nodes = set_prev (q.nodes me).next none q.nodes; head = (q.nodes me).next }
unfolding delist
delist_first me q back h miss =
    ground (arith, set_prev-ne q.nodes (q.nodes me).next (q.nodes me).prev me miss, eq_refl me)

pub own_next-Misses :
    (nodes : ℕ → Node) (me : ℕ) (prev cur : Option ℕ) (xs ys : List ℕ)
    → Distinct (xs ++ (me ∷ ys))
    → Chain nodes prev cur (xs ++ (me ∷ ys))
    → Misses (nodes me).next me
own_next-Misses nodes me prev cur [] ys d (_, _, c) =
    Chain-Misses nodes (some me) (nodes me).next ys me d.0 c
own_next-Misses nodes me prev cur (x ∷ xs) ys d (_, _, c) =
    own_next-Misses nodes me (some x) (nodes x).next xs ys d.1 c

pub own_prev :
    (nodes : ℕ → Node) (me : ℕ) (prev cur : Option ℕ) (x : ℕ) (xs ys : List ℕ)
    → Chain nodes prev cur (x ∷ xs ++ (me ∷ ys))
    → (p : ℕ) × ((nodes me).prev ≡ some p)
own_prev nodes me prev cur x [] ys (_, _, (_, b, _)) = (x, b)
own_prev nodes me prev cur x (y ∷ xs) ys (_, _, c) =
    own_prev nodes me (some x) (nodes x).next y xs ys c

-- A thread whose wait has timed out leaves the list, wherever its node stands, and the others stay
-- in their order.
pub delist-Chain :
    {J : Type 0} (me : ℕ) (q : JobQueue J) (xs ys : List ℕ)
    → Distinct (xs ++ (me ∷ ys))
    → Chain q.nodes none q.head (xs ++ (me ∷ ys))
    → Chain (delist me q).nodes none (delist me q).head (xs ++ ys)
delist-Chain {J} me q [] ys d (e, b, c) =
    let miss = Chain-Misses q.nodes (some me) (q.nodes me).next ys me d.0 c in
    subst (λ (r : JobQueue J). Chain r.nodes none r.head ys) (sym (delist_first me q b e miss))
      (set_prev-Chain q.nodes (some me) none (q.nodes me).next ys d.1 c)
delist-Chain {J} me q (x ∷ xs) ys d c =
    let (p, back) = own_prev q.nodes me none q.head x xs ys c in
    let miss = own_next-Misses q.nodes me none q.head (x ∷ xs) ys d c in
    subst (λ (r : JobQueue J). Chain r.nodes none r.head (x ∷ xs ++ ys))
      (sym (delist_behind me p q back miss)) (unlink-Chain q.nodes me ys none q.head x xs d c)

-- A thread that was notified is off the list already: for it the same code changes nothing.
pub delist_notified :
    {J : Type 0} (me : ℕ) (q : JobQueue J) (ids : List ℕ)
    → (q.nodes me).next ≡ none
    → (q.nodes me).prev ≡ none
    → Absent me ids
    → Chain q.nodes none q.head ids
    → delist me q ≡ q
unfolding delist set_prev
delist_notified me q ids n b a c = ground (arith, Chain-Misses q.nodes none q.head ids me a c)
