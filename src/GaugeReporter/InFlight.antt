-- ===== src/GaugeReporter/InFlight.antt =====
-- gauge_reporter.rs: no gauge is run twice at a time, and at most two have a permit.
use witchcraft_rust_server.Common.{
  ℕ, suc, ◌+◌, ◌≤◌, ◌≡◌, ◌⊎◌, inl, inr, refl, sym, ap, ◌∙◌, subst, true, false, Option, none, some,
  List, [], ◌∷◌, ◌++◌, map, map-append, ◌==◌, Bool-cases, or-left, or-right, arith,
}
use witchcraft_rust_server.GaugeReporter.{
  Found, GaugeFuture, GaugeReporter, Reach, Step, acquiring, after_poll, id_of, insert, inserts,
  member, new, poll, poll_running, polls, remove, running, starts, then_step,
}

abbrev pub holds : GaugeFuture → ℕ
holds (acquiring id gauge) = 0
holds (running id true) = 1
holds (running id false) = 0

-- How many futures have a permit
abbrev pub holders : List GaugeFuture → ℕ
holders [] = 0
holders (f ∷ fs) = holds f + holders fs

abbrev pub NoDup : List ℕ → Type 0
NoDup [] = Unit
NoDup (x ∷ xs) = (member x xs ≡ false) × NoDup xs

pub record Inv (r : GaugeReporter) : Type 0 where
  pub same_ids : r.ids ≡ map id_of r.results
  pub distinct : NoDup (map id_of r.results)
  pub two_permits : r.permits + holders r.results ≡ 2

holders-append : (fs gs : List GaugeFuture) → holders (fs ++ gs) ≡ holders fs + holders gs
holders-append [] gs = omega arith
holders-append (f ∷ fs) gs = omega (arith, holders-append fs gs)

member-at :
    (k : ℕ) (xs : List ℕ) (y : ℕ) (ys : List ℕ)
    → member k (xs ++ (y ∷ ys)) ≡ false
    → ((y == k) ≡ false) × (member k (xs ++ ys) ≡ false)
unfolding member
member-at k [] y ys h = (or-left (y == k) (member k ys) h, or-right (y == k) (member k ys) h)
member-at k (x ∷ xs) y ys h =
    let (a, b) = member-at k xs y ys (or-right (x == k) (member k (xs ++ (y ∷ ys))) h) in
    (a, rw (or-left (x == k) (member k (xs ++ (y ∷ ys))) h) b)

equal_sym : (x y : ℕ) → (y == x) ≡ false → (x == y) ≡ false
equal_sym x y h = ground arith

-- The id of a future that is removed is found at its place.
remove-append :
    (xs : List ℕ) (id : ℕ) (ys : List ℕ)
    → NoDup (xs ++ (id ∷ ys))
    → (remove id (xs ++ (id ∷ ys)) ≡ xs ++ ys) × NoDup (xs ++ ys)
unfolding remove
remove-append [] id ys (n, d) = (ground arith, d)
remove-append (x ∷ xs) id ys (n, d) =
    let (e, m) = member-at x xs id ys n in
    let (same, rest) = remove-append xs id ys d in
    (rw (equal_sym x id e) (ap (λ l. x ∷ l) same), (m, rest))

-- A poll of a future keeps its id, and makes and loses no permit.
abbrev Conserves : GaugeFuture → ℕ → ℕ × Option GaugeFuture → Type 0
Conserves future permits (left, some g) =
    (id_of g ≡ id_of future) × (left + holds g ≡ permits + holds future)
Conserves future permits (left, none) = left ≡ permits + holds future

poll-Conserves :
    (future : GaugeFuture) (f : Found) (permits : ℕ)
    → (f.granted ≡ true → (n : ℕ) × (permits ≡ suc n))
    → Conserves future permits (poll future f permits)
unfolding poll poll_running
poll-Conserves (acquiring id gauge) f permits h = elim (Bool-cases f.granted) [
  | inl g ↦
      let (n, e) = h g in
      elim (Bool-cases f.too_long) [
        | inl t ↦ elim (Bool-cases f.ended) [
          | inl d ↦ rw (g, t, d) (omega (arith, e))
          | inr d ↦ rw (g, t, d) (refl, omega (arith, e))
        ]
        | inr t ↦ elim (Bool-cases f.ended) [
          | inl d ↦ rw (g, t, d) (omega (arith, e))
          | inr d ↦ rw (g, t, d) (refl, omega (arith, e))
        ]
      ]
  | inr g ↦ rw g (refl, refl)
]
poll-Conserves (running id true) f permits h = elim (Bool-cases f.too_long) [
  | inl t ↦ elim (Bool-cases f.ended) [
    | inl d ↦ rw (t, d) refl
    | inr d ↦ rw (t, d) (refl, omega arith)
  ]
  | inr t ↦ elim (Bool-cases f.ended) [
    | inl d ↦ rw (t, d) refl
    | inr d ↦ rw (t, d) (refl, omega arith)
  ]
]
poll-Conserves (running id false) f permits h = elim (Bool-cases f.ended) [
  | inl d ↦ rw d (omega arith)
  | inr d ↦ rw d (refl, omega arith)
]

holders-at :
    (before after : List GaugeFuture) (f : GaugeFuture)
    → holders (before ++ (f ∷ after)) ≡ holders before + holders after + holds f
holders-at before after f = omega (arith, holders-append before (f ∷ after))

polled-Inv :
    (before after : List GaugeFuture) (future : GaugeFuture) (ids : List ℕ) (permits : ℕ)
    (result : ℕ × Option GaugeFuture)
    → ids ≡ map id_of (before ++ (future ∷ after))
    → NoDup (map id_of (before ++ (future ∷ after)))
    → permits + holders (before ++ (future ∷ after)) ≡ 2
    → Conserves future permits result
    → Inv (after_poll before (id_of future) after ids result)
polled-Inv before after future ids permits (left, some g) i d two (same, c) =
    let moved : map id_of (before ++ (future ∷ after)) ≡ map id_of (before ++ (g ∷ after)) =
      map-append id_of before (future ∷ after)
      ∙ ap (λ x. map id_of before ++ (x ∷ map id_of after)) (sym same)
      ∙ sym (map-append id_of before (g ∷ after)) in
    record {
      same_ids = i ∙ moved;
      distinct = subst NoDup moved d;
      two_permits =
          omega (arith, c, two, holders-at before after g, holders-at before after future);
    }
polled-Inv before after future ids permits (left, none) i d two c =
    let shape : map id_of (before ++ (future ∷ after))
        ≡ map id_of before ++ (id_of future ∷ map id_of after) =
      map-append id_of before (future ∷ after) in
    let (removed, rest) =
      remove-append (map id_of before) (id_of future) (map id_of after) (subst NoDup shape d) in
    let joined : map id_of before ++ map id_of after ≡ map id_of (before ++ after) =
      sym (map-append id_of before after) in
    record {
      same_ids = ap (remove (id_of future)) (i ∙ shape) ∙ removed ∙ joined;
      distinct = subst NoDup joined rest;
      two_permits =
          omega (arith, c, two, holders-append before after, holders-at before after future);
    }

insert-Inv : (id gauge : ℕ) (r : GaugeReporter) → Inv r → Inv (insert id gauge r).0
unfolding insert
insert-Inv id gauge r i = elim (Bool-cases (member id r.ids)) [
  | inl m ↦ rw m i
  | inr m ↦ rw m (record {
    same_ids = ap (λ l. id ∷ l) i.same_ids;
    distinct = (ap (member id) (sym i.same_ids) ∙ m, i.distinct);
    two_permits = omega (arith, i.two_permits);
  })
]

step-Inv : {r s : GaugeReporter} → Step r s → Inv r → Inv s
step-Inv {r} (inserts id gauge) i = insert-Inv id gauge r i
step-Inv {r} (polls before after future f e g) i =
    polled-Inv before after future r.ids r.permits (poll future f r.permits)
      (i.same_ids ∙ ap (map id_of) e) (subst (λ x. NoDup (map id_of x)) e i.distinct)
      (ap (λ x. r.permits + holders x) (sym e) ∙ i.two_permits)
      (poll-Conserves future f r.permits g)

Reach-Inv : {r : GaugeReporter} → Reach r → Inv r
unfolding new
Reach-Inv starts = record { same_ids = refl; distinct = record {}; two_permits = refl }
Reach-Inv (then_step r st) = step-Inv st (Reach-Inv r)

-- In any history of insertions and of polls: the futures have different ids, so that no gauge is run
-- twice at a time; at most two of them have a permit; and an insertion is refused, and then changes
-- nothing, exactly where a future with that id is there.
pub gauges_in_flight :
    {r : GaugeReporter} (id gauge : ℕ)
    → Reach r
    → NoDup (map id_of r.results)
      × (holders r.results ≤ 2)
      × (((member id (map id_of r.results) ≡ true) × (insert id gauge r ≡ (r, false)))
          ⊎ ((member id (map id_of r.results) ≡ false)
              × ((insert id gauge r).1 ≡ true)
              × ((insert id gauge r).0.results ≡ acquiring id gauge ∷ r.results)))
unfolding insert
gauges_in_flight {r} id gauge h =
    let i : Inv r = Reach-Inv h in
    let same : member id r.ids ≡ member id (map id_of r.results) = ap (member id) i.same_ids in
    (
      i.distinct,
      omega (arith, i.two_permits),
      elim (Bool-cases (member id r.ids)) [
        | inl m ↦ inl (sym same ∙ m, rw m refl)
        | inr m ↦ inr (sym same ∙ m, rw m refl, rw m refl)
      ],
    )
