-- ===== src/GaugeReporter/Idle/Handed.antt =====
-- logging/metric/mod.rs: the results of gauges reach the appender in order, each once.
use witchcraft_rust_server.Common.{
  Bool, true, false, ◌≡◌, refl, sym, ap, ◌∙◌, Option, none, some, List, [], ◌∷◌, ◌++◌, length, ◌≤◌,
  append-nil, append_assoc, arith,
}
use witchcraft_rust_server.GaugeReporter.Idle.{
  Appender, Ready, go_on, hand_over, is_closed, is_ready, not_ready, poll, send_result, when_ready,
}

-- The logs among results
abbrev pub logs : {L : Type 0} → List (Option L) → List L
logs [] = []
logs (none ∷ results) = logs results
logs (some log ∷ results) = log ∷ logs results

-- The documented behaviour of the queue: a log that is taken is behind the others, and one that is
-- refused, because the queue is closed, is not there.
pub record AppenderLaws {A L : Type 0} (appender : Appender A L) : Type 0 where
  pub taken : A → List L
  pub taken-poll_ready : (a : A) → taken (appender.poll_ready a).0 ≡ taken a
  pub taken-sent :
      (a : A) (log : L)
      → (appender.start_send a log).1 ≡ true
      → taken (appender.start_send a log).0 ≡ taken a ++ (log ∷ [])
  pub taken-refused :
      (a : A) (log : L)
      → (appender.start_send a log).1 ≡ false
      → taken (appender.start_send a log).0 ≡ taken a

module _ {A L : Type 0} (appender : Appender A L) (laws : AppenderLaws appender) where
  -- The results are those that were handed over, at most one that a closed queue has refused, and
  -- those that are left.
  abbrev pub Handed : A → List (Option L) → A × List (Option L) → Type 0
  Handed a results (a', rest) =
      (done : List (Option L)) × (refused : List (Option L)) × (results ≡ done ++ (refused ++ rest))
      × (laws.taken a' ≡ laws.taken a ++ logs done)
      × (length refused ≤ 1)

  nothing :
      (a a' : A) (results : List (Option L))
      → laws.taken a' ≡ laws.taken a
      → Handed a results (a', results)
  nothing a a' results e = ([], [], refl, e ∙ sym (append-nil (laws.taken a)), omega arith)

  -- One more result in front of those that a state of the appender was handed
  one_more :
      (a a' : A) (result : Option L) (results : List (Option L)) (end : A × List (Option L))
      → laws.taken a' ≡ laws.taken a ++ logs (result ∷ [])
      → Handed a' results end
      → Handed a (result ∷ results) end
  one_more a a' none results (b, rest) e (done, refused, q, t, l) = (
    none ∷ done,
    refused,
    ap (λ x. none ∷ x) q,
    t ∙ ap (λ x. x ++ logs done) (e ∙ append-nil (laws.taken a)),
    l,
  )
  one_more a a' (some log) results (b, rest) e (done, refused, q, t, l) = (
    some log ∷ done,
    refused,
    ap (λ x. some log ∷ x) q,
    t ∙ ap (λ x. x ++ logs done) e ∙ append_assoc (laws.taken a) (log ∷ []) (logs done),
    l,
  )

  go_on-Handed :
      (a : A) (log : L) (results : List (Option L)) (again : A → A × List (Option L)) (b : A × Bool)
      → (b.1 ≡ true → laws.taken b.0 ≡ laws.taken a ++ (log ∷ []))
      → (b.1 ≡ false → laws.taken b.0 ≡ laws.taken a)
      → ((a' : A) → Handed a' results (again a'))
      → Handed a (some log ∷ results) (go_on appender b results again)
  go_on-Handed a log results again (a', true) t f h =
      one_more a a' (some log) results (again a') (t refl) (h a')
  go_on-Handed a log results again (a', false) t f h =
      ([], some log ∷ [], refl, f refl ∙ sym (append-nil (laws.taken a)), omega arith)

  send-Handed :
      (a : A) (result : Option L) (results : List (Option L)) (again : A → A × List (Option L))
      → ((a' : A) → Handed a' results (again a'))
      → Handed a (result ∷ results) (go_on appender (send_result appender a result) results again)
  send-Handed a none results again h =
      one_more a a none results (again a) (sym (append-nil (laws.taken a))) (h a)
  send-Handed a (some log) results again h =
      go_on-Handed a log results again (appender.start_send a log) (laws.taken-sent a log)
        (laws.taken-refused a log) h

  when_ready-Handed :
      (a : A) (b : A × Ready) (results : List (Option L)) (next : A → A × List (Option L))
      → laws.taken b.0 ≡ laws.taken a
      → ((a' : A) → Handed a' results (next a'))
      → Handed a results (when_ready appender b results next)
  when_ready-Handed a (a', not_ready) results next e h = nothing a a' results e
  when_ready-Handed a (a', is_closed) results next e h = nothing a a' results e
  when_ready-Handed a (a', is_ready) results next e h =
      let (done, refused, q, t, l) = h a' in (done, refused, q, t ∙ ap (λ x. x ++ logs done) e, l)

  hand_over-Handed :
      (more : Bool) (results : List (Option L)) (a : A)
      → Handed a results (hand_over appender more results a)
  unfolding hand_over
  hand_over-Handed false [] a = nothing a a [] refl
  hand_over-Handed true [] a =
      when_ready-Handed a (appender.poll_ready a) [] _ (laws.taken-poll_ready a)
        (λ a'. nothing a' a' [] refl)
  hand_over-Handed more (result ∷ results) a =
      when_ready-Handed a (appender.poll_ready a) (result ∷ results) _ (laws.taken-poll_ready a)
        (λ a'. send-Handed a' result results _ (hand_over-Handed more results))

  -- A poll while the loop is idle: the logs of the results that it takes from the stream are in the
  -- queue behind the others, in order and each once, but for the last one taken, which a closed queue
  -- may refuse; the other results stay; and it is over exactly when the time is.
  pub poll-Handed :
      (slept more : Bool) (results : List (Option L)) (a : A)
      → let (a', rest, over) = poll appender slept more results a in
        Handed a results (a', rest) × (over ≡ slept)
  unfolding poll
  poll-Handed true more results a = (nothing a a results refl, refl)
  poll-Handed false more results a = (hand_over-Handed more results a, refl)
