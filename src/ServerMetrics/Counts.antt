-- ===== src/ServerMetrics/Counts.antt =====
-- server_metrics.rs, endpoint_metrics.rs: the meters are the numbers of what they stand for.
use witchcraft_rust_server.Common.{
  ℕ, zero, suc, ◌-◌, ◌/◌, ◌≡◌, refl, sym, ap, ◌∙◌, Bool, true, false, ◌&&◌, List, [], ◌∷◌, ◌++◌,
  if◌then◌else◌, length, length-append, ◌==◌, arith,
}
use witchcraft_rust_server.ServerMetrics.{
  Reach, Request, Server, Step, answers, calling, comes, drop_body, drop_guard, is_given_up,
  is_over, is_server_error, mark_at, mark_if, on_request, on_response, reading, starts, then_step,
}

-- How many statuses pass a test
abbrev pub count : (Bool × ℕ → Bool) → List (Bool × ℕ) → ℕ
count p [] = 0
count p (x ∷ xs) = if p x then suc (count p xs) else count p xs

abbrev pub is : ℕ → Bool × ℕ → Bool
is n (tracked, status) = status == n

-- A status of the class with this number, from 1 on
abbrev pub of_class : ℕ → Bool × ℕ → Bool
of_class n (tracked, status) = status / 100 - 1 == n

abbrev pub is_error : Bool × ℕ → Bool
is_error (tracked, status) = tracked && is_server_error status

-- The times of the requests that are tracked
abbrev pub tracked_times : List (Bool × ℕ) → List ℕ
tracked_times [] = []
tracked_times ((true, t) ∷ ts) = t ∷ tracked_times ts
tracked_times ((false, t) ∷ ts) = tracked_times ts

count-snoc :
    (p : Bool × ℕ → Bool) (xs : List (Bool × ℕ)) (x : Bool × ℕ)
    → count p (xs ++ (x ∷ [])) ≡ mark_if (p x) (count p xs)
count-snoc p [] x = ground arith
count-snoc p (y ∷ xs) x = ground (arith, count-snoc p xs x)

tracked_times-snoc :
    (tracked : Bool) (t : ℕ) (ts : List (Bool × ℕ))
    → tracked_times (ts ++ ((tracked, t) ∷ []))
      ≡ (if tracked then tracked_times ts ++ (t ∷ []) else tracked_times ts)
tracked_times-snoc true t [] = refl
tracked_times-snoc false t [] = refl
tracked_times-snoc true t ((true, u) ∷ ts) = ap (λ x. u ∷ x) (tracked_times-snoc true t ts)
tracked_times-snoc false t ((true, u) ∷ ts) = ap (λ x. u ∷ x) (tracked_times-snoc false t ts)
tracked_times-snoc true t ((false, u) ∷ ts) = tracked_times-snoc true t ts
tracked_times-snoc false t ((false, u) ∷ ts) = tracked_times-snoc false t ts

abbrev pub classes : List (Bool × ℕ) → List ℕ
classes xs =
    count (of_class 0) xs
    ∷ count (of_class 1) xs
    ∷ count (of_class 2) xs
    ∷ count (of_class 3) xs
    ∷ count (of_class 4) xs
    ∷ []

mark_at-classes :
    (i a b c d e : ℕ)
    → mark_at i (a ∷ b ∷ c ∷ d ∷ e ∷ [])
      ≡ mark_if (i == 0) a
        ∷ mark_if (i == 1) b
        ∷ mark_if (i == 2) c
        ∷ mark_if (i == 3) d
        ∷ mark_if (i == 4) e
        ∷ []
unfolding mark_at
mark_at-classes zero a b c d e = refl
mark_at-classes (suc zero) a b c d e = refl
mark_at-classes (suc (suc zero)) a b c d e = refl
mark_at-classes (suc (suc (suc zero))) a b c d e = refl
mark_at-classes (suc (suc (suc (suc zero)))) a b c d e = refl
mark_at-classes (suc (suc (suc (suc (suc i))))) a b c d e = ground arith

classes-snoc :
    (tracked : Bool) (status : ℕ) (xs : List (Bool × ℕ))
    → mark_at (status / 100 - 1) (classes xs) ≡ classes (xs ++ ((tracked, status) ∷ []))
classes-snoc tracked status xs =
    let x : Bool × ℕ = (tracked, status) in
    mark_at-classes (status / 100 - 1) (count (of_class 0) xs) (count (of_class 1) xs)
      (count (of_class 2) xs) (count (of_class 3) xs) (count (of_class 4) xs)
    ∙ sym (
        rw
          (
            count-snoc (of_class 0) xs x,
            count-snoc (of_class 1) xs x,
            count-snoc (of_class 2) xs x,
            count-snoc (of_class 3) xs x,
            count-snoc (of_class 4) xs x,
          )
          refl)

-- The meters of a server, by what its requests have left behind
pub record Counted (s : Server) : Type 0 where
  pub active : s.metrics.request_active ≡ length s.requests
  pub all : s.metrics.response_all ≡ length s.statuses
  pub unmatched : s.metrics.request_unmatched ≡ count (is 404) s.statuses
  pub by_class : s.metrics.response_xxx ≡ classes s.statuses
  pub internal : s.metrics.response_500 ≡ count (is 500) s.statuses
  pub errors : s.metrics.response_error ≡ count is_error s.statuses
  pub timed : s.metrics.response ≡ tracked_times s.times

length-replace :
    (before after : List Request) (r q : Request)
    → length (before ++ (r ∷ after)) ≡ length (before ++ (q ∷ after))
length-replace [] after r q = refl
length-replace (b ∷ before) after r q = ap suc (length-replace before after r q)

length-remove :
    (before after : List Request) (r : Request)
    → length (before ++ (r ∷ after)) ≡ suc (length (before ++ after))
length-remove [] after r = refl
length-remove (b ∷ before) after r = ap suc (length-remove before after r)

step-Counted : {s t : Server} → Step s t → Counted s → Counted t
unfolding on_request on_response drop_guard drop_body
step-Counted (comes tracked now) c = record {
  active = omega (arith, c.active);
  all = c.all;
  unmatched = c.unmatched;
  by_class = c.by_class;
  internal = c.internal;
  errors = c.errors;
  timed = c.timed;
}
step-Counted {s} (answers tracked start before after status e) c =
    let x : Bool × ℕ = (tracked, status) in
    record {
      active =
          c.active
          ∙ ap length e
          ∙ length-replace before after (calling tracked start) (reading tracked start);
      all = omega (arith, c.all, length-append s.statuses (x ∷ []));
      unmatched = ap (mark_if (status == 404)) c.unmatched ∙ sym (count-snoc (is 404) s.statuses x);
      by_class =
          ap (mark_at (status / 100 - 1)) c.by_class ∙ classes-snoc tracked status s.statuses;
      internal = ap (mark_if (status == 500)) c.internal ∙ sym (count-snoc (is 500) s.statuses x);
      errors =
          ap (mark_if (tracked && is_server_error status)) c.errors
          ∙ sym (count-snoc is_error s.statuses x);
      timed = c.timed;
    }
step-Counted {s} (is_given_up tracked start before after e) c = record {
  active = omega (arith, c.active, ap length e, length-remove before after (calling tracked start));
  all = c.all;
  unmatched = c.unmatched;
  by_class = c.by_class;
  internal = c.internal;
  errors = c.errors;
  timed = c.timed;
}
step-Counted {s} (is_over tracked start before after now e) c = record {
  active = omega (arith, c.active, ap length e, length-remove before after (reading tracked start));
  all = c.all;
  unmatched = c.unmatched;
  by_class = c.by_class;
  internal = c.internal;
  errors = c.errors;
  timed =
      ap (λ ts. if tracked then ts ++ ((now - start) ∷ []) else ts) c.timed
      ∙ sym (tracked_times-snoc tracked (now - start) s.times);
}

-- In any interleaving of the requests of a server: the counter of active requests is the number of
-- those that have come and are not over, also where one is given up before its response; each response
-- is counted once in all, once in the meter of its class, where this is one of five, and in those of
-- 404, of 500 and of the endpoint's errors exactly where it is one; and the endpoint's timer has the time
-- of each of its requests whose body is dropped, in order.
pub metrics-Counted : {s : Server} → Reach s → Counted s
metrics-Counted starts = record {
  active = refl;
  all = refl;
  unmatched = refl;
  by_class = refl;
  internal = refl;
  errors = refl;
  timed = refl;
}
metrics-Counted (then_step r st) = step-Counted st (metrics-Counted r)
