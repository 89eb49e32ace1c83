-- ===== src/GaugeReporter/Tests.antt =====
-- Two gauges in flight, of which one has taken too long; and results that go to a queue of one place.
use witchcraft_rust_server.Common.{
  ℕ, ◌≡◌, ◌≤◌, ◌⊎◌, refl, true, false, none, some, List, [], ◌∷◌, ◌++◌, map, arith,
}
use witchcraft_rust_server.GaugeReporter.{
  Found, GaugeReporter, Reach, acquiring, id_of, insert, inserts, member, new, poll, poll_running,
  polls, running, starts, then_step,
}
use witchcraft_rust_server.GaugeReporter.InFlight.{NoDup, gauges_in_flight, holders}
use witchcraft_rust_server.GaugeReporter.Idle as Idle
use witchcraft_rust_server.GaugeReporter.Idle.{Appender, Ready, hand_over, is_ready, not_ready}
use witchcraft_rust_server.GaugeReporter.Idle.Handed.{AppenderLaws}

abbrev slow : Found
slow = record { granted = true; too_long = true; ended = false }

abbrev flying : GaugeReporter
flying = record { ids = 8 ∷ 7 ∷ []; results = acquiring 8 1 ∷ running 7 false ∷ []; permits = 2 }

flying-Reach : Reach flying
unfolding new insert member poll poll_running
flying-Reach =
    then_step
      (then_step (then_step starts (inserts 7 0))
        (polls [] [] (acquiring 7 0) slow refl (λ e. (1, refl))))
      (inserts 8 1)

gauges_in_flight_example :
    NoDup (map id_of flying.results)
    × (holders flying.results ≤ 2)
    × (((member 7 (map id_of flying.results) ≡ true) × (insert 7 0 flying ≡ (flying, false)))
        ⊎ ((member 7 (map id_of flying.results) ≡ false)
            × ((insert 7 0 flying).1 ≡ true)
            × ((insert 7 0 flying).0.results ≡ acquiring 7 0 ∷ flying.results)))
gauges_in_flight_example = gauges_in_flight 7 0 flying-Reach

-- A queue that is ready while it is empty, and takes what it is sent
abbrev ready_of : List ℕ → Ready
ready_of [] = is_ready
ready_of (x ∷ xs) = not_ready

abbrev queue : Appender (List ℕ) ℕ
queue = record { poll_ready = λ a. (a, ready_of a); start_send = λ a log. (a ++ (log ∷ []), true) }

queue_laws : AppenderLaws queue
queue_laws = record {
  taken = λ a. a;
  taken-poll_ready = λ a. refl;
  taken-sent = λ a log e. refl;
  taken-refused = λ a log e. absurd (ground arith);
}

one_place :
    Idle.poll queue false false (none ∷ some 5 ∷ some 6 ∷ []) [] ≡ (5 ∷ [], some 6 ∷ [], false)
unfolding Idle.poll hand_over
one_place = refl
