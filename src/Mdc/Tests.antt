-- ===== src/Mdc/Tests.antt =====
-- Runs of two requests on one thread; an MDC is a number, which the inner service counts up.
use witchcraft_rust_server.Common.{ℕ, zero, suc, ◌+◌, ◌≡◌, refl, Option, none, some, List, [], ◌∷◌}
use witchcraft_rust_server.Http.{ended}
use witchcraft_rust_server.Mdc.{
  Inner, streaming, closed, Event, arrives, dropped, polled, Server, serve, handle,
}
use witchcraft_rust_server.Mdc.Isolation.{alone, drop_all, dropped_on, serve-isolates}

-- The future is the number of the polls that are left.
abbrev countdown : ℕ → ℕ → ℕ × ℕ × Option ℕ
countdown zero m = (0, m + 1, some m)
countdown (suc n) m = (n, m + 1, none)

abbrev counter : Inner ℕ
counter = record {
  Req = ℕ;
  F = ℕ;
  B = ℕ;
  call = λ req m. (req, m + 10);
  poll = countdown;
  drop = λ f m. m + 1;
  poll_frame = λ b m. (b, m + 1, ended);
  drop_body = λ b m. m + b;
}

abbrev idle : Server counter 0
idle = record { requests = λ i. closed; threads = λ t. 100 }

abbrev events : List (ℕ × ℕ × Event counter 0)
events =
    (1, 7, arrives 0)
    ∷ (2, 7, arrives 1)
    ∷ (1, 7, polled)
    ∷ (2, 8, polled)
    ∷ (2, 7, polled)
    ∷ (1, 8, polled)
    ∷ (1, 7, dropped)
    ∷ []

second_streams :
    (serve counter 0 events idle).requests 2 ≡ streaming (record { inner = 11; snapshot = 12 })
unfolding serve handle
second_streams = refl

-- The destructor of the first body writes to the MDC of the thread.
body-leaks : (serve counter 0 events idle).threads 7 ≡ 110
unfolding serve handle
body-leaks = refl

serve-isolates_example :
    ((serve counter 0 events idle).requests 2 ≡ alone counter 0 2 events closed)
    × ((serve counter 0 events idle).threads 7
        ≡ drop_all counter 0 (dropped_on counter 0 7 events (λ i. closed)) 100)
serve-isolates_example = serve-isolates counter 0 events idle 2 7
