-- ===== src/Readiness/Tests.antt =====
-- Runs of the readiness checks, where another thread registers the second check after the first clone
-- of the map.
use witchcraft_rust_server.Common.{
  ℕ, ◌≡◌, ◌≢◌, refl, Bool, true, false, none, some, List, [], ◌∷◌, is_some, inl, inr, ◌⊎◌, ◌==◌,
  Mem, arith,
}
use witchcraft_rust_server.Http.{Text}
use witchcraft_rust_server.Assoc.{lookup}
use witchcraft_rust_server.Readiness.{Metadata, register, World, run_checks, serialize_status}
use witchcraft_rust_server.Readiness.Rounds.{run_checks-returns, AreKnown}
use witchcraft_rust_server.Readiness.Complete.{OnlyOthers, Stays, run_checks_complete}

-- A world is whether the second check is registered.
abbrev checks_of : Bool → List (Text × ℕ)
checks_of false = (65 ∷ [], 1) ∷ []
checks_of true = (65 ∷ [], 1) ∷ (66 ∷ [], 2) ∷ []

abbrev world : World ℕ
world = record {
  W = Bool;
  checks = checks_of;
  result = λ check w. (true, check == 1);
  others = λ w. true;
}

abbrev results : List (Text × Metadata)
results =
    (65 ∷ [], record { type_ = 65 ∷ []; successful = true })
    ∷ (66 ∷ [], record { type_ = 66 ∷ []; successful = false })
    ∷ []

late_check : run_checks world 3 false ≡ some (true, results)
unfolding run_checks
late_check = refl

not_ready : serialize_status results ≡ 503
unfolding serialize_status
not_ready = refl

register_twice : register {C = ℕ} (λ t. true) (λ c. 65 ∷ []) 1 ((65 ∷ [], 7) ∷ []) ≡ none
unfolding register
register_twice = refl

checks_known : (w : Bool) → AreKnown world ((65 ∷ []) ∷ (66 ∷ []) ∷ []) (checks_of w)
checks_known false t c (inl e) = inl (cc)
checks_known false t c (inr m) = elim m [ ]
checks_known true t c (inl e) = inl (cc)
checks_known true t c (inr (inl e)) = inr (inl cc)
checks_known true t c (inr (inr m)) = elim m [ ]

run_checks-returns_example : run_checks world 3 false ≢ none
run_checks-returns_example =
    run_checks-returns world ((65 ∷ []) ∷ (66 ∷ []) ∷ []) 3 false checks_known (omega arith)

stays_registered : (w : Bool) (x : Text × ℕ) → Mem x (checks_of w) → Mem x (checks_of true)
stays_registered false x (inl e) = inl e
stays_registered false x (inr m) = elim m [ ]
stays_registered true x m = m

stays : Stays world
stays = record {
  while_running = λ c w x m. stays_registered w x m;
  while_others = stays_registered;
}

run_checks_complete_example :
    (v : Bool) × OnlyOthers world v true
    × ((type_ : Text) (check : ℕ)
        → (Mem (type_, check) (checks_of false)) ⊎ (Mem (type_, check) (checks_of v))
        → is_some (lookup type_ results) ≡ true)
run_checks_complete_example = run_checks_complete world stays 3 false true results late_check
