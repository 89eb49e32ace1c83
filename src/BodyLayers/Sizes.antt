-- ===== src/BodyLayers/Sizes.antt =====
-- request_log.rs: the sizes in the request log are those of the bytes that went through the bodies.
use witchcraft_rust_server.Common.{ℕ, ◌+◌, ◌-◌, ◌^◌, ◌≤◌, ◌≡◌, refl, ◌∙◌, List, [], ◌∷◌, arith}
use witchcraft_rust_server.Http.{Polled, Body}
use witchcraft_rust_server.BodyLayers.{
  Exchange, remaining, safe_long, poll_request, poll_response, logged_sizes,
}

abbrev total : List Polled → ℕ
total [] = 0
total (p ∷ ps) = remaining p + total ps

module _ (request response : Body) where
  -- Any order of polls of the two bodies, with the answers of each, the last first
  pub data Polls (b1 : request.B) (b2 : response.B)
      : Exchange request.B response.B → List Polled → List Polled → Type 0 where
    begins :
        Polls b1 b2
          (record { request = b1; response = b2; request_size = 0; response_size = 0 })
          []
          []
    requested :
        {x : Exchange request.B response.B} {ps qs : List Polled}
        → Polls b1 b2 x ps qs
        → Polls b1 b2
            (poll_request request response x).0
            ((poll_request request response x).1 ∷ ps)
            qs
    responded :
        {x : Exchange request.B response.B} {ps qs : List Polled}
        → Polls b1 b2 x ps qs
        → Polls b1 b2
            (poll_response request response x).0
            ps
            ((poll_response request response x).1 ∷ qs)

  Polls-total :
      {b1 : request.B} {b2 : response.B} {x : Exchange request.B response.B} {ps qs : List Polled}
      → Polls b1 b2 x ps qs
      → (x.request_size ≡ total ps) × (x.response_size ≡ total qs)
  unfolding poll_request poll_response
  Polls-total begins = (refl, refl)
  Polls-total (requested {x = x} {ps = ps} {qs = qs} p) =
      let (e, f) = Polls-total p in (omega (arith, e), f)
  Polls-total (responded {x = x} {ps = ps} {qs = qs} p) =
      let (e, f) = Polls-total p in (e, omega (arith, f))

  safe_long_lem : (n : ℕ) → n ≤ 2 ^ 53 - 1 → safe_long n ≡ n
  unfolding safe_long
  safe_long_lem n h = ground arith

  -- In any order of polls of the bodies of a request and its response, the sizes in the request log
  -- are the numbers of the bytes that each has given, where these are numbers of a SafeLong.
  pub logged_sizes-Polls :
      {b1 : request.B} {b2 : response.B} {x : Exchange request.B response.B} {ps qs : List Polled}
      → Polls b1 b2 x ps qs
      → total ps ≤ 2 ^ 53 - 1
      → total qs ≤ 2 ^ 53 - 1
      → logged_sizes request response x ≡ (total ps, total qs)
  unfolding logged_sizes
  logged_sizes-Polls {x = x} p h k =
      let (e, f) = Polls-total p in
      let first = safe_long_lem x.request_size (omega (arith, e)) ∙ e in
      let second = safe_long_lem x.response_size (omega (arith, f)) ∙ f in λ i. (first i, second i)
