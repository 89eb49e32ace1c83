-- ===== src/Gzip/Negotiation.antt =====
-- gzip.rs: the headers of a response that is compressed.
use witchcraft_rust_server.Common.{
  Bool, true, false, ◌&&◌, Bool-cases, ap, sym, ◌∙◌, ◌≡◌, Option, none, some, arith, inl, inr,
  Option-cases,
}
use witchcraft_rust_server.Http.{Text, Body}
use witchcraft_rust_server.Gzip.{State, done, Encoder, compressing}
use witchcraft_rust_server.Gzip.Headers.{Response, call, can_gzip, should_gzip, gzip}

should_gzip-encoded :
    (response : Response) → should_gzip response ≡ true → response.content_encoding ≡ none
unfolding should_gzip
should_gzip-encoded response h = elim (Option-cases response.content_encoding) [
  | inl n ↦ n
  | inr (x, n) ↦ ground arith
]

module _ (body : Body) (enc : Encoder) where
  is_done : State body enc → Bool
  is_done done = true
  is_done _ = false

  not_compressing :
      (r out : Response) (e : enc.E)
      → ◌≡◌ {A = Response × State body enc} (r, done) (out, compressing e)
      → ⊥
  unfolding is_done
  not_compressing r out e h = let d = ap (λ p. is_done p.1) h in ground arith

  call-done :
      (enabled : Bool) (accept_encoding : Option Text) (response : Response)
      → should_gzip response ≡ false
      → call body enc enabled accept_encoding response ≡ (response, done)
  unfolding call
  call-done enabled accept_encoding response t =
      let b = enabled && can_gzip accept_encoding in
      elim (Bool-cases b) [ inl u ↦ ground arith | inr u ↦ ground arith ]

  -- Where the body of a response is compressed, the response was not encoded before, the request
  -- accepts gzip, and the response says that it is encoded with gzip and no longer tells a length.
  pub call-negotiated :
      (enabled : Bool) (accept_encoding : Option Text) (response out : Response) (e : enc.E)
      → call body enc enabled accept_encoding response ≡ (out, compressing e)
      → (response.content_encoding ≡ none)
        × (can_gzip accept_encoding ≡ true)
        × (out.content_length ≡ none)
        × (out.content_encoding ≡ some gzip)
  unfolding call
  call-negotiated enabled accept_encoding response out e h =
      elim (Bool-cases (should_gzip response)) [
        | inl t ↦ (should_gzip-encoded response t, ground arith, ground arith, ground arith)
        | inr t ↦ absurd (
            not_compressing response out e (sym (call-done enabled accept_encoding response t) ∙ h))
      ]
