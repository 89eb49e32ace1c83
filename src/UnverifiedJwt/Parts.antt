-- ===== src/UnverifiedJwt/Parts.antt =====
-- unverified_jwt.rs: a token has three parts.
use witchcraft_rust_server.Common.{
  ◌≡◌, ◌↔◌, refl, sym, ap, ◌∙◌, subst, Option, none, some, List, [], ◌∷◌, ◌++◌, drop, length, ◌==◌,
  Bool-cases, inl, inr, All, arith,
}
use witchcraft_rust_server.Http.{Text}
use witchcraft_rust_server.Split.{split, join}
use witchcraft_rust_server.Split.Parts.{Without, split-cases, split-Without, split-append}
use witchcraft_rust_server.UnverifiedJwt.{dot, ◌>>=◌, Readers, parse_parts, parse}

module _ {Jwt : Type 0} (readers : Readers Jwt) where
  abbrev pub IsToken : Text → Jwt → Type 0
  IsToken s jwt =
      (header : Text) × (payload : Text) × (signature : Text) × Without dot header
      × Without dot payload
      × Without dot signature
      × (s ≡ header ++ (dot ∷ (payload ++ (dot ∷ signature))))
      × ((readers.decode payload >>= readers.from_slice) ≡ some jwt)

  parse_parts-three :
      (parts : List Text) (jwt : Jwt)
      → parse_parts readers parts ≡ some jwt
      → (payload : Text) × (signature : Text) × (parts ≡ payload ∷ signature ∷ [])
        × ((readers.decode payload >>= readers.from_slice) ≡ some jwt)
  parse_parts-three [] jwt h = absurd (ground arith)
  parse_parts-three (payload ∷ []) jwt h = absurd (ground arith)
  parse_parts-three (payload ∷ signature ∷ []) jwt h = (payload, signature, refl, h)
  parse_parts-three (payload ∷ signature ∷ p ∷ ps) jwt h =
      elim (Bool-cases (length (signature ∷ p ∷ ps) == 1)) [
        | inl e ↦ absurd (ground arith)
        | inr e ↦ absurd (let k : ◌≡◌ {A = Option Jwt} none (some jwt) = rw e at h in ground arith)
      ]

  parse-IsToken : (s : Text) (jwt : Jwt) → parse readers s ≡ some jwt → IsToken s jwt
  unfolding parse
  parse-IsToken s jwt h =
      let (part, parts, e, a, j) = split-cases dot s in
      let (payload, signature, q, d) =
        parse_parts-three parts jwt (ap (λ x. parse_parts readers (drop 1 x)) (sym e) ∙ h) in
      let (n, (m, (k, u))) = subst (λ x. All (Without dot) (part ∷ x)) q a in
      (part, payload, signature, n, m, k, sym (subst (λ x. join dot (part ∷ x) ≡ s) q j), d)

  IsToken-parse : (s : Text) (jwt : Jwt) → IsToken s jwt → parse readers s ≡ some jwt
  unfolding parse
  IsToken-parse s jwt (header, payload, signature, n, m, k, e, d) =
      let rest : Text = payload ++ (dot ∷ signature) in
      let parts : split dot s ≡ header ∷ payload ∷ signature ∷ [] =
        ap (split dot) e
        ∙ split-append dot header rest n
        ∙ ap (λ x. header ∷ x)
            (split-append dot payload signature m
              ∙ ap (λ x. payload ∷ x) (split-Without dot signature k)) in
      ap (λ x. parse_parts readers (drop 1 x)) parts ∙ d

  -- A text is read as a token exactly where it has three parts between two dots, and the one in the
  -- middle decodes to it.
  pub parse_iff : (s : Text) (jwt : Jwt) → (parse readers s ≡ some jwt) ↔ IsToken s jwt
  parse_iff s jwt = (parse-IsToken s jwt, IsToken-parse s jwt)
