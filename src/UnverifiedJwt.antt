-- ===== src/UnverifiedJwt.antt =====
-- witchcraft-server/src/service/unverified_jwt.rs: reading the token of a request, without checking
-- its signature. Base64, JSON and `HeaderValue::to_str` are arguments.
pub mod Parts
mod Tests
use witchcraft_rust_server.Common.{
  ℕ, Bool, true, false, ◌≡◌, Option, none, some, List, [], ◌∷◌, drop, length, if◌then◌else◌, ◌==◌,
}
use witchcraft_rust_server.Http.{Text}
use witchcraft_rust_server.Split.{split}

-- "."
abbrev pub dot : ℕ
dot = 46

abbrev pub ◌>>=◌ : {A B : Type 0} → Option A → (A → Option B) → Option B
none >>= f = none
some a >>= f = f a

infix 20 ◌>>=◌
-- `URL_SAFE_NO_PAD.decode`, `serde_json::from_slice` and `to_str`
pub record Readers (Jwt : Type 0) : Type 0 where
  pub decode : Text → Option Text
  pub from_slice : Text → Option Jwt
  pub to_str : Text → Option Text

module _ {Jwt : Type 0} (readers : Readers Jwt) where
  abbrev pub parse_parts : List Text → Option Jwt
  parse_parts [] = none
  parse_parts (payload ∷ it) =
      if length it == 1 then (readers.decode payload >>= readers.from_slice) else none

  unfoldable pub parse : Text → Option Jwt
  unfolding split
  parse s = parse_parts (drop 1 (split dot s))

  -- The extension that `call` gives the request, by the value of its header `Authorization`
  unfoldable pub call : Option Text → Option Jwt
  unfolding parse
  call authorization = (authorization >>= readers.to_str) >>= parse
