-- ===== src/RequestId.antt =====
-- witchcraft-server/src/service/request_id.rs: the text of the id of a request, which the logs show. An
-- id is a list of eight bytes.
pub mod Hex
mod Tests
use witchcraft_rust_server.Common.{ℕ, ◌+◌, ◌/◌, ◌%◌, List, [], ◌∷◌, if◌then◌else◌, ltb}
use witchcraft_rust_server.Http.{Text}

-- A digit of `{:02x}`
abbrev pub hex_digit : ℕ → ℕ
hex_digit d = if ltb d 10 then 48 + d else 87 + d

-- `RequestId::fmt`
unfoldable pub fmt : Text → Text
fmt [] = []
fmt (b ∷ id) = hex_digit (b / 16) ∷ hex_digit (b % 16) ∷ fmt id
