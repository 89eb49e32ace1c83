-- ===== src/RequestId/Hex.antt =====
-- request_id.rs: the text of an id reads back as the id.
use witchcraft_rust_server.Common.{
  ℕ, ◌+◌, ◌-◌, ◌*◌, ◌/◌, ◌%◌, ◌<◌, ◌≡◌, refl, [], ◌∷◌, length, if◌then◌else◌, ltb, All, arith,
}
use witchcraft_rust_server.Http.{Text}
use witchcraft_rust_server.RequestId.{hex_digit, fmt}

abbrev pub value : ℕ → ℕ
value c = if ltb c 58 then c - 48 else c - 87

-- Reading hexadecimal digits, two for a byte
unfoldable pub read_hex : Text → Text
read_hex [] = []
read_hex (c ∷ []) = []
read_hex (c ∷ d ∷ t) = (16 * value c + value d) ∷ read_hex t

value-hex_digit : (d : ℕ) → d < 16 → value (hex_digit d) ≡ d
value-hex_digit d h = ground arith

byte_halves : (b : ℕ) → b < 256 → 16 * value (hex_digit (b / 16)) + value (hex_digit (b % 16)) ≡ b
byte_halves b h =
    let high = value-hex_digit (b / 16) (omega arith) in
    let low = value-hex_digit (b % 16) (omega arith) in omega (arith, high, low)

length-fmt : (id : Text) → length (fmt id) ≡ 2 * length id
unfolding fmt
length-fmt [] = refl
length-fmt (b ∷ id) = omega (arith, length-fmt id)

read_hex-fmt_lem : (id : Text) → All (λ b. b < 256) id → read_hex (fmt id) ≡ id
unfolding fmt read_hex
read_hex-fmt_lem [] h = refl
read_hex-fmt_lem (b ∷ id) (h, a) = rw (byte_halves b h, read_hex-fmt_lem id a) refl

-- The text of an id of eight bytes has sixteen characters, and reads back as the id; so no two ids
-- have one text.
pub read_hex-fmt :
    (id : Text)
    → length id ≡ 8
    → All (λ b. b < 256) id
    → (length (fmt id) ≡ 16) × (read_hex (fmt id) ≡ id)
read_hex-fmt id l a = (omega (arith, length-fmt id), read_hex-fmt_lem id a)
