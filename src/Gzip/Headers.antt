-- ===== src/Gzip/Headers.antt =====
-- witchcraft-server/src/service/gzip.rs: which responses are compressed, by their headers and those
-- of the request. A header that `to_str` refuses is none here where the code treats it so.
use witchcraft_rust_server.Common.{
  ℕ, ◌+◌, Bool, true, false, not, ◌&&◌, ◌||◌, Option, none, some, List, [], ◌∷◌, if◌then◌else◌, ltb,
  leb, ◌==◌, is_empty, is_some,
}
use witchcraft_rust_server.Http.{Text, eq_text, any, Body}
use witchcraft_rust_server.Gzip.{Encoder, State, compressing, done}

abbrev is_space : ℕ → Bool
is_space c = (c == 32) || (c == 9)

abbrev trim_start : Text → Text
trim_start [] = []
trim_start (c ∷ cs) = let rest = trim_start cs in if is_space c then rest else c ∷ cs

abbrev trim_end : Text → Text
trim_end [] = []
trim_end (c ∷ cs) = let rest = trim_end cs in if is_space c && is_empty rest then [] else c ∷ rest

abbrev trim : Text → Text
trim t = trim_end (trim_start t)

-- The text before a byte, and the text after it where it occurs: `splitn(2, c)`
abbrev split_once : ℕ → Text → Text × Option Text
split_once c [] = ([], none)
split_once c (d ∷ ds) = let (a, r) = split_once c ds in if d == c then ([], some ds) else (d ∷ a, r)

abbrev split : ℕ → Text → Text × List Text
split c [] = ([], [])
split c (d ∷ ds) = let (a, r) = split c ds in if d == c then ([], a ∷ r) else (d ∷ a, r)

abbrev lower : ℕ → ℕ
lower c = if leb 65 c && leb c 90 then c + 32 else c

abbrev eq_ignore_ascii_case : Text → Text → Bool
eq_ignore_ascii_case [] [] = true
eq_ignore_ascii_case [] (b ∷ bs) = false
eq_ignore_ascii_case (a ∷ as') [] = false
eq_ignore_ascii_case (a ∷ as') (b ∷ bs) = lower a == lower b && eq_ignore_ascii_case as' bs

abbrev pub gzip : Text
gzip = b'g' ∷ b'z' ∷ b'i' ∷ b'p' ∷ []

-- "q=0" | "q=0." | "q=0.0" | "q=0.00" | "q=000"
abbrev is_refusal : Text → Bool
is_refusal w =
    eq_text w (b'q' ∷ b'=' ∷ b'0' ∷ [])
    || eq_text w (b'q' ∷ b'=' ∷ b'0' ∷ b'.' ∷ [])
    || eq_text w (b'q' ∷ b'=' ∷ b'0' ∷ b'.' ∷ b'0' ∷ [])
    || eq_text w (b'q' ∷ b'=' ∷ b'0' ∷ b'.' ∷ b'0' ∷ b'0' ∷ [])
    || eq_text w (b'q' ∷ b'=' ∷ b'0' ∷ b'0' ∷ b'0' ∷ [])

abbrev is_gzip_coding : Text → Bool
is_gzip_coding coding = eq_ignore_ascii_case coding gzip || eq_text coding (b'*' ∷ [])

abbrev accepts : Text × Option Text → Bool
accepts (_, none) = true
accepts (_, some weight) = not (is_refusal (trim weight))

unfoldable pub can_gzip_items : List Text → Bool
can_gzip_items [] = false
can_gzip_items (item ∷ items) =
    let rest = can_gzip_items items in
    let parts = split_once b';' item in
    if is_gzip_coding (trim parts.0) then accepts parts else rest

abbrev items_of : Text → List Text
items_of t = let (a, r) = split b',' t in a ∷ r

-- The value of Accept-Encoding, where there is one that is text
unfoldable pub can_gzip : Option Text → Bool
unfolding can_gzip_items
can_gzip none = false
can_gzip (some accept_encoding) = can_gzip_items (items_of accept_encoding)

abbrev pub min_size : ℕ
min_size = 1048576

-- A response: the upper bound of the size of its body, and the headers that the layer looks at.
pub record Response : Type 0 where
  pub upper : Option ℕ
  pub content_encoding : Option Text
  pub content_type : Option Text
  pub content_length : Option Text

abbrev pub starts_with : Text → Text → Bool
starts_with [] t = true
starts_with (p ∷ ps) [] = false
starts_with (p ∷ ps) (c ∷ cs) = p == c && starts_with ps cs

abbrev is_small : Option ℕ → Bool
is_small none = false
is_small (some s) = ltb s min_size

abbrev excluded_content_type_prefixes : List Text
excluded_content_type_prefixes =
    (b'v' ∷ b'i' ∷ b'd' ∷ b'e' ∷ b'o' ∷ b'/' ∷ [])
    ∷ (b'a' ∷ b'u' ∷ b'd' ∷ b'i' ∷ b'o' ∷ b'/' ∷ [])
    ∷ (b'i' ∷ b'm' ∷ b'a' ∷ b'g' ∷ b'e' ∷ b'/' ∷ [])
    ∷ (b'a' ∷ b'p' ∷ b'p' ∷ b'l' ∷ b'i' ∷ b'c' ∷ b'a' ∷ b't' ∷ b'i' ∷ b'o' ∷ b'n' ∷ b'/' ∷ b'b'
        ∷ b'z' ∷ b'i' ∷ b'p' ∷ b'2' ∷ [])
    ∷ (b'a' ∷ b'p' ∷ b'p' ∷ b'l' ∷ b'i' ∷ b'c' ∷ b'a' ∷ b't' ∷ b'i' ∷ b'o' ∷ b'n' ∷ b'/' ∷ b'b'
        ∷ b'r' ∷ b'o' ∷ b't' ∷ b'l' ∷ b'i' ∷ [])
    ∷ (b'a' ∷ b'p' ∷ b'p' ∷ b'l' ∷ b'i' ∷ b'c' ∷ b'a' ∷ b't' ∷ b'i' ∷ b'o' ∷ b'n' ∷ b'/' ∷ b'x'
        ∷ b'-' ∷ b'r' ∷ b'a' ∷ b'r' ∷ b'-' ∷ b'c' ∷ b'o' ∷ b'm' ∷ b'p' ∷ b'r' ∷ b'e' ∷ b's' ∷ b's'
        ∷ b'e' ∷ b'd' ∷ [])
    ∷ (b'a' ∷ b'p' ∷ b'p' ∷ b'l' ∷ b'i' ∷ b'c' ∷ b'a' ∷ b't' ∷ b'i' ∷ b'o' ∷ b'n' ∷ b'/' ∷ b'g'
        ∷ b'z' ∷ b'i' ∷ b'p' ∷ [])
    ∷ (b'a' ∷ b'p' ∷ b'p' ∷ b'l' ∷ b'i' ∷ b'c' ∷ b'a' ∷ b't' ∷ b'i' ∷ b'o' ∷ b'n' ∷ b'/' ∷ b'c'
        ∷ b'o' ∷ b'm' ∷ b'p' ∷ b'r' ∷ b'e' ∷ b's' ∷ b's' ∷ [])
    ∷ (b'a' ∷ b'p' ∷ b'p' ∷ b'l' ∷ b'i' ∷ b'c' ∷ b'a' ∷ b't' ∷ b'i' ∷ b'o' ∷ b'n' ∷ b'/' ∷ b'z'
        ∷ b'i' ∷ b'p' ∷ [])
    ∷ (b'a' ∷ b'p' ∷ b'p' ∷ b'l' ∷ b'i' ∷ b'c' ∷ b'a' ∷ b't' ∷ b'i' ∷ b'o' ∷ b'n' ∷ b'/' ∷ b'x'
        ∷ b'-' ∷ b'x' ∷ b'z' ∷ [])
    ∷ []

unfoldable is_excluded : Option Text → Bool
is_excluded none = false
is_excluded (some content_type) =
    any (λ p. starts_with p content_type) excluded_content_type_prefixes

unfoldable pub should_gzip : Response → Bool
unfolding is_excluded
should_gzip response =
    if is_small response.upper
    then false
    else if is_some response.content_encoding
    then false
    else if is_excluded response.content_type
    then false
    else true

module _ (body : Body) (enc : Encoder) where
  -- `GzipService::call`, from the response of the inner service on
  unfoldable pub call : Bool → Option Text → Response → Response × State body enc
  unfolding can_gzip should_gzip
  call enabled accept_encoding response =
      if (enabled && can_gzip accept_encoding) && should_gzip response
      then (
        record response { content_length = none; content_encoding = some gzip },
        compressing enc.new,
      )
      else (response, done)
