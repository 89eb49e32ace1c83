-- ===== src/Http.antt =====
-- Text, and the bodies of requests and responses as the crate `http-body` has them. Text is a list of
-- bytes. A `HeaderMap` of trailers is opaque here, and has the type of text.
use Prim.Native.String.{String}
use Prim.Native.Char.{code}
use witchcraft_rust_server.Common.{
  ◌≡◌, refl, arith, ℕ, Bool, true, false, ◌&&◌, ◌||◌, List, [], ◌∷◌, if◌then◌else◌, ltb, ◌==◌,
}

abbrev pub Text : Type 0
Text = List ℕ

abbrev pub eq_text : Text → Text → Bool
eq_text [] [] = true
eq_text [] (b ∷ bs) = false
eq_text (a ∷ as') [] = false
eq_text (a ∷ as') (b ∷ bs) = a == b && eq_text as' bs

pub eq_text_refl : (t : Text) → eq_text t t ≡ true
eq_text_refl [] = refl
eq_text_refl (a ∷ t) = grind (arith, eq_text_refl t)

pub eq_text→eq : (s t : Text) → eq_text s t ≡ true → s ≡ t
eq_text→eq [] [] h = refl
eq_text→eq [] (b ∷ t) h = ground arith
eq_text→eq (a ∷ s) [] h = ground arith
eq_text→eq (a ∷ s) (b ∷ t) h = grind (arith, eq_text→eq s t)

-- The order of `str`, byte by byte
unfoldable pub leb_text : Text → Text → Bool
leb_text [] bs = true
leb_text (a ∷ as') [] = false
leb_text (a ∷ as') (b ∷ bs) = if ltb a b then true else (a == b && leb_text as' bs)

abbrev pub any {ℓ} : {A : Type ℓ} → (A → Bool) → List A → Bool
any p [] = false
any p (x ∷ xs) = p x || any p xs

pub data Frame : Type 0 where
  data_frame : Text → Frame
  trailers : Text → Frame

-- `Poll<Option<Result<Frame<Bytes>, E>>>`
pub data Polled : Type 0 where
  pending : Polled
  ended : Polled
  failed : Polled
  framed : Frame → Polled

pub record Body : Type 1 where
  pub B : Type 0
  pub poll_frame : B → B × Polled
  pub is_end_stream : B → Bool

-- The bytes of a literal, which are ASCII in the source
abbrev pub text : String → Text
text String.[] = []
text (String.◌∷◌ c s) = code c ∷ text s
