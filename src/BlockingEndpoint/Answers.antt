-- ===== src/BlockingEndpoint/Answers.antt =====
-- blocking/conjure.rs: the head of the response to a request, and a body that does not stream.
use witchcraft_rust_server.Common.{
  ℕ, ◌≡◌, refl, ap, ◌∙◌, Bool, true, false, Option, none, some, List, [], ◌∷◌, if◌then◌else◌,
  Bool-cases, inl, inr,
}
use witchcraft_rust_server.Http.{Text, data_frame, ended, eq_text, framed}
use witchcraft_rust_server.Assoc.{insert, lookup}
use witchcraft_rust_server.Assoc.Keys.{Distinct}
use witchcraft_rust_server.Assoc.Lookup.{lookup-eq_text, lookup-insert_at}
use witchcraft_rust_server.BlockingEndpoint.{
  Channel, Handled, Response, ServerBody, State, blocking, empty, empty_body, extend, fixed_body,
  handle, is_end_stream, new_body, panicked, poll_frame, refused, returned, send_response,
  streaming, streaming_body,
}

abbrev pub or_else : Option Text → Option Text → Option Text
or_else (some v) d = some v
or_else none d = d

lookup_fresh :
    (k : Text) (v : Text) (key : Text) (more : List (Text × Text)) (d : Option Text)
    → lookup k more ≡ none
    → or_else (lookup key more) (if eq_text k key then some v else d)
      ≡ or_else (if eq_text k key then some v else lookup key more) d
lookup_fresh k v key more d h = elim (Bool-cases (eq_text k key)) [
  | inl e ↦ rw (e, lookup-eq_text k key more e, h) refl
  | inr e ↦ rw e refl
]

-- The extensions that are added count before those that were there.
lookup-extend :
    (key : Text) (more m : List (Text × Text))
    → Distinct more
    → lookup key (extend m more) ≡ or_else (lookup key more) (lookup key m)
unfolding extend
lookup-extend key [] m d = refl
lookup-extend key ((k, v) ∷ more) m (n, d) =
    lookup-extend key more (insert k v m) d
    ∙ ap (or_else (lookup key more)) (lookup-insert_at k key v m)
    ∙ lookup_fresh k v key more (lookup key m) n

module _ {W : Type 0} where
  -- What a poll of the body answers, and what is left to write it: of a body that streams, all is left.
  abbrev pub Delivers : Channel → ServerBody W → State → Option W → Type 0
  Delivers c empty_body b writer =
      (writer ≡ none) × (is_end_stream b ≡ true) × (poll_frame b c ≡ (b, c, ended))
  Delivers c (fixed_body bytes) b writer =
      (writer ≡ none)
      × (is_end_stream b ≡ false)
      × (poll_frame b c ≡ (empty, c, framed (data_frame bytes)))
      × (poll_frame empty c ≡ (empty, c, ended))
  Delivers c (streaming_body w) b writer = (writer ≡ some w) × (b ≡ streaming true)

  new_body-Delivers :
      (c : Channel) (body : ServerBody W) → Delivers c body (new_body body).0 (new_body body).1
  unfolding new_body is_end_stream poll_frame
  new_body-Delivers c empty_body = (refl, refl, refl)
  new_body-Delivers c (fixed_body bytes) = (refl, refl, refl, refl)
  new_body-Delivers c (streaming_body w) = (refl, refl)

  -- A response with no body and no extensions of its own
  abbrev pub bare : ℕ → Response (ServerBody W)
  bare status = record { status = status; extensions = []; body = empty_body }

  -- This response of the endpoint is given to the client, with these extensions beside it.
  abbrev pub Gives :
      Response (ServerBody W)
      → List (Text × Text)
      → Text
      → Channel
      → Option (Response State × Option W)
      → Type 0
  Gives r exts key c none = ⊥
  Gives r exts key c (some (response, writer)) =
      (response.status ≡ r.status)
      × (lookup key response.extensions ≡ or_else (lookup key exts) (lookup key r.extensions))
      × Delivers c r.body response.body writer

  abbrev pub GivesOrPanics :
      Option (Response (ServerBody W))
      → List (Text × Text)
      → Text
      → Channel
      → Option (Response State × Option W)
      → Type 0
  GivesOrPanics none exts key c answer = answer ≡ none
  GivesOrPanics (some r) exts key c answer = Gives r exts key c answer

  send_response-Gives :
      {Err : Type 0} (to_response : Err → Option (Response (ServerBody W)))
      (o : Option (Response (ServerBody W))) (exts : List (Text × Text)) (key : Text) (c : Channel)
      → Distinct exts
      → GivesOrPanics o exts key c (send_response to_response o exts)
  send_response-Gives to_response none exts key c d = refl
  send_response-Gives to_response (some r) exts key c d =
      (refl, lookup-extend key exts r.extensions d, new_body-Delivers c r.body)

module _ {W Err : Type 0} where
  -- What the client is answered
  abbrev pub Answered :
      (Err → Option (Response (ServerBody W)))
      → Bool
      → Bool
      → Handled W Err
      → List (Text × Text)
      → Text
      → Channel
      → Option (Response State × Option W)
      → Type 0
  Answered to_response false runs handled exts key c answer = Gives (bare 503) [] key c answer
  Answered to_response true false handled exts key c answer = answer ≡ none
  Answered to_response true true (returned r) exts key c answer = Gives r exts key c answer
  Answered to_response true true (refused e) exts key c answer =
      GivesOrPanics (to_response e) exts key c answer
  Answered to_response true true panicked exts key c answer = Gives (bare 500) exts key c answer

  -- The answer to a request. Where the pool has no room: 503, without extensions, with a body that ends
  -- at once. Where the pool takes the job and drops it, or the response for an error panics: the panic
  -- is resumed. Else the status is that of the endpoint's response, or of the one for its error, or 500
  -- with an empty body where the endpoint panicked; each extension that the endpoint set beside the
  -- response counts before the response's own; and the body gives the bytes of a fixed one in one frame
  -- and then ends, or ends at once, or is left to its writer, as that response says.
  pub handle-Answered :
      (to_response : Err → Option (Response (ServerBody W))) (accepted runs : Bool)
      (handled : Handled W Err) (exts : List (Text × Text)) (key : Text) (c : Channel)
      → Distinct exts
      → Answered to_response accepted runs handled exts key c
          (handle to_response accepted runs handled exts)
  unfolding handle blocking
  handle-Answered to_response false runs handled exts key c d =
      (refl, refl, new_body-Delivers c empty_body)
  handle-Answered to_response true false handled exts key c d = refl
  handle-Answered to_response true true (returned r) exts key c d =
      send_response-Gives to_response (some r) exts key c d
  handle-Answered to_response true true (refused e) exts key c d =
      send_response-Gives to_response (to_response e) exts key c d
  handle-Answered to_response true true panicked exts key c d =
      send_response-Gives to_response (some (bare 500)) exts key c d
