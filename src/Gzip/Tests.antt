-- ===== src/Gzip/Tests.antt =====
-- Runs of gzip.rs, with an encoder that stores and a body that is a list of chunks.
use witchcraft_rust_server.Common.{
  ◌≡◌, refl, sym, true, false, none, some, List, [], ◌∷◌, ◌++◌, append-nil, append_assoc, is_empty,
  arith,
}
use witchcraft_rust_server.Http.{Text, data_frame, trailers, Polled, ended, framed, Body}
use witchcraft_rust_server.Gzip.{compressing, Encoder, done, poll_frame}
use witchcraft_rust_server.Gzip.Headers.{can_gzip, gzip, Response, call, min_size}
use witchcraft_rust_server.Gzip.Content.{
  bytes, BodyLaws, EncoderLaws, Runs, starts, polls, poll_frame-decodes,
}

-- What was taken, and the buffer
abbrev stored : Encoder
stored = record {
  E = Text × Text;
  new = ([], []);
  write_all = λ (t, b) d. (t, b ++ d);
  flush = λ e. e;
  try_finish = λ e. e;
  buffer = λ (t, b). b;
  split = λ (t, b). (t ++ b, []);
}

stored_laws : EncoderLaws stored
stored_laws = record {
  decode = λ t. some t;
  written = λ (t, b). t ++ b;
  taken = λ (t, b). t;
  new_written = refl;
  new_taken = refl;
  write_written = λ (t, b) d. sym (append_assoc t b d);
  write_taken = λ e d. refl;
  flush_written = λ e. refl;
  flush_taken = λ e. refl;
  split_written = λ (t, b). append-nil (t ++ b);
  split_taken = λ e. refl;
  finish_taken = λ e. refl;
  finish_decode = λ e. refl;
}

abbrev next_chunk : List Text → List Text × Polled
next_chunk [] = ([], ended)
next_chunk (d ∷ ds) = (ds, framed (data_frame d))

abbrev chunks : Body
chunks = record { B = List Text; poll_frame = next_chunk; is_end_stream = is_empty }

abbrev Ended : List Text → Type 0
Ended b = b ≡ []

chunks_end : (b : List Text) → is_empty b ≡ true → b ≡ []
chunks_end [] h = refl
chunks_end (d ∷ ds) h = ground arith

chunks_after : (b : List Text) → (next_chunk b).1 ≡ ended → (next_chunk b).0 ≡ []
chunks_after [] h = refl
chunks_after (d ∷ ds) h = ground arith

chunks_trailers :
    (b : List Text) (t : Text) → (next_chunk b).1 ≡ framed (trailers t) → (next_chunk b).0 ≡ []
chunks_trailers [] t h = refl
chunks_trailers (d ∷ ds) t h = ground arith

chunks_stay : (b : List Text) → b ≡ [] → (next_chunk b).0 ≡ []
chunks_stay [] h = refl
chunks_stay (d ∷ ds) h = ground arith

chunks_nothing : (b : List Text) → b ≡ [] → bytes (next_chunk b).1 ≡ []
chunks_nothing [] h = refl
chunks_nothing (d ∷ ds) h = ground arith

chunks_laws : BodyLaws chunks Ended
chunks_laws = record {
  end_stream = chunks_end;
  after_end = chunks_after;
  after_trailers = chunks_trailers;
  stays = chunks_stay;
  nothing = chunks_nothing;
}

run : Runs chunks stored ((1 ∷ []) ∷ (2 ∷ []) ∷ []) done [] (1 ∷ 2 ∷ []) (1 ∷ 2 ∷ [])
unfolding poll_frame
run = polls (polls starts (λ h. ground arith)) (λ h. ground arith)

end : (poll_frame chunks stored done []).2 ≡ ended
unfolding poll_frame
end = refl

poll_frame-decodes_example : stored_laws.decode (1 ∷ 2 ∷ []) ≡ some (1 ∷ 2 ∷ [])
poll_frame-decodes_example = poll_frame-decodes chunks stored Ended chunks_laws stored_laws run end

-- "gzip;q=0.5" is accepted, "gzip;q=0" is not.
accepted :
    can_gzip (some (b'g' ∷ b'z' ∷ b'i' ∷ b'p' ∷ b';' ∷ b'q' ∷ b'=' ∷ b'0' ∷ b'.' ∷ b'5' ∷ []))
    ≡ true
unfolding can_gzip
accepted = refl

refused :
    can_gzip (some (b'g' ∷ b'z' ∷ b'i' ∷ b'p' ∷ b';' ∷ b' ' ∷ b'q' ∷ b'=' ∷ b'0' ∷ [])) ≡ false
unfolding can_gzip
refused = refl

-- "gzip;q=0.000"
zero_weight :
    can_gzip (
      some (b'g' ∷ b'z' ∷ b'i' ∷ b'p' ∷ b';' ∷ b'q' ∷ b'=' ∷ b'0' ∷ b'.' ∷ b'0' ∷ b'0' ∷ b'0' ∷ []))
    ≡ true
unfolding can_gzip
zero_weight = refl

abbrev large : Response
large = record {
  upper = some min_size;
  content_encoding = none;
  content_type = none;
  content_length = some [];
}

large-call :
    call chunks stored true (some gzip) large
    ≡ (record large { content_length = none; content_encoding = some gzip }, compressing stored.new)
unfolding call
large-call = refl
