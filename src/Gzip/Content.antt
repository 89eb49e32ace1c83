-- ===== src/Gzip/Content.antt =====
-- gzip.rs: what a compressed body decodes to.
use witchcraft_rust_server.Common.{
  is_empty-nil, ◌≡◌, ◌≢◌, refl, sym, ap, true, Option, some, [], ◌++◌, is_empty, Bool-cases, inl,
  inr, ◌∙◌, subst, subst⁻¹, append-nil, arith, if◌then◌else◌,
}
use witchcraft_rust_server.Http.{
  Text, data_frame, trailers, Polled, pending, ended, failed, framed, Body,
}
use witchcraft_rust_server.Gzip.{
  Encoder, State, compressing, last, done, poll_frame, compress, take,
}

abbrev pub bytes : Polled → Text
bytes (framed (data_frame d)) = d
bytes _ = []

-- What the crate `http-body` says of a body: after its end, or its trailers, nothing comes.
pub record BodyLaws (body : Body) (Ended : body.B → Type 0) : Type 0 where
  pub end_stream : (b : body.B) → body.is_end_stream b ≡ true → Ended b
  pub after_end : (b : body.B) → (body.poll_frame b).1 ≡ ended → Ended (body.poll_frame b).0
  pub after_trailers :
      (b : body.B) (t : Text)
      → (body.poll_frame b).1 ≡ framed (trailers t)
      → Ended (body.poll_frame b).0
  pub stays : (b : body.B) → Ended b → Ended (body.poll_frame b).0
  pub nothing : (b : body.B) → Ended b → bytes (body.poll_frame b).1 ≡ []

-- What the crate `flate2` says of an encoder: a finished output decodes to what was written.
-- `taken` is what `split` has taken out so far.
pub record EncoderLaws (enc : Encoder) : Type 0 where
  pub decode : Text → Option Text
  pub written : enc.E → Text
  pub taken : enc.E → Text
  pub new_written : written enc.new ≡ []
  pub new_taken : taken enc.new ≡ []
  pub write_written : (e : enc.E) (d : Text) → written (enc.write_all e d) ≡ written e ++ d
  pub write_taken : (e : enc.E) (d : Text) → taken (enc.write_all e d) ≡ taken e
  pub flush_written : (e : enc.E) → written (enc.flush e) ≡ written e
  pub flush_taken : (e : enc.E) → taken (enc.flush e) ≡ taken e
  pub split_written : (e : enc.E) → written (enc.split e) ≡ written e
  pub split_taken : (e : enc.E) → taken (enc.split e) ≡ taken e ++ enc.buffer e
  pub finish_taken : (e : enc.E) → taken (enc.try_finish e) ≡ taken e
  pub finish_decode :
      (e : enc.E)
      → decode (taken (enc.try_finish e) ++ enc.buffer (enc.try_finish e)) ≡ some (written e)

module _ (body : Body) (enc : Encoder) where
  compress-done :
      (e : enc.E) (b : body.B) (a : Polled)
      → (compress body enc e b a).2 ≡ ended
      → (compress body enc e b a).0 ≡ done
  compress-done e b pending h = ground arith
  compress-done e b ended h = ground arith
  compress-done e b failed h = ground arith
  compress-done e b (framed (data_frame d)) h = ground arith
  compress-done e b (framed (trailers x)) h = ground arith

  -- The inner bytes that a poll reads
  abbrev pub reads : State body enc → body.B → Text
  reads (last f) b = []
  reads _ b = bytes (body.poll_frame b).1

  -- Polls without an error, with the bytes read from the inner body and those given out
  pub data Runs (start : body.B) : State body enc → body.B → Text → Text → Type 0 where
    starts : Runs start (compressing enc.new) start [] []
    polls :
        {s : State body enc} {b : body.B} {i o : Text}
        → Runs start s b i o
        → (poll_frame body enc s b).2 ≢ failed
        → Runs start
            (poll_frame body enc s b).0
            (poll_frame body enc s b).1
            (i ++ reads s b)
            (o ++ bytes (poll_frame body enc s b).2)

  module _ (Ended : body.B → Type 0) (bl : BodyLaws body Ended) (el : EncoderLaws enc) where
    abbrev Inv : State body enc → body.B → Text → Text → Type 0
    Inv (compressing e) b i o = (el.written e ≡ i) × (el.taken e ≡ o)
    Inv (last f) b i o = (bytes (framed f) ≡ []) × (el.decode o ≡ some i) × Ended b
    Inv done b i o = (el.decode o ≡ some i) × Ended b

    Inv-new : (b : body.B) → Inv (compressing enc.new) b [] []
    Inv-new b = (el.new_written, el.new_taken)

    abbrev After : State body enc × body.B × Polled → Text → Text → Type 0
    After (s, b, a) i o = Inv s b i (o ++ bytes a)

    finish-decode :
        (e : enc.E) (i o : Text)
        → el.written e ≡ i
        → el.taken e ≡ o
        → el.decode (o ++ enc.buffer (enc.try_finish e)) ≡ some i
    finish-decode e i o w t =
        ap (λ x. el.decode (x ++ enc.buffer (enc.try_finish e))) (sym t ∙ sym (el.finish_taken e))
        ∙ (el.finish_decode e ∙ ap some w)

    compress-data :
        (e : enc.E) (b : body.B) (d i o : Text)
        → el.written e ≡ i
        → el.taken e ≡ o
        → After (compress body enc e b (framed (data_frame d))) (i ++ d) o
    compress-data e b d i o w t =
        let e' = enc.write_all e d in
        let w' = el.write_written e d ∙ ap (λ x. x ++ d) w in
        let t' = el.write_taken e d ∙ t in
        let finished = take body enc (λ _. done) (enc.try_finish e') b in
        let flushed = take body enc compressing (enc.flush e') b in
        elim (Bool-cases (body.is_end_stream b)) [
          | inl h ↦
              subst⁻¹ (λ c. After (if c then finished else flushed) (i ++ d) o) h
                (finish-decode e' (i ++ d) o w' t', bl.end_stream b h)
          | inr h ↦
              subst⁻¹ (λ c. After (if c then finished else flushed) (i ++ d) o) h
                (
                  el.split_written (enc.flush e') ∙ (el.flush_written e' ∙ w'),
                  el.split_taken (enc.flush e')
                      ∙ ap (λ x. x ++ enc.buffer (enc.flush e')) (el.flush_taken e' ∙ t'),
                )
        ]

    -- What is left where the finished encoder has nothing more to give
    finish-empty :
        (e : enc.E) (i o : Text)
        → el.written e ≡ i
        → el.taken e ≡ o
        → is_empty (enc.buffer (enc.try_finish e)) ≡ true
        → el.decode (o ++ []) ≡ some (i ++ [])
    finish-empty e i o w t h =
        ap (λ x. el.decode (o ++ x)) (sym (is_empty-nil (enc.buffer (enc.try_finish e)) h))
        ∙ (finish-decode e i o w t ∙ ap some (sym (append-nil i)))

    finish-full :
        (e : enc.E) (i o : Text)
        → el.written e ≡ i
        → el.taken e ≡ o
        → el.decode (o ++ enc.buffer (enc.try_finish e)) ≡ some (i ++ [])
    finish-full e i o w t = finish-decode e i o w t ∙ ap some (sym (append-nil i))

    compress-trailers :
        (e : enc.E) (b : body.B) (x i o : Text)
        → Ended b
        → el.written e ≡ i
        → el.taken e ≡ o
        → After (compress body enc e b (framed (trailers x))) (i ++ []) o
    compress-trailers e b x i o k w t =
        let full = take body enc (λ _. last (trailers x)) (enc.try_finish e) b in
        let empty : State body enc × body.B × Polled = (done, b, framed (trailers x)) in
        elim (Bool-cases (is_empty (enc.buffer (enc.try_finish e)))) [
          | inl h ↦
              subst⁻¹ (λ c. After (if c then empty else full) (i ++ []) o) h
                (finish-empty e i o w t h, k)
          | inr h ↦
              subst⁻¹ (λ c. After (if c then empty else full) (i ++ []) o) h
                (refl, finish-full e i o w t, k)
        ]

    compress-ended :
        (e : enc.E) (b : body.B) (i o : Text)
        → Ended b
        → el.written e ≡ i
        → el.taken e ≡ o
        → After (compress body enc e b ended) (i ++ []) o
    compress-ended e b i o k w t =
        let full = take body enc (λ _. done) (enc.try_finish e) b in
        let empty : State body enc × body.B × Polled = (done, b, ended) in
        elim (Bool-cases (is_empty (enc.buffer (enc.try_finish e)))) [
          | inl h ↦
              subst⁻¹ (λ c. After (if c then empty else full) (i ++ []) o) h
                (finish-empty e i o w t h, k)
          | inr h ↦
              subst⁻¹ (λ c. After (if c then empty else full) (i ++ []) o) h
                (finish-full e i o w t, k)
        ]

    compress-After :
        (e : enc.E) (b : body.B) (a : Polled) (i o : Text)
        → el.written e ≡ i
        → el.taken e ≡ o
        → (a ≡ ended → Ended b)
        → ((x : Text) → a ≡ framed (trailers x) → Ended b)
        → (compress body enc e b a).2 ≢ failed
        → After (compress body enc e b a) (i ++ bytes a) o
    compress-After e b pending i o w t k l n = (w ∙ sym (append-nil i), t ∙ sym (append-nil o))
    compress-After e b ended i o w t k l n = compress-ended e b i o (k refl) w t
    compress-After e b failed i o w t k l n = absurd (n refl)
    compress-After e b (framed (data_frame d)) i o w t k l n = compress-data e b d i o w t
    compress-After e b (framed (trailers x)) i o w t k l n =
        compress-trailers e b x i o (l x refl) w t

    poll_frame-Inv :
        (s : State body enc) (b : body.B) (i o : Text)
        → Inv s b i o
        → (poll_frame body enc s b).2 ≢ failed
        → After (poll_frame body enc s b) (i ++ reads s b) o
    unfolding poll_frame
    poll_frame-Inv (compressing e) b i o (w, t) n =
        compress-After e (body.poll_frame b).0 (body.poll_frame b).1 i o w t (bl.after_end b)
          (bl.after_trailers b) n
    poll_frame-Inv (last f) b i o (z, d, k) n = (
      ap (λ x. el.decode (o ++ x)) z
          ∙ (ap el.decode (append-nil o) ∙ (d ∙ ap some (sym (append-nil i)))),
      k,
    )
    poll_frame-Inv done b i o (d, k) n =
        let z = bl.nothing b k in
        (
          ap (λ x. el.decode (o ++ x)) z
              ∙ (ap el.decode (append-nil o)
                  ∙ (d ∙ ap some (sym (ap (λ x. i ++ x) z ∙ append-nil i)))),
          bl.stays b k,
        )

    Runs-Inv :
        {start : body.B} {s : State body enc} {b : body.B} {i o : Text}
        → Runs start s b i o
        → Inv s b i o
    Runs-Inv {start} starts = Inv-new start
    Runs-Inv (polls {s = s} {b = b} {i = i} {o = o} r n) = poll_frame-Inv s b i o (Runs-Inv r) n

    ended-done :
        (s : State body enc) (b : body.B)
        → (poll_frame body enc s b).2 ≡ ended
        → (poll_frame body enc s b).0 ≡ done
    unfolding poll_frame
    ended-done (compressing e) b h = compress-done e (body.poll_frame b).0 (body.poll_frame b).1 h
    ended-done (last f) b h = refl
    ended-done done b h = refl

    ended-not_failed : (a : Polled) → a ≡ ended → a ≢ failed
    ended-not_failed a h k = ground arith

    -- When the compressed body answers its end, and no poll has failed before, the bytes that it
    -- has given out decode to the bytes that it has read from the inner body.
    pub poll_frame-decodes :
        {start : body.B} {s : State body enc} {b : body.B} {i o : Text}
        → Runs start s b i o
        → (poll_frame body enc s b).2 ≡ ended
        → el.decode o ≡ some (i ++ reads s b)
    poll_frame-decodes {s = s} {b = b} {i = i} {o = o} r h =
        let inv = Runs-Inv (polls r (ended-not_failed _ h)) in
        let d =
          (subst
            (λ x.
              Inv x (poll_frame body enc s b).1 (i ++ reads s b)
                (o ++ bytes (poll_frame body enc s b).2))
            (ended-done s b h) inv).0 in
        ap el.decode (sym (ap (λ a. o ++ bytes a) h ∙ append-nil o)) ∙ d
