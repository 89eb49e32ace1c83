-- ===== src/Compression/Safety.antt =====
-- rolling_file.rs: no death of the process loses an archived log.
use witchcraft_rust_server.Common.{
  ℕ, suc, ◌≡◌, refl, sym, ap, ◌∙◌, Option, none, some, [], ◌∷◌, ◌++◌, take, drop, ◌⊎◌, inl, inr,
  append-nil, append_assoc, take-append-drop,
}
use witchcraft_rust_server.Http.{Text}
use witchcraft_rust_server.Compression.{
  Files, Encoder, Answer, works, fails, Stage, open_source, create_target, copy, rename_target,
  remove_source, ended, compress, rotate, clear_tmp_files, restart_compression, Reach, archived,
  stepped, died, restarted, copy_chunk,
}

-- What `GzipEncoder` is relied on for: its bytes, up to those of `shutdown`, decode to the bytes that
-- it was given. `input` and `output` are these bytes up to now.
pub record EncoderLaws (enc : Encoder) : Type 0 where
  pub decode : Text → Option Text
  pub input : enc.E → Text
  pub output : enc.E → Text
  pub input-new : input enc.new ≡ []
  pub output-new : output enc.new ≡ []
  pub input-write : (e : enc.E) (t : Text) → input (enc.write e t).0 ≡ input e ++ t
  pub output-write :
      (e : enc.E) (t : Text) → output (enc.write e t).0 ≡ output e ++ (enc.write e t).1
  pub decode-shutdown : (e : enc.E) → decode (output e ++ enc.shutdown e) ≡ some (input e)

module _ (enc : Encoder) (laws : EncoderLaws enc) (log : Text) where
  abbrev pub Decodes : Option Text → Type 0
  Decodes none = Unit
  Decodes (some z) = laws.decode z ≡ some log

  -- The archive has the log, and the compressed file, if there is one, decodes to it.
  abbrev pub Kept : Files → Type 0
  Kept f = (f.raw ≡ some log) × Decodes f.gz

  -- The compressed file is there, and decodes to the log.
  abbrev pub Compressed : Files → Type 0
  Compressed f = (z : Text) × (f.gz ≡ some z) × (laws.decode z ≡ some log)

  -- What holds at each stage of `compress`
  abbrev pub Inv : Stage enc → Files → Type 0
  Inv open_source f = Kept f
  Inv (create_target source) f = Kept f × (source ≡ log)
  Inv (copy source e) f = Kept f × (f.tmp ≡ some (laws.output e)) × (laws.input e ++ source ≡ log)
  Inv rename_target f = Kept f × ((z : Text) × (f.tmp ≡ some z) × (laws.decode z ≡ some log))
  Inv remove_source f = Kept f × Compressed f
  Inv ended f = Kept f ⊎ (Compressed f × (f.raw ≡ none))

  pub Inv-Kept : (s : Stage enc) (f : Files) → Inv s f → Kept f ⊎ (Compressed f × (f.raw ≡ none))
  Inv-Kept open_source f k = inl k
  Inv-Kept (create_target source) f k = inl k.0
  Inv-Kept (copy source e) f k = inl k.0
  Inv-Kept rename_target f k = inl k.0
  Inv-Kept remove_source f k = inl k.0
  Inv-Kept ended f k = k

  pub copy_chunk-Inv :
      (n : ℕ) (source : Text) (e : enc.E) (f : Files)
      → Inv (copy source e) f
      → Inv (copy_chunk enc n source e f).0 (copy_chunk enc n source e f).1
  copy_chunk-Inv n [] e f (k, o, i) = (
    k,
    (
      laws.output e ++ enc.shutdown e,
      rw o refl,
      laws.decode-shutdown e ∙ ap some (sym (append-nil (laws.input e)) ∙ i),
    ),
  )
  copy_chunk-Inv n (b ∷ bs) e f (k, o, i) =
      let chunk : Text = take (suc n) (b ∷ bs) in
      let rest : Text = drop (suc n) (b ∷ bs) in
      (
        k,
        rw o (ap some (sym (laws.output-write e chunk))),
        ap (λ x. x ++ rest) (laws.input-write e chunk)
            ∙ append_assoc (laws.input e) chunk rest
            ∙ ap (λ x. laws.input e ++ x) (take-append-drop (suc n) (b ∷ bs))
            ∙ i,
      )

  pub compress-Inv :
      (a : Answer) (s : Stage enc) (f : Files)
      → Inv s f
      → Inv (compress enc a s f).0 (compress enc a s f).1
  unfolding compress
  compress-Inv a ended f k = k
  compress-Inv (works n) open_source f k = rw k.0 ((refl, k.1), refl)
  compress-Inv (works n) (create_target source) f (k, e) =
      (k, ap some (sym laws.output-new), ap (λ x. x ++ source) laws.input-new ∙ e)
  compress-Inv (works n) (copy source e) f k = copy_chunk-Inv n source e f k
  compress-Inv (works n) rename_target f (k, (z, e, d)) = rw e ((k.0, d), (z, refl, d))
  compress-Inv (works n) remove_source f (k, c) = inr (c, refl)
  compress-Inv (fails junk) open_source f k = inl k
  compress-Inv (fails junk) (create_target source) f k = inl k.0
  compress-Inv (fails junk) (copy source e) f k = inl k.0
  compress-Inv (fails junk) rename_target f k = inl k.0
  compress-Inv (fails junk) remove_source f k = inl k.0

  pub restart-Inv :
      (f : Files)
      → Kept f ⊎ (Compressed f × (f.raw ≡ none))
      → Inv
          (restart_compression enc (clear_tmp_files enc f)).0
          (restart_compression enc (clear_tmp_files enc f)).1
  unfolding restart_compression clear_tmp_files
  restart-Inv f (inl k) = rw k.0 (refl, k.1)
  restart-Inv f (inr k) = rw k.1 (inr (k.0, refl))

  -- Each stage finds its files, in any history.
  pub Reach-Inv : {s : Stage enc} {f : Files} → Reach enc log s f → Inv s f
  unfolding rotate
  Reach-Inv (archived f n) = (refl, rw n (record {}))
  Reach-Inv (stepped {s = s} {f = f} a r) = compress-Inv a s f (Reach-Inv r)
  Reach-Inv (died {s = s} {f = f} r) = Inv-Kept s f (Reach-Inv r)
  Reach-Inv (restarted {s = s} {f = f} r) = restart-Inv f (Inv-Kept s f (Reach-Inv r))
