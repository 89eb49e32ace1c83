-- ===== src/FileBytes/Delivery.antt =====
-- witchcraft-server/src/logging/logger/rolling_file.rs: `FileBytesSink` keeps the laws of a byte
-- sink, so a buffer over it puts every byte into the file.
use witchcraft_rust_server.Common.{
  ℕ, suc, zero, false, ◌≤◌, ◌<◌, ◌≡◌, refl, ap, ◌∙◌, List, [], ◌∷◌, ◌++◌, length, drop, length-drop,
  take-append-drop, append_assoc, append-nil, arith,
}
use witchcraft_rust_server.Poll.{Result, ok, err, Poll, pending, ready, SinkLaws, is_err}
use witchcraft_rust_server.FileBytes.{
  Write, not_yet, failed, wrote, File, FileLaws, FileBytesSink, flush_file, after_write, write_all,
  poll_flush, start_send, file_bytes_sink,
}

module _ {F A E : Type 0} (file : File F A E) (laws : FileLaws file) where
  -- The bytes that the file has taken, then those still to be written.
  unfoldable pub accepted : FileBytesSink F A → List A
  accepted s = laws.written s.file ++ s.rest

  -- A property of the three answers of a write holds of the round.
  after_write-cases {ℓ} :
      (P : FileBytesSink F A × Poll (Result E) → Type ℓ) (f : F) {buf : List A} (w : Write E buf)
      (again : (n : ℕ) → 0 < n → n ≤ length buf → FileBytesSink F A × Poll (Result E))
      → (w ≡ not_yet → P (record { file = f; rest = buf }, pending))
      → ((e : E) → w ≡ failed e → P (record { file = f; rest = buf }, ready (err e)))
      → ((n : ℕ) (p : 0 < n) (q : n ≤ length buf) → w ≡ wrote n p q → P (again n p q))
      → P (after_write file f w again)
  unfolding after_write
  after_write-cases P f not_yet again a b c = a refl
  after_write-cases P f (failed e) again a b c = b e refl
  after_write-cases P f (wrote n p q) again a b c = c n p q refl

  flush_file-accepted :
      (f : F)
      → is_err (flush_file file f).1 ≡ false
      → accepted (flush_file file f).0 ≡ laws.written f ++ []
  unfolding accepted flush_file
  flush_file-accepted f ok_end = rw (laws.written-poll_flush f ok_end)

  write_all-accepted :
      (fuel : ℕ) (f : F) (rest : List A) (h : length rest ≤ fuel)
      → is_err (write_all file fuel f rest h).1 ≡ false
      → accepted (write_all file fuel f rest h).0 ≡ laws.written f ++ rest
  unfolding write_all accepted
  write_all-accepted zero f [] h ok_end = flush_file-accepted f ok_end
  write_all-accepted zero f (b ∷ rest) h ok_end = absurd (omega arith)
  write_all-accepted (suc fuel) f [] h ok_end = flush_file-accepted f ok_end
  write_all-accepted (suc fuel) f (b ∷ rest) h ok_end =
      let buf = b ∷ rest in
      let f' = (file.poll_write f buf).0 in
      after_write-cases (λ r. is_err r.1 ≡ false → accepted r.0 ≡ laws.written f ++ buf) f'
        (file.poll_write f buf).1 _ (λ e _. ap (λ c. c ++ buf) (laws.written-not_yet f buf e))
        (λ x e k. cc)
        (λ n p q e k.
          write_all-accepted fuel f' (drop n buf) (omega (arith, length-drop n buf)) k
          ∙ rw (laws.written-wrote f buf n p q e, append_assoc, take-append-drop))
        ok_end

  -- A flush that succeeds has emptied the chunk.
  write_all_ok :
      (fuel : ℕ) (f : F) (rest : List A) (h : length rest ≤ fuel)
      → (write_all file fuel f rest h).1 ≡ ready ok
      → (write_all file fuel f rest h).0.rest ≡ []
  unfolding write_all flush_file
  write_all_ok zero f [] h e = refl
  write_all_ok zero f (b ∷ rest) h e = absurd (omega arith)
  write_all_ok (suc fuel) f [] h e = refl
  write_all_ok (suc fuel) f (b ∷ rest) h ok_end =
      after_write-cases (λ r. r.1 ≡ ready ok → r.0.rest ≡ []) (file.poll_write f (b ∷ rest)).0
        (file.poll_write f (b ∷ rest)).1 _ (λ _ e. cc) (λ _ _ e. cc)
        (λ n p q _. write_all_ok fuel _ (drop n (b ∷ rest)) _) ok_end

  -- And the file then holds all that it has taken.
  write_all-content :
      (fuel : ℕ) (f : F) (rest : List A) (h : length rest ≤ fuel)
      → (write_all file fuel f rest h).1 ≡ ready ok
      → laws.content (write_all file fuel f rest h).0.file
        ≡ laws.written (write_all file fuel f rest h).0.file
  unfolding write_all flush_file
  write_all-content zero f [] h e = laws.content-poll_flush f e
  write_all-content zero f (b ∷ rest) h e = absurd (omega arith)
  write_all-content (suc fuel) f [] h e = laws.content-poll_flush f e
  write_all-content (suc fuel) f (b ∷ rest) h ok_end =
      after_write-cases (λ r. r.1 ≡ ready ok → laws.content r.0.file ≡ laws.written r.0.file)
        (file.poll_write f (b ∷ rest)).0 (file.poll_write f (b ∷ rest)).1 _ (λ _ e. cc)
        (λ _ _ e. cc) (λ n p q _. write_all-content fuel _ (drop n (b ∷ rest)) _) ok_end

  pub poll_flush-accepted :
      (s : FileBytesSink F A)
      → is_err (poll_flush file s).1 ≡ false
      → accepted (poll_flush file s).0 ≡ accepted s
  unfolding poll_flush accepted
  poll_flush-accepted s h = write_all-accepted (length s.rest) s.file s.rest _ h

  poll_flush-content :
      (s : FileBytesSink F A)
      → (poll_flush file s).1 ≡ ready ok
      → laws.content (poll_flush file s).0.file ≡ laws.written (poll_flush file s).0.file
  unfolding poll_flush
  poll_flush-content s h = write_all-content (length s.rest) s.file s.rest _ h

  pub poll_flush-empties :
      (s : FileBytesSink F A) → (poll_flush file s).1 ≡ ready ok → (poll_flush file s).0.rest ≡ []
  unfolding poll_flush
  poll_flush-empties s = write_all_ok (length s.rest) s.file s.rest _

  pub start_send-accepted :
      (s : FileBytesSink F A) (item : List A)
      → s.rest ≡ []
      → (start_send file s item).1 ≡ ok
      → accepted (start_send file s item).0 ≡ accepted s ++ item
  unfolding start_send accepted
  start_send-accepted s item r e = rw (r, append-nil (laws.written s.file))

  pub accepted_of_flushed :
      (s : FileBytesSink F A)
      → (poll_flush file s).1 ≡ ready ok
      → accepted (poll_flush file s).0 ≡ laws.content (poll_flush file s).0.file
  unfolding accepted
  accepted_of_flushed s h = rw (poll_flush-empties s h, poll_flush-content s h) (append-nil _)

  -- `FileBytesSink` keeps the laws of a byte sink.
  unfoldable pub file_bytes_sink-laws : SinkLaws (file_bytes_sink file)
  unfolding file_bytes_sink
  file_bytes_sink-laws = record {
    IsReady = λ s. s.rest ≡ [];
    accepted = accepted;
    ready_when_ok = poll_flush-empties;
    accepted-poll_ready = poll_flush-accepted;
    accepted-start_send = start_send-accepted;
    accepted-poll_flush = poll_flush-accepted;
    accepted-poll_close = poll_flush-accepted;
  }
