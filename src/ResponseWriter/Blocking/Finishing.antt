-- ===== src/ResponseWriter/Blocking/Finishing.antt =====
-- blocking/body.rs: a response that is finished has all its bytes.
use witchcraft_rust_server.Common.{
  ◌≡◌, refl, sym, ap, ◌∙◌, subst, List, [], ◌∷◌, ◌++◌, ltb, length, is_empty, append-nil,
  append_assoc, arith, Bool-cases, inl, inr, is_empty-nil,
}
use witchcraft_rust_server.Http.{Text, Frame, data_frame}
use witchcraft_rust_server.Poll.{Result, ok, err}
use witchcraft_rust_server.ResponseWriter.{ResponseWriter}
use witchcraft_rust_server.ResponseWriter.Writing.{bytes_of}
use witchcraft_rust_server.ResponseWriter.Blocking.{
  BodyPart, frame, body_done, Sender, then?, feed_part, send_part, flush_sender, flush_shallow,
  send_inner, finish, extend_buf, write, flush,
}

-- A part that the channel takes is behind the parts before it.
pub record SenderLaws {S E : Type 0} (tx : Sender S E) : Type 0 where
  pub received : S → List BodyPart
  pub received-feed :
      (s : S) (part : BodyPart)
      → (tx.feed s part).1 ≡ ok
      → received (tx.feed s part).0 ≡ received s ++ (part ∷ [])
  pub received-send :
      (s : S) (part : BodyPart)
      → (tx.send s part).1 ≡ ok
      → received (tx.send s part).0 ≡ received s ++ (part ∷ [])
  pub received-flush : (s : S) → received (tx.flush s).0 ≡ received s

-- The parts are frames, with these bytes.
abbrev pub FramesOf : List BodyPart → Text → Type 0
FramesOf [] out = out ≡ []
FramesOf (body_done ∷ parts) out = ⊥
FramesOf (frame f ∷ parts) out = (rest : Text) × (out ≡ bytes_of f ++ rest) × FramesOf parts rest

FramesOf-append :
    (parts : List BodyPart) (f : Frame) (out : Text)
    → FramesOf parts out
    → FramesOf (parts ++ (frame f ∷ [])) (out ++ bytes_of f)
FramesOf-append [] f out e = ([], rw e (sym (append-nil (bytes_of f))), refl)
FramesOf-append (body_done ∷ parts) f out e = absurd e
FramesOf-append (frame g ∷ parts) f out (rest, e, h) = (
  rest ++ bytes_of f,
  rw e (append_assoc (bytes_of g) rest (bytes_of f)),
  FramesOf-append parts f rest h,
)

module _ {S E : Type 0} (tx : Sender S E) (laws : SenderLaws tx) where
  -- The channel has frames whose bytes, with those of the buffer, are these.
  abbrev pub Inv : Text → ResponseWriter S → Type 0
  Inv out w = (sent : Text) × (sent ++ w.buf ≡ out) × FramesOf (laws.received w.sender) sent

  abbrev Kept : Text → ResponseWriter S × Result E → Type 0
  Kept out (w, ok) = Inv out w × (w.buf ≡ [])
  Kept out (w, err e) = Unit {0}

  abbrev KeptAny : Text → ResponseWriter S × Result E → Type 0
  KeptAny out (w, ok) = Inv out w
  KeptAny out (w, err e) = Unit {0}

  Kept-result :
      (out : Text) (w : ResponseWriter S) (r : Result E)
      → (r ≡ ok → Inv out w × (w.buf ≡ []))
      → Kept out (w, r)
  Kept-result out w ok h = h refl
  Kept-result out w (err e) h = tt

  feed_part-Kept :
      (f : Frame) (out : Text) (w : ResponseWriter S)
      → FramesOf (laws.received w.sender) out
      → w.buf ≡ []
      → Kept (out ++ bytes_of f) (feed_part tx (frame f) w)
  feed_part-Kept f out w h b =
      Kept-result (out ++ bytes_of f) (feed_part tx (frame f) w).0 (tx.feed w.sender (frame f)).1
        λ k. (
          (
            out ++ bytes_of f,
            ap (λ x. (out ++ bytes_of f) ++ x) b ∙ append-nil (out ++ bytes_of f),
            subst (λ parts. FramesOf parts (out ++ bytes_of f))
                (sym (laws.received-feed w.sender (frame f) k))
                (FramesOf-append (laws.received w.sender) f out h),
          ),
          b,
        )

  flush_shallow-Kept :
      (out : Text) (w : ResponseWriter S) → Inv out w → Kept out (flush_shallow tx w)
  unfolding flush_shallow
  flush_shallow-Kept out w (sent, e, h) = elim (Bool-cases (is_empty w.buf)) [
    | inl t ↦ rw t ((sent, e, h), is_empty-nil w.buf t)
    | inr t ↦ rw t (
        subst (λ o. Kept o (feed_part tx (frame (data_frame w.buf)) (record w { buf = [] }))) e
          (feed_part-Kept (data_frame w.buf) sent (record w { buf = [] }) h refl))
  ]

  -- The bytes sent are all, where the buffer is empty.
  Inv-sent :
      (out : Text) (w : ResponseWriter S)
      → Inv out w
      → w.buf ≡ []
      → FramesOf (laws.received w.sender) out
  Inv-sent out w (sent, e, h) b =
      subst (FramesOf (laws.received w.sender))
        (sym (append-nil sent) ∙ (ap (λ x. sent ++ x) (sym b) ∙ e)) h

  then?-feed :
      (f : Frame) (out : Text) (first : ResponseWriter S × Result E)
      → Kept out first
      → Kept (out ++ bytes_of f) (then? tx first (feed_part tx (frame f)))
  then?-feed f out (w, ok) (i, b) = feed_part-Kept f out w (Inv-sent out w i b) b
  then?-feed f out (w, err e) k = tt

  send_inner-Kept :
      (f : Frame) (out : Text) (w : ResponseWriter S)
      → Inv out w
      → Kept (out ++ bytes_of f) (send_inner tx (frame f) w)
  unfolding send_inner
  send_inner-Kept f out w i = then?-feed f out (flush_shallow tx w) (flush_shallow-Kept out w i)

  extend_buf-Inv :
      (buf out : Text) (w : ResponseWriter S) → Inv out w → Inv (out ++ buf) (extend_buf tx buf w).0
  extend_buf-Inv buf out w (sent, e, h) =
      (sent, sym (append_assoc sent w.buf buf) ∙ ap (λ x. x ++ buf) e, h)

  then?-extend :
      (buf out : Text) (first : ResponseWriter S × Result E)
      → Kept out first
      → KeptAny (out ++ buf) (then? tx first (extend_buf tx buf))
  then?-extend buf out (w, ok) (i, b) = extend_buf-Inv buf out w i
  then?-extend buf out (w, err e) k = tt

  write-KeptAny :
      (buf out : Text) (w : ResponseWriter S) → Inv out w → KeptAny (out ++ buf) (write tx buf w)
  unfolding write
  write-KeptAny buf out w i = elim (Bool-cases (ltb 4096 (length w.buf))) [
    | inl t ↦ rw t (then?-extend buf out (flush_shallow tx w) (flush_shallow-Kept out w i))
    | inr t ↦ rw t (extend_buf-Inv buf out w i)
  ]

  flush_sender-Inv : (out : Text) (w : ResponseWriter S) → Inv out w → Inv out (flush_sender tx w).0
  flush_sender-Inv out w (sent, e, h) =
      (sent, e, subst (λ parts. FramesOf parts sent) (sym (laws.received-flush w.sender)) h)

  KeptAny-any : (out : Text) (w : ResponseWriter S) (r : Result E) → Inv out w → KeptAny out (w, r)
  KeptAny-any out w ok i = i
  KeptAny-any out w (err e) i = tt

  then?-flush :
      (out : Text) (first : ResponseWriter S × Result E)
      → Kept out first
      → KeptAny out (then? tx first (flush_sender tx))
  then?-flush out (w, ok) (i, b) =
      KeptAny-any out (flush_sender tx w).0 (tx.flush w.sender).1 (flush_sender-Inv out w i)
  then?-flush out (w, err e) k = tt

  flush-KeptAny : (out : Text) (w : ResponseWriter S) → Inv out w → KeptAny out (flush tx w)
  unfolding flush
  flush-KeptAny out w i = then?-flush out (flush_shallow tx w) (flush_shallow-Kept out w i)

  KeptAny-ok :
      (out : Text) (r : ResponseWriter S × Result E) → KeptAny out r → r.1 ≡ ok → Inv out r.0
  KeptAny-ok out (w, ok) k e = k
  KeptAny-ok out (w, err x) k e = absurd (ground arith)

  Kept-ok : (out : Text) (r : ResponseWriter S × Result E) → Kept out r → r.1 ≡ ok → Inv out r.0
  Kept-ok out (w, ok) (i, b) e = i
  Kept-ok out (w, err x) k e = absurd (ground arith)

  -- What an endpoint writes before it finishes, with no error, and the bytes that it wrote
  pub data Writes (start : S) : ResponseWriter S → Text → Type 0 where
    opens : Writes start (record { sender = start; buf = [] }) []
    sends :
        {w : ResponseWriter S} {out : Text} (f : Frame)
        → Writes start w out
        → (send_inner tx (frame f) w).1 ≡ ok
        → Writes start (send_inner tx (frame f) w).0 (out ++ bytes_of f)
    writes :
        {w : ResponseWriter S} {out : Text} (buf : Text)
        → Writes start w out
        → (write tx buf w).1 ≡ ok
        → Writes start (write tx buf w).0 (out ++ buf)
    flushes :
        {w : ResponseWriter S} {out : Text}
        → Writes start w out
        → (flush tx w).1 ≡ ok
        → Writes start (flush tx w).0 out

  Writes-Inv :
      {start : S} {w : ResponseWriter S} {out : Text}
      → laws.received start ≡ []
      → Writes start w out
      → Inv out w
  Writes-Inv {start} n opens = ([], refl, subst (λ parts. FramesOf parts []) (sym n) refl)
  Writes-Inv n (sends {w = w} {out = out} f h k) =
      Kept-ok (out ++ bytes_of f) (send_inner tx (frame f) w)
        (send_inner-Kept f out w (Writes-Inv n h)) k
  Writes-Inv n (writes {w = w} {out = out} buf h k) =
      KeptAny-ok (out ++ buf) (write tx buf w) (write-KeptAny buf out w (Writes-Inv n h)) k
  Writes-Inv n (flushes {w = w} {out = out} h k) =
      KeptAny-ok out (flush tx w) (flush-KeptAny out w (Writes-Inv n h)) k

  -- The channel has frames of these bytes, and then the end.
  abbrev pub Complete : Text → ResponseWriter S → Type 0
  Complete out w =
      (parts : List BodyPart) × (laws.received w.sender ≡ parts ++ (body_done ∷ []))
      × FramesOf parts out

  then?-finish :
      (out : Text) (first : ResponseWriter S × Result E)
      → Kept out first
      → (then? tx first (send_part tx body_done)).1 ≡ ok
      → Complete out (then? tx first (send_part tx body_done)).0
  then?-finish out (w, ok) (i, b) e =
      (laws.received w.sender, laws.received-send w.sender body_done e, Inv-sent out w i b)
  then?-finish out (w, err x) k e = absurd (ground arith)

  -- After any history of writes without an error, a finish that succeeds leaves in the channel frames
  -- with all the bytes that were written, in order, and the end of the body behind them.
  pub finish-Complete :
      {start : S} {w : ResponseWriter S} {out : Text}
      → laws.received start ≡ []
      → Writes start w out
      → (finish tx w).1 ≡ ok
      → Complete out (finish tx w).0
  unfolding finish
  finish-Complete {start} {w} {out} n h e =
      then?-finish out (flush_shallow tx w) (flush_shallow-Kept out w (Writes-Inv n h)) e
