-- ===== src/ResponseWriter/Tests.antt =====
-- Runs of the writers of body.rs and blocking/body.rs, over channels that are lists.
use witchcraft_rust_server.Common.{
  ◌≡◌, ◌≢◌, refl, sym, ap, ◌∙◌, List, [], ◌∷◌, ◌++◌, append-nil, append_assoc,
}
use witchcraft_rust_server.Http.{Text, Frame}
use witchcraft_rust_server.Poll.{ok, ready, Sink}
use witchcraft_rust_server.ResponseWriter.{
  ResponseWriter, panicked, new, start_send, poll_write, poll_flush,
}
use witchcraft_rust_server.ResponseWriter.Writing.{bytes_of, ChannelLaws, flushing, poll}
use witchcraft_rust_server.ResponseWriter.History.{Writes, opens, writes, poll-delivers}
use witchcraft_rust_server.ResponseWriter.Blocking as Blocking
use witchcraft_rust_server.ResponseWriter.Blocking.{BodyPart, frame, body_done, Sender, finish}
use witchcraft_rust_server.ResponseWriter.Blocking.Finishing as Finishing
use witchcraft_rust_server.ResponseWriter.Blocking.Finishing.{SenderLaws, Complete, finish-Complete}

abbrev channel : Sink (List Frame) Frame Text
channel = record {
  poll_ready = λ s. (s, ready ok);
  start_send = λ s f. (s ++ (f ∷ []), ok);
  poll_flush = λ s. (s, ready ok);
  poll_close = λ s. (s, ready ok);
}

abbrev flatten : List Frame → Text
flatten [] = []
flatten (f ∷ fs) = bytes_of f ++ flatten fs

flatten-append : (fs : List Frame) (f : Frame) → flatten (fs ++ (f ∷ [])) ≡ flatten fs ++ bytes_of f
flatten-append [] f = append-nil (bytes_of f)
flatten-append (g ∷ fs) f =
    ap (λ x. bytes_of g ++ x) (flatten-append fs f)
    ∙ sym (append_assoc (bytes_of g) (flatten fs) (bytes_of f))

abbrev channel_laws : ChannelLaws channel
channel_laws = record {
  sent = flatten;
  sent-start_send = λ s f h. flatten-append s f;
  sent-poll_ready = λ s. refl;
  sent-poll_flush = λ s. refl;
  sent-poll_close = λ s. refl;
}

abbrev written : ResponseWriter (List Frame)
written = (poll_write channel (1 ∷ 2 ∷ []) (new channel [])).0

written-Writes : Writes channel channel_laws [] written ([] ++ (1 ∷ 2 ∷ []))
unfolding poll_write new
written-Writes = writes (1 ∷ 2 ∷ []) opens refl

flush-ok : (poll channel channel_laws flushing written).1 ≡ ready ok
unfolding poll_write new poll_flush
flush-ok = refl

poll-delivers_example :
    (flatten (poll channel channel_laws flushing written).0.sender ≡ [] ++ (1 ∷ 2 ∷ []))
    × ((start_send channel (3 ∷ []) (poll channel channel_laws flushing written).0).1 ≢ panicked)
poll-delivers_example =
    poll-delivers channel channel_laws flushing (3 ∷ []) refl written-Writes flush-ok

abbrev sender : Sender (List BodyPart) Text
sender = record {
  feed = λ s p. (s ++ (p ∷ []), ok);
  send = λ s p. (s ++ (p ∷ []), ok);
  flush = λ s. (s, ok);
}

abbrev sender_laws : SenderLaws sender
sender_laws = record {
  received = λ s. s;
  received-feed = λ s p h. refl;
  received-send = λ s p h. refl;
  received-flush = λ s. refl;
}

abbrev blocking_written : ResponseWriter (List BodyPart)
blocking_written = (Blocking.write sender (1 ∷ 2 ∷ []) (record { sender = []; buf = [] })).0

blocking-Writes : Finishing.Writes sender sender_laws [] blocking_written ([] ++ (1 ∷ 2 ∷ []))
unfolding Blocking.write
blocking-Writes = Finishing.writes (1 ∷ 2 ∷ []) Finishing.opens refl

finish-ok : (finish sender blocking_written).1 ≡ ok
unfolding finish Blocking.write
finish-ok = refl
