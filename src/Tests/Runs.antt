-- ===== src/Tests/Runs.antt =====
-- The theorems on streams, the provider and the client at concrete inputs.
use sendme.Base.{ℕ, ◌≡◌, ◌≢◌, refl, ap, true, some, List, [], ◌∷◌, ◌++◌}
use sendme.Base.{arith, take}
use sendme.Base.Bytes.{Byte, to_le, from_le}
use sendme.Base.Tests.{bytes_eq}
use sendme.Io.{ok, panic}
use sendme.Stream.{Recv}
use sendme.Sink.{Writer, accept, write_buf, write_all, push}
use sendme.Sink.Emits.{Emits, write_buf_short}
use sendme.Util.{Hash, hash_eq}
use sendme.Protocol.Codec.{Handshake, IsRequest, protocol_version}
use sendme.Protocol.Frames.{write_lp, read_lp, read_lp_data}
use sendme.Protocol.Frames.Messages.{frame, read_lp_truncated}
use sendme.Protocol.Frames.Messages.{read_lp_data_truncated}
use sendme.Protocol.Frames.Writing.{read_lp-write_lp}
use sendme.Provider.Database.{get}
use sendme.Provider.Transfer.{Send, sent, transfer_collection, write_response}
use sendme.Provider.Transfer.Wire.{response_frame, blobs_wire}
use sendme.Provider.Transfer.Cut.{transfer_collection-cut}
use sendme.Protocol.Codec.{to_slice, found_collection}
use sendme.Provider.Transfer.Sends.{out}
use sendme.Provider.Session.{handle_stream, request_received, transfer_completed}
use sendme.Provider.Session.Events.{Reports, handle_stream_events}
use sendme.Provider.Session.Access.{handle_stream_authenticated}
use sendme.Provider.Session.Serve.{handle_stream_serves}
use sendme.Tests.Toy.{toy, toy-ResponsesFit, requests}
use sendme.Tests.Toy.{requests-RoundTrips}
use sendme.Tests.Setup.{
  content-arriving, at_start, writer, send, session, token, photo, photos, album, album_bytes,
  slices, db, request, asked, album_wire, Asks-asked, has_db,
}

handle_stream_events_example :
    Reports 4 (session asked) (handle_stream toy db token 4 (session asked))
handle_stream_events_example = handle_stream_events toy db 4 token (session asked)

handle_stream_serves_example :
    let done = handle_stream toy db token 4 (session asked) in
    (done.0 ≡ ok tt)
    × (done.1.send.writer.sent ≡ album_wire)
    × (done.1.send.writer.finished ≡ true)
    × (done.1.events ≡ request_received 4 1 photos ∷ transfer_completed 4 1 ∷ [])
unfolding to_le
handle_stream_serves_example =
    handle_stream_serves toy 1000 toy-ResponsesFit db token 4 request album (frame album_bytes)
      slices (session asked) Asks-asked has_db (omega arith) (omega arith) (omega arith) tt

finished_differs : (handle_stream toy db token 4 (session asked)).1.send ≢ send
finished_differs e = cc (ap (λ (t : Send). t.writer.finished) e, handle_stream_serves_example.2)

handle_stream_authenticated_example :
    (h : Handshake) × (n : ℕ) × ((read_lp toy.handshake (at_start asked)).0 ≡ ok (some (h, n)))
    × (h.version ≡ protocol_version)
    × (h.token ≡ token)
handle_stream_authenticated_example =
    handle_stream_authenticated toy db token 4 (session asked) finished_differs

-- Frames.
abbrev request_bytes : List Byte
request_bytes = requests.to_bytes request

read_lp_truncated_example : (read_lp requests (at_start (to_le 8 2 ++ 7 ∷ []))).0 ≡ panic
unfolding to_le
read_lp_truncated_example =
    read_lp_truncated requests 2 (7 ∷ []) (at_start (to_le 8 2 ++ 7 ∷ [])) (omega arith)
      (content-arriving (to_le 8 2 ++ 7 ∷ [])) refl (omega arith)

read_lp_data_truncated_example : (read_lp_data (at_start (to_le 8 2 ++ 7 ∷ []))).0 ≡ panic
unfolding to_le
read_lp_data_truncated_example =
    read_lp_data_truncated 2 (7 ∷ []) (at_start (to_le 8 2 ++ 7 ∷ [])) (omega arith)
      (content-arriving (to_le 8 2 ++ 7 ∷ [])) refl (omega arith)

abbrev written : Recv
written = at_start (write_lp request_bytes writer).1.sent

read_lp-write_lp_example : (read_lp requests written).0 ≡ ok (some (request, 40))
unfolding to_le
read_lp-write_lp_example =
    read_lp-write_lp requests IsRequest request writer written requests-RoundTrips
      (omega arith, refl) (omega arith) tt refl refl
      (content-arriving (write_lp request_bytes writer).1.sent)

abbrev slow : Writer
slow = record writer { answers = accept 1 ∷ [] }

write_buf_short_example :
    ((write_buf (1 ∷ 2 ∷ 3 ∷ []) slow).0 ≡ ok 2)
    × ((write_buf (1 ∷ 2 ∷ 3 ∷ []) slow).1.sent ≡ 1 ∷ 2 ∷ [])
write_buf_short_example = write_buf_short 1 [] (1 ∷ 2 ∷ 3 ∷ []) slow refl (omega arith)

-- A transport that takes two bytes of the collection's slice.
abbrev hesitant : Send
hesitant = record send {
  writer = record writer { answers = accept 1000 ∷ accept 1000 ∷ accept 1 ∷ [] };
}

transfer_collection-cut_example :
    Emits 0 out true
      (response_frame toy 1 (found_collection 3)
        ++ (take 2 (frame album_bytes) ++ blobs_wire toy 1 slices))
      sent
      hesitant
      (transfer_collection toy db 1 [] album_bytes hesitant)
unfolding get hash_eq bytes_eq to_le from_le write_response to_slice write_lp write_all push
transfer_collection-cut_example =
    transfer_collection-cut toy toy-ResponsesFit db 1 [] album_bytes (frame album_bytes) album
      slices 1 [] hesitant refl refl (refl, tt) (omega arith) (omega arith) (omega arith) refl
      (omega arith)

photo-ne-photos : photo ≢ photos
photo-ne-photos e = cc (ap (λ (h : Hash). take 1 h.bytes) e)
