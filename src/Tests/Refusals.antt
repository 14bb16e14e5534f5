-- ===== src/Tests/Refusals.antt =====
-- The theorems on what the provider does not have, at concrete inputs.
use sendme.Base.{◌≡◌, refl, true, some, List, [], ◌∷◌, ◌++◌, arith, replicate}
use sendme.Base.Bytes.{Byte, to_le, from_le}
use sendme.Base.Tests.{bytes_eq}
use sendme.Io.{ok, err, data_not_found}
use sendme.Stream.{Reader}
use sendme.Sink.Emits.{Emits}
use sendme.Util.{Hash, hash_eq}
use sendme.Protocol.Codec.{not_found, found_collection}
use sendme.Protocol.Frames.Messages.{frame}
use sendme.Blobs.{Blob, Collection}
use sendme.Provider.Database.{get}
use sendme.Provider.Transfer.{missing, transfer_collection}
use sendme.Provider.Transfer.Wire.{response_frame}
use sendme.Provider.Transfer.Sends.{out}
use sendme.Provider.Transfer.Missing.{missing_wire, transfer_collection-missing}
use sendme.Provider.Session.{handle_stream, request_received, transfer_aborted}
use sendme.Provider.Session.Serve.{Asks}
use sendme.Provider.Session.Refuse.{IsRefused, handle_stream_refuses}
use sendme.Get.{Client, run}
use sendme.Get.Receive.{Item, collecting}
use sendme.Exchange.{first_request, asking}
use sendme.Exchange.Refused.{run_not_found}
use sendme.Tests.Toy.{toy, toy-IsLawful, toy-ResponsesFit, collections}
use sendme.Tests.Decoder.{frames}
use sendme.Tests.Setup.{
  session-Carries, arriving, content-arriving, at_start, writer, send, session,
}
use sendme.Tests.Setup.{token, photo, db, slices}

-- A collection with a blob that the provider does not have between two that it has.
abbrev link : Hash → Blob
link h = record { name = 112 ∷ []; hash = h }

abbrev lost : Hash
lost = record { bytes = replicate 32 8 }

abbrev holed : Collection
holed = record {
  name = 104 ∷ [];
  blobs = link photo ∷ link lost ∷ link photo ∷ [];
  total_blobs_size = 9;
}

abbrev holed_bytes : List Byte
holed_bytes = collections.to_bytes holed

transfer_collection-missing_example :
    Emits 2000 out true
      (response_frame toy 1 (found_collection 9)
        ++ (frame holed_bytes ++ missing_wire toy 1 slices))
      missing
      send
      (transfer_collection toy db 1 [] holed_bytes send)
unfolding get hash_eq bytes_eq to_le from_le
transfer_collection-missing_example =
    transfer_collection-missing toy 2000 toy-ResponsesFit db 1 [] holed_bytes (frame holed_bytes)
      (104 ∷ []) 9 (link photo ∷ []) (link photo ∷ []) (link lost) slices send refl refl (refl, tt)
      tt (omega arith) (omega arith) (omega arith) tt

-- A request for a blob, which is no collection.
abbrev asked : List Byte
asked = asking toy photo token

photo-IsRefused : IsRefused (get db photo)
unfolding get hash_eq bytes_eq
photo-IsRefused = tt

Asks-asked : Asks toy token (first_request photo) (at_start asked)
unfolding to_le from_le
Asks-asked = record {
  empty = refl;
  arrived = content-arriving asked;
  ended = refl;
  short_handshake = omega arith;
  short_request = omega arith;
  handshake_decodes = refl;
  request_decodes = refl;
}

handle_stream_refuses_example :
    let done = handle_stream toy db token 4 (session asked) in
    (done.0 ≡ ok tt)
    × (done.1.send.writer.sent ≡ response_frame toy 1 not_found)
    × (done.1.send.writer.finished ≡ true)
    × (done.1.events ≡ request_received 4 1 photo ∷ transfer_aborted 4 (some 1) ∷ [])
handle_stream_refuses_example =
    handle_stream_refuses toy 0 toy-ResponsesFit db token 4 (first_request photo) (session asked)
      Asks-asked photo-IsRefused (omega arith) tt

abbrev client : Client (List Item)
client = record { recv = at_start (response_frame toy 1 not_found ++ 7 ∷ []); user = [] }

abbrev answer : List Byte → Reader
answer bytes = arriving (handle_stream toy db token 0 (session bytes)).1.send.writer.sent

run_not_found_example :
    let p = run toy frames (collecting frames) (ok writer) answer photo token [] in
    (p.0 ≡ err data_not_found) × (p.1 ≡ [])
unfolding to_le
run_not_found_example =
    run_not_found toy toy-IsLawful frames db photo token 0 writer (session asked) answer [] refl
      refl (omega arith, omega arith, omega arith) tt refl photo-IsRefused tt
      (session-Carries toy db token 0 asked)
