-- ===== src/Provider/Session/Serve.antt =====
-- The whole of a stream on which a client asks for a collection that the provider has.
use sendme.Base.{ℕ, ◌≡◌, ◌≤◌, ◌<◌, refl, ap, ◌∙◌, true, none, some, List, [], ◌∷◌}
use sendme.Base.{◌++◌, append_assoc, length}
use sendme.Base.Bytes.{Byte, u64_mod}
use sendme.Io.{ok}
use sendme.Stream.{Recv}
use sendme.Stream.View.{content, ending}
use sendme.Sink.{IsWilling}
use sendme.Protocol.Codec.{AuthToken, Request, protocol_version}
use sendme.Protocol.Frames.Messages.{frame}
use sendme.Blobs.{Collection}
use sendme.Env.{Env}
use sendme.Provider.Database.{collection, Database, get}
use sendme.Provider.Transfer.Wire.{Serves, whole_slice, collection_wire, ResponsesFit}
use sendme.Provider.Transfer.Sends.{transfer_collection-Emits}
use sendme.Provider.Session.{Session, request_received, transfer_completed, read_handshake}
use sendme.Provider.Session.{respond, handle_stream}
use sendme.Provider.Session.Access.{read_handshake_front, read_request_front}

-- A handshake with the token, then the request, then the end, have arrived and can be decoded.
pub record Asks (env : Env) (token : AuthToken) (r : Request) (v : Recv) : Type 0 where
  pub empty : v.buffer ≡ []
  pub arrived :
      content v.reader
      ≡ frame (env.handshake.to_bytes (record { version = protocol_version; token = token }))
        ++ frame (env.request.to_bytes r)
  pub ended : ending v.reader ≡ none
  pub short_handshake :
      length (env.handshake.to_bytes (record { version = protocol_version; token = token }))
      < u64_mod
  pub short_request : length (env.request.to_bytes r) < u64_mod
  pub handshake_decodes :
      env.handshake.of_bytes
        (env.handshake.to_bytes (record { version = protocol_version; token = token }))
      ≡ some (record { version = protocol_version; token = token })
  pub request_decodes : env.request.of_bytes (env.request.to_bytes r) ≡ some r

-- The database has the collection, and serves each of its blobs.
pub record Has (env : Env) (db : Database) (r : Request) (c : Collection) (encoded : List Byte)
    (slices : List (List Byte)) : Type 0 where
  pub outboard : List Byte
  pub bytes : List Byte
  pub entry : get db r.name ≡ some (collection outboard bytes)
  pub slice : whole_slice (env.extract bytes outboard (length bytes)) ≡ some encoded
  pub decodes : env.collection.of_bytes bytes ≡ some c
  pub serves : Serves env db c.blobs slices

module _ (env : Env) (n : ℕ) (fit : ResponsesFit env) where
  -- When a client with the provider's token has asked for a collection that the database has, and the
  -- transport does not fail and takes the collection's slice at once, `handle_stream` succeeds: it
  -- writes the collection and every blob in order, finishes the stream, and reports the request as
  -- received and then completed. (The handshake and the request have arrived whole and decode, the
  -- request's id and the total are a `u64`, the slices can be made, and responses fit their buffer.)
  pub handle_stream_serves :
      (db : Database) (token : AuthToken) (connection_id : ℕ) (r : Request) (c : Collection)
      (encoded : List Byte) (slices : List (List Byte)) (s : Session)
      → Asks env token r s.recv
      → Has env db r c encoded slices
      → r.id < u64_mod
      → c.total_blobs_size < u64_mod
      → length encoded ≤ n
      → IsWilling n s.send.writer
      → let done = handle_stream env db token connection_id s in
        (done.0 ≡ ok tt)
        × (done.1.send.writer.sent
            ≡ s.send.writer.sent ++ collection_wire env r.id c encoded slices)
        × (done.1.send.writer.finished ≡ true)
        × (done.1.events
            ≡ s.events
              ++ request_received connection_id r.id r.name
                ∷ transfer_completed connection_id r.id
                ∷ [])
  unfolding handle_stream respond
  handle_stream_serves db token connection_id r c encoded slices s asks has id_fits total_fits fits
        willing =
      let shake =
        read_handshake_front env token (frame (env.request.to_bytes r)) s.recv asks.empty
          asks.arrived asks.short_handshake asks.handshake_decodes in
      let v = (read_handshake env token s.recv).1 in
      let request =
        read_request_front env r v (ap (λ x. x.filled) shake) (ap (λ x. x.left) shake)
          (ap (λ x. x.last) shake ∙ asks.ended) asks.short_request asks.request_decodes in
      let e =
        transfer_collection-Emits env n fit db r.id has.outboard has.bytes encoded c slices s.send
          has.slice has.decodes has.serves id_fits total_fits fits willing in
      (
        rw (ap (λ x. x.outcome) shake, request, has.entry, e.result) refl,
        rw (ap (λ x. x.outcome) shake, request, has.entry, e.result) e.wrote,
        rw (ap (λ x. x.outcome) shake, request, has.entry, e.result) e.status,
        rw (ap (λ x. x.outcome) shake, request, has.entry, e.result)
            (append_assoc s.events (request_received connection_id r.id r.name ∷ [])
              (transfer_completed connection_id r.id ∷ [])),
      )
