-- ===== src/Provider/Session/Refuse.antt =====
-- The whole of a stream on which a client asks for a hash that is no collection of the provider.
use sendme.Base.{
  ℕ, ◌≡◌, ◌<◌, refl, ap, ◌∙◌, true, Option, none, some, [], ◌∷◌, ◌++◌, append_assoc, append-nil,
}
use sendme.Base.Bytes.{u64_mod}
use sendme.Io.{ok, ◌>>=◌}
use sendme.Sink.{finish, IsWilling}
use sendme.Sink.Emits.{finish-Emits}
use sendme.Protocol.Codec.{AuthToken, Request, not_found}
use sendme.Protocol.Frames.Messages.{frame}
use sendme.Env.{Env}
use sendme.Provider.Database.{BlobOrCollection, blob, collection, Database, get}
use sendme.Provider.Transfer.{on_writer, write_response}
use sendme.Provider.Transfer.Wire.{response_frame, ResponsesFit}
use sendme.Provider.Transfer.Sends.{write_response-Emits}
use sendme.Provider.Session.{
  Session, request_received, transfer_aborted, on_send, read_handshake, read_request,
}
use sendme.Provider.Session.{respond, notify_transfer_aborted, handle_stream}
use sendme.Provider.Session.Access.{read_handshake_front, read_request_front}
use sendme.Provider.Session.Serve.{Asks}

-- The entry is not a collection.
abbrev pub IsRefused : Option BlobOrCollection → Type 0
IsRefused none = Unit
IsRefused (some (blob _)) = Unit
IsRefused (some (collection _ _)) = ⊥

module _ (env : Env) (n : ℕ) (fit : ResponsesFit env) where
  refused_wire :
      (id : ℕ) (t : Session)
      → id < u64_mod
      → IsWilling n t.send.writer
      → let p = (on_send (write_response env id not_found) >>= λ _. on_send (on_writer finish)) t in
        (p.0 ≡ ok tt)
        × (p.1.send.writer.sent ≡ t.send.writer.sent ++ response_frame env id not_found)
        × (p.1.send.writer.finished ≡ true)
        × (p.1.events ≡ t.events)
  refused_wire id t i h =
      let e = write_response-Emits env n fit id not_found t.send i tt h in
      let f = finish-Emits n (write_response env id not_found t.send).1.writer e.willing in
      (
        rw e.result f.result,
        rw e.result (f.wrote ∙ append-nil _ ∙ e.wrote),
        rw e.result f.status,
        rw e.result refl,
      )

  refused_respond :
      (db : Database) (c id : ℕ) (o : Option BlobOrCollection) (t : Session)
      → IsRefused o
      → id < u64_mod
      → IsWilling n t.send.writer
      → let p = respond env db c id o t in
        (p.0 ≡ ok tt)
        × (p.1.send.writer.sent ≡ t.send.writer.sent ++ response_frame env id not_found)
        × (p.1.send.writer.finished ≡ true)
        × (p.1.events ≡ t.events ++ transfer_aborted c (some id) ∷ [])
  unfolding respond notify_transfer_aborted
  refused_respond db c id none t a i h =
      refused_wire id (record t { events = t.events ++ transfer_aborted c (some id) ∷ [] }) i h
  refused_respond db c id (some (blob d)) t a i h =
      refused_wire id (record t { events = t.events ++ transfer_aborted c (some id) ∷ [] }) i h
  refused_respond db c id (some (collection _ _)) t a i h = elim a [ ]

  -- When a client with the provider's token has asked for a hash under which the database has no
  -- collection, and the transport does not fail, `handle_stream` succeeds: it writes `NotFound` and
  -- nothing else, finishes the stream, and reports the request as received and then aborted. (The
  -- handshake and the request have arrived whole and decode, the request's id is a `u64`, and responses
  -- fit their buffer.)
  pub handle_stream_refuses :
      (db : Database) (token : AuthToken) (connection_id : ℕ) (r : Request) (s : Session)
      → Asks env token r s.recv
      → IsRefused (get db r.name)
      → r.id < u64_mod
      → IsWilling n s.send.writer
      → let done = handle_stream env db token connection_id s in
        (done.0 ≡ ok tt)
        × (done.1.send.writer.sent ≡ s.send.writer.sent ++ response_frame env r.id not_found)
        × (done.1.send.writer.finished ≡ true)
        × (done.1.events
            ≡ s.events
              ++ request_received connection_id r.id r.name
                ∷ transfer_aborted connection_id (some r.id)
                ∷ [])
  unfolding handle_stream
  handle_stream_refuses db token connection_id r s asks refused i willing =
      let shake =
        read_handshake_front env token (frame (env.request.to_bytes r)) s.recv asks.empty
          asks.arrived asks.short_handshake asks.handshake_decodes in
      let v = (read_handshake env token s.recv).1 in
      let request =
        read_request_front env r v (ap (λ x. x.filled) shake) (ap (λ x. x.left) shake)
          (ap (λ x. x.last) shake ∙ asks.ended) asks.short_request asks.request_decodes in
      let accepted = ap (λ x. x.outcome) shake in
      let t : Session = record {
        recv = (read_request env v).1;
        send = s.send;
        events = s.events ++ request_received connection_id r.id r.name ∷ [];
      } in
      let (result, wrote, finished, events) =
        refused_respond db connection_id r.id (get db r.name) t refused i willing in
      (
        rw (accepted, request) result,
        rw (accepted, request) wrote,
        rw (accepted, request) finished,
        rw (accepted, request)
            (events
              ∙ append_assoc s.events (request_received connection_id r.id r.name ∷ [])
                  (transfer_aborted connection_id (some r.id) ∷ [])),
      )
