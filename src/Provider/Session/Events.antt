-- ===== src/Provider/Session/Events.antt =====
-- The events that one stream sends, whatever arrives on it and however the transport behaves.
use sendme.Base.{
  ℕ, ◌≡◌, ◌≢◌, ◌∙◌, refl, Option, none, some, List, [], ◌∷◌, ◌++◌, append_assoc, append-nil, sym,
}
use sendme.Io.{Io, Outcome, ok, err, panic, Error, and_then, ◌>>=◌, ◌>>◌}
use sendme.Util.{Hash}
use sendme.Protocol.Codec.{AuthToken, Request, not_found}
use sendme.Sink.{finish}
use sendme.Env.{Env}
use sendme.Provider.Database.{BlobOrCollection, blob, collection, Database, get}
use sendme.Provider.Transfer.{Send, SentStatus, sent, missing, transfer_collection, write_response}
use sendme.Provider.Transfer.{on_writer}
use sendme.Provider.Transfer.Calm.{transfer_collection-IsCalm, refusal-IsCalm}
use sendme.Provider.Session.{Session, Event, request_received, transfer_completed, transfer_aborted}
use sendme.Provider.Session.{emit, on_recv, on_send, catch, or_notify, read_handshake, read_request}
use sendme.Provider.Session.{respond, handle_stream, notify_transfer_aborted, report}

-- The result of `handle_stream` with the events that it sent. Before a request is read the stream is
-- reported as aborted with no request; after it exactly one of completed and aborted follows, with
-- the request's id. Only a panic while the stream is read sends nothing.
pub data Reported (c : ℕ) : Outcome (Unit {0}) → List Event → Type 0 where
  panicked : Reported c panic []
  not_requested : (e : Error) → Reported c (err e) (transfer_aborted c none ∷ [])
  completed :
      (id : ℕ) (h : Hash)
      → Reported c (ok tt) (request_received c id h ∷ transfer_completed c id ∷ [])
  aborted :
      (id : ℕ) (h : Hash)
      → Reported c (ok tt) (request_received c id h ∷ transfer_aborted c (some id) ∷ [])
  broken :
      (id : ℕ) (h : Hash) (e : Error)
      → Reported c (err e) (request_received c id h ∷ transfer_aborted c (some id) ∷ [])

abbrev pub Reports : ℕ → Session → Outcome (Unit {0}) × Session → Type 0
Reports c s r = (trace : List Event) × (r.1.events ≡ s.events ++ trace) × Reported c r.0 trace

-- The part after the request, with its one event.
data Answered (c id : ℕ) : Outcome (Unit {0}) → Event → Type 0 where
  done : Answered c id (ok tt) (transfer_completed c id)
  gone : Answered c id (ok tt) (transfer_aborted c (some id))
  lost : (e : Error) → Answered c id (err e) (transfer_aborted c (some id))

abbrev Answers : ℕ → ℕ → Session → Outcome (Unit {0}) × Session → Type 0
Answers c id s r = (e : Event) × (r.1.events ≡ s.events ++ e ∷ []) × Answered c id r.0 e

transferred :
    (c id : ℕ) (r : Outcome SentStatus) (s : Session)
    → r ≢ panic
    → Answers c id s (
        and_then
          (catch r (notify_transfer_aborted c (some id)) s).0
          (catch r (notify_transfer_aborted c (some id)) s).1
          (report c id))
unfolding notify_transfer_aborted
transferred c id (ok sent) s h = (_, refl, done)
transferred c id (ok missing) s h = (_, refl, gone)
transferred c id (err e) s h = (_, refl, lost e)
transferred c id panic s h = absurd (h refl)

closing_event :
    (c id : ℕ) (r : Outcome (Unit {0})) → r ≢ panic → Answered c id r (transfer_aborted c (some id))
closing_event c id (ok tt) h = gone
closing_event c id (err e) h = lost e
closing_event c id panic h = absurd (h refl)

-- Writing to the stream sends no event.
refusal_events :
    (r : Outcome (Unit {0})) (t : Session) (m : Io Send (Unit {0}))
    → (and_then r t (λ _. on_send m)).1.events ≡ t.events
refusal_events (ok _) t m = refl
refusal_events (err e) t m = refl
refusal_events panic t m = refl

refusal_outcome :
    (r : Outcome (Unit {0})) (v : Send) (t : Session) (m : Io Send (Unit {0}))
    → (and_then r (record t { send = v }) (λ _. on_send m)).0 ≡ (and_then r v (λ _. m)).0
refusal_outcome (ok _) v t m = refl
refusal_outcome (err e) v t m = refl
refusal_outcome panic v t m = refl

module _ (env : Env) (db : Database) (c : ℕ) where
  refused :
      (id : ℕ) (s t : Session)
      → t.events ≡ s.events ++ transfer_aborted c (some id) ∷ []
      → Answers c id s
          ((on_send (write_response env id not_found) >>= λ _. on_send (on_writer finish)) t)
  refused id s t e =
      let w = write_response env id not_found t.send in
      (
        transfer_aborted c (some id),
        refusal_events w.0 (record t { send = w.1 }) (on_writer finish) ∙ e,
        closing_event c id _
            (rw (refusal_outcome w.0 w.1 t (on_writer finish)) ((refusal-IsCalm env id).at t.send)),
      )

  respond_event :
      (id : ℕ) (entry : Option BlobOrCollection) (s : Session)
      → Answers c id s (respond env db c id entry s)
  unfolding respond
  respond_event id (some (collection outboard content)) s =
      let r = transfer_collection env db id outboard content s.send in
      transferred c id r.0 (record s { send = r.1 })
        ((transfer_collection-IsCalm env db id outboard content).at s.send)
  respond_event id (some (blob d)) s = refused id s _ refl
  respond_event id none s = refused id s _ refl

  answered :
      (id : ℕ) (h : Hash) (s : Session) (r : Outcome (Unit {0}) × Session)
      → Answers c id (record s { events = s.events ++ request_received c id h ∷ [] }) r
      → Reports c s r
  answered id h s r (e, sent_events, a) = (
    request_received c id h ∷ e ∷ [],
    sent_events ∙ append_assoc s.events (request_received c id h ∷ []) (e ∷ []),
    reported a,
  )
    where
      reported :
          {o : Outcome (Unit {0})} {x : Event}
          → Answered c id o x
          → Reported c o (request_received c id h ∷ x ∷ [])
      reported done = completed id h
      reported gone = aborted id h
      reported (lost y) = broken id h y

  -- After the handshake: by what the request came to.
  with_request :
      (r : Outcome Request) (s : Session)
      → Reports c s (
          and_then
            (catch r (notify_transfer_aborted c none) s).0
            (catch r (notify_transfer_aborted c none) s).1
            (λ request. do
              emit (request_received c request.id request.name)
              respond env db c request.id (get db request.name)))
  unfolding notify_transfer_aborted
  with_request (ok request) s =
      let t = record s { events = s.events ++ request_received c request.id request.name ∷ [] } in
      let entry = get db request.name in
      answered request.id request.name s (respond env db c request.id entry t)
        (respond_event request.id entry t)
  with_request (err e) s = (_, refl, not_requested e)
  with_request panic s = ([], sym (append-nil s.events), panicked)

  with_handshake :
      (token : AuthToken) (r : Outcome (Unit {0})) (s : Session)
      → Reports c s (
          and_then
            (catch r (notify_transfer_aborted c none) s).0
            (catch r (notify_transfer_aborted c none) s).1
            (λ _. do
              request ← or_notify (on_recv (read_request env)) (notify_transfer_aborted c none)
              emit (request_received c request.id request.name)
              respond env db c request.id (get db request.name)))
  unfolding notify_transfer_aborted
  with_handshake token (ok _) s =
      let r = read_request env s.recv in with_request r.0 (record s { recv = r.1 })
  with_handshake token (err e) s = (_, refl, not_requested e)
  with_handshake token panic s = ([], sym (append-nil s.events), panicked)

  -- Whatever arrives on a stream and however its transport behaves, `handle_stream` sends either one
  -- event, that a transfer without a request was aborted, and fails; or the request, and after it
  -- exactly one event for the same request, completed or aborted, of which completed only with success;
  -- or it panics before a request was read, and sends nothing.
  pub handle_stream_events :
      (token : AuthToken) (s : Session) → Reports c s (handle_stream env db token c s)
  unfolding handle_stream
  handle_stream_events token s =
      let r = read_handshake env token s.recv in with_handshake token r.0 (record s { recv = r.1 })
