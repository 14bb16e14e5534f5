-- ===== src/Provider/Session.antt =====
-- One stream of a connection in src/provider.rs: `read_handshake`, `read_request`,
-- `notify_transfer_aborted` and `handle_stream`, with the events that they send.
pub mod Events
pub mod Access
pub mod Serve
pub mod Refuse
pub mod Entries
use sendme.Base.{ℕ, Bool, true, false, Option, none, some, List, [], ◌∷◌, ◌++◌, ◌==◌, if◌then◌else◌}
use sendme.Io.{Io, Outcome, ok, err, panic, Error, version_mismatch, token_mismatch, no_handshake}
use sendme.Io.{extra_data, no_request, ensure, pure, fail, lift, ◌>>=◌, ◌>>◌}
use sendme.Stream.{Recv, read_chunk}
use sendme.Sink.{finish}
use sendme.Util.{Hash}
use sendme.Protocol.Codec.{AuthToken, token_eq, Handshake, Request, protocol_version, not_found}
use sendme.Protocol.Frames.{read_lp, split_to, on_reader}
use sendme.Env.{Env}
use sendme.Provider.Database.{BlobOrCollection, blob, collection, Database, get}
use sendme.Provider.Transfer.{Send, SentStatus, sent, missing, on_writer, write_response}
use sendme.Provider.Transfer.{transfer_collection}

-- The fields are the connection's id, the request's id and the hash.
pub data Event : Type 0 where
  client_connected : ℕ → Event
  request_received : ℕ → ℕ → Hash → Event
  transfer_completed : ℕ → ℕ → Event
  transfer_aborted : ℕ → Option ℕ → Event

pub record Session : Type 0 where
  pub recv : Recv
  pub send : Send
  pub events : List Event

abbrev pub on_recv : {A : Type 0} → Io Recv A → Io Session A
on_recv m s = let p = m s.recv in (p.0, record s { recv = p.1 })

abbrev pub on_send : {A : Type 0} → Io Send A → Io Session A
on_send m s = let p = m s.send in (p.0, record s { send = p.1 })

-- `events.send(event)`, whether or not anyone listens
abbrev pub emit : Event → Io Session (Unit {0})
emit e s = (ok tt, record s { events = s.events ++ e ∷ [] })

unfoldable pub notify_transfer_aborted : ℕ → Option ℕ → Io Session (Unit {0})
notify_transfer_aborted connection_id request_id = emit (transfer_aborted connection_id request_id)

-- `Err(e) => { handler; return Err(e) }`
abbrev pub catch : {A : Type 0} → Outcome A → Io Session (Unit {0}) → Io Session A
catch (ok a) handler s = (ok a, s)
catch (err e) handler s = (err e, (handler s).1)
catch panic handler s = (panic, s)

abbrev pub or_notify : {A : Type 0} → Io Session A → Io Session (Unit {0}) → Io Session A
or_notify m handler s = catch (m s).0 handler (m s).1

is_none : {A : Type 0} → Option A → Bool
is_none none = true
is_none (some _) = false

-- What `read_handshake` does with the message.
abbrev pub check_handshake : AuthToken → Option (Handshake × ℕ) → Io Recv (Unit {0})
check_handshake token none = fail no_handshake
check_handshake token (some (handshake, size)) = do
  ensure (handshake.version == protocol_version) (version_mismatch handshake.version)
  ensure (token_eq handshake.token token) token_mismatch
  split_to size
  pure tt

-- What `read_request` returns, once the stream has ended.
abbrev pub requested : Option (Request × ℕ) → Outcome Request
requested none = err no_request
requested (some (request, _)) = ok request

-- The event after a transfer that did not fail.
abbrev pub report : ℕ → ℕ → SentStatus → Io Session (Unit {0})
report connection_id id sent = emit (transfer_completed connection_id id)
report connection_id id missing = notify_transfer_aborted connection_id (some id)

module _ (env : Env) where
  unfoldable pub read_handshake : AuthToken → Io Recv (Unit {0})
  read_handshake token = do message ← read_lp env.handshake; check_handshake token message

  unfoldable pub read_request : Io Recv Request
  unfolding is_none
  read_request = do
    request ← read_lp env.request
    chunk ← on_reader read_chunk
    ensure (is_none chunk) extra_data
    lift (requested request)

  -- The answer to a request, by what the database has under its hash.
  unfoldable pub respond : Database → ℕ → ℕ → Option BlobOrCollection → Io Session (Unit {0})
  unfolding notify_transfer_aborted
  respond db connection_id id (some (collection outboard content)) = do
    status ←
        or_notify (on_send (transfer_collection env db id outboard content))
          (notify_transfer_aborted connection_id (some id))
    report connection_id id status
  respond db connection_id id (some (blob _)) = do
    notify_transfer_aborted connection_id (some id)
    on_send (write_response env id not_found)
    on_send (on_writer finish)
  respond db connection_id id none = do
    notify_transfer_aborted connection_id (some id)
    on_send (write_response env id not_found)
    on_send (on_writer finish)

  unfoldable pub handle_stream : Database → AuthToken → ℕ → Io Session (Unit {0})
  unfolding respond notify_transfer_aborted
  handle_stream db token connection_id = do
    or_notify (on_recv (read_handshake token)) (notify_transfer_aborted connection_id none)
    request ← or_notify (on_recv read_request) (notify_transfer_aborted connection_id none)
    emit (request_received connection_id request.id request.name)
    respond db connection_id request.id (get db request.name)
