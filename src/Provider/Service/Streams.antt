-- ===== src/Provider/Service/Streams.antt =====
-- `handle_connection` of src/provider.rs: the streams of all connections, each handled by a task of its
-- own, and the one channel that their events go to. A task does what `handle_stream` does with what
-- its stream brings; its events reach the channel in order, and those of other tasks between them.
use sendme.Base.{ℕ, ◌≡◌, Option, none, some, List, [], ◌∷◌, ◌++◌, All}
use sendme.Io.{Outcome}
use sendme.Protocol.Codec.{AuthToken}
use sendme.Env.{Env}
use sendme.Provider.Database.{Database}
use sendme.Provider.Session.{Event, client_connected, Session, handle_stream}

-- A stream's task: its connection, its result, and its events before and after the present moment.
pub record Task : Type 0 where
  pub connection_id : ℕ
  pub outcome : Outcome (Unit {0})
  pub sent : List Event
  pub pending : List Event

pub record Service : Type 0 where
  pub log : List Event
  pub tasks : List Task

module _ (env : Env) (db : Database) (token : AuthToken) where
  -- tokio::spawn(async move { handle_stream(db, auth_token, connection_id, stream, events) })
  unfoldable pub spawn_stream : ℕ → Session → Task
  spawn_stream connection_id stream =
      let r = handle_stream env db token connection_id stream in
      record { connection_id = connection_id; outcome = r.0; sent = []; pending = r.1.events }

  -- The next event of a task goes to the channel.
  abbrev pub advance : Task → Event → List Event → Task
  advance t e later = record t { sent = t.sent ++ e ∷ []; pending = later }

  -- The loop of `handle_connection`, over the streams that `accept_bi` gives until it fails.
  unfoldable pub accept_streams : ℕ → List Session → Service → Service
  unfolding spawn_stream
  accept_streams connection_id [] s = s
  accept_streams connection_id (stream ∷ streams) s = accept_streams connection_id streams (record {
    log = s.log ++ client_connected connection_id ∷ [];
    tasks = spawn_stream connection_id stream ∷ s.tasks;
  })

  -- `handle_connection`, with the connection's id once the peer has connected; `none` is an error.
  unfoldable pub handle_connection : Option ℕ → List Session → Service → Service
  unfolding accept_streams
  handle_connection none streams s = s
  handle_connection (some connection_id) streams s = accept_streams connection_id streams s

  pub data Step (s : Service) : Service → Type 0 where
    -- `accept_bi` gives a stream, whatever it will bring
    accept_bi :
        (connection_id : ℕ) (stream : Session)
        → stream.events ≡ []
        → Step s (record {
          log = s.log ++ client_connected connection_id ∷ [];
          tasks = spawn_stream connection_id stream ∷ s.tasks;
        })
    report :
        (before after : List Task) (t : Task) (e : Event) (later : List Event)
        → s.tasks ≡ before ++ t ∷ after
        → t.pending ≡ e ∷ later
        → Step s (record { log = s.log ++ e ∷ []; tasks = before ++ advance t e later ∷ after })

  pub data Reach : Service → Type 0 where
    start : Reach (record { log = []; tasks = [] })
    next : {s t : Service} → Reach s → Step s t → Reach t

module _ (env : Env) (db : Database) (token : AuthToken) where
  accept_streams-Reach :
      (connection_id : ℕ) (streams : List Session) (s : Service)
      → All (λ stream. stream.events ≡ []) streams
      → Reach env db token s
      → Reach env db token (accept_streams env db token connection_id streams s)
  unfolding accept_streams
  accept_streams-Reach c [] s fresh r = r
  accept_streams-Reach c (stream ∷ streams) s fresh r =
      accept_streams-Reach c streams _ fresh.1 (next r (accept_bi c stream fresh.0))

  -- A connection that is handled at once leads to a reachable state of the service.
  pub handle_connection-Reach :
      (connecting : Option ℕ) (streams : List Session) (s : Service)
      → All (λ stream. stream.events ≡ []) streams
      → Reach env db token s
      → Reach env db token (handle_connection env db token connecting streams s)
  unfolding handle_connection
  handle_connection-Reach none streams s fresh r = r
  handle_connection-Reach (some c) streams s fresh r = accept_streams-Reach c streams s fresh r
