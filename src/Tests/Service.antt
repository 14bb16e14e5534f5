-- ===== src/Tests/Service.antt =====
-- The service in the toy environment: an accept loop that is cancelled, and two streams of one
-- connection that interleave.
use sendme.Base.{arith, ℕ, ◌+◌, ◌≡◌, ◌≤◌, refl, true, some, List, [], ◌∷◌, ◌++◌}
use sendme.Protocol.Closed.{provider_terminating, to_varint, reason}
use sendme.Provider.Session.{Event, client_connected, request_received, transfer_completed}
use sendme.Provider.Session.Serve.{handle_stream_serves}
use sendme.Protocol.Frames.Messages.{frame}
use sendme.Provider.Service.Loop.{run_loop, turns_of, run_loop_cancelled}
use sendme.Provider.Service.Streams.{Task, Service, spawn_stream, advance, accept_bi, report, Reach}
use sendme.Provider.Service.Streams.{start, next}
use sendme.Provider.Service.Counts.{count, opens, closes, receives, settles, panics, due_from}
use sendme.Provider.Service.Log.{settled-le-received, closed-eq-opened}
use sendme.Base.Bytes.{to_le}
use sendme.Tests.Toy.{toy, toy-ResponsesFit}
use sendme.Tests.Setup.{
  asked, session, db, token, Asks-asked, has_db, request, album, album_bytes, slices, photos,
}

abbrev connections : List ℕ
connections = 4 ∷ 5 ∷ []

run_loop_cancelled_example :
    run_loop (turns_of connections ++ record { cancelled = true; accepted = some 6 } ∷ [])
    ≡ record {
      spawned = connections;
      closed = some (to_varint provider_terminating, reason provider_terminating);
    }
run_loop_cancelled_example = run_loop_cancelled connections (some 6) []

-- Two streams of connection 3 bring the same request.
abbrev task : Task
task = spawn_stream toy db token 3 (session asked)

abbrev received : Event
received = request_received 3 1 photos

abbrev completed : Event
completed = transfer_completed 3 1

served : task.pending ≡ received ∷ completed ∷ []
unfolding spawn_stream to_le
served =
    (handle_stream_serves toy 1000 toy-ResponsesFit db token 3 request album (frame album_bytes)
      slices (session asked) Asks-asked has_db (omega arith) (omega arith) (omega arith) tt).3

-- The task with its first event sent.
abbrev halfway : Task
halfway = advance toy db token task received (completed ∷ [])

abbrev through : Task
through = advance toy db token halfway completed []

abbrev two_streams : Service
two_streams = record {
  log = client_connected 3 ∷ client_connected 3 ∷ received ∷ received ∷ completed ∷ completed ∷ [];
  tasks = through ∷ through ∷ [];
}

two_streams-Reach : Reach toy db token two_streams
two_streams-Reach =
    let a = next start (accept_bi 3 (session asked) refl) in
    let b = next a (accept_bi 3 (session asked) refl) in
    let c = next b (report [] (task ∷ []) task received (completed ∷ []) refl served) in
    let d = next c (report (halfway ∷ []) [] task received (completed ∷ []) refl served) in
    let e = next d (report [] (halfway ∷ []) halfway completed [] refl refl) in
    next e (report (through ∷ []) [] halfway completed [] refl refl)

settled-le-received_example :
    count (settles 3 1) two_streams.log ≤ count (receives 3 1) two_streams.log
settled-le-received_example = settled-le-received toy db token 3 1 two_streams-Reach

closed-eq-opened_example :
    count (closes 3) two_streams.log
      + due_from (closes 3) two_streams.tasks
      + panics 3 two_streams.tasks
    ≡ count (opens 3) two_streams.log
closed-eq-opened_example = closed-eq-opened toy db token 3 two_streams-Reach
