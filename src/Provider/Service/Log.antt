-- ===== src/Provider/Service/Log.antt =====
-- What a subscriber of the provider's events can count on.
use sendme.Base.{ℕ, ◌+◌, ◌≡◌, ◌≤◌, refl, ap, ◌∙◌, List, [], ◌∷◌, ◌++◌}
use sendme.Base.{arith, All, All-append, append_assoc}
use mathlib.Core.Path.{subst}
use sendme.Protocol.Codec.{AuthToken}
use sendme.Env.{Env}
use sendme.Provider.Database.{Database}
use sendme.Provider.Session.{Event, client_connected}
use sendme.Provider.Session.{Session, handle_stream}
use sendme.Provider.Session.Events.{Reported, handle_stream_events}
use sendme.Provider.Service.Streams.{Task, Service, spawn_stream, advance, accept_bi, report, Reach}
use sendme.Provider.Service.Streams.{start, next}
use sendme.Provider.Service.Counts.{
  count, opens, closes, receives, settles, panics, due_from, streams, sent_by, count-append, IsRun,
  Reported-opens, Reported-closes, Reported-IsCovered, covered_prefix, sent_by-append,
  streams-append, AllRun-split,
}

record Inv (s : Service) : Type 0 where
  runs : All IsRun s.tasks
  opened : (c : ℕ) → count (opens c) s.log ≡ streams c s.tasks
  logged :
      (kind : Event → ℕ)
      → ((c : ℕ) → kind (client_connected c) ≡ 0)
      → count kind s.log ≡ sent_by kind s.tasks

module _ (env : Env) (db : Database) (token : AuthToken) where
  spawn_stream-IsRun :
      (c : ℕ) (stream : Session) → stream.events ≡ [] → IsRun (spawn_stream env db token c stream)
  unfolding spawn_stream
  spawn_stream-IsRun c stream fresh =
      let (trace, wrote, reported) = handle_stream_events env db c token stream in
      let same : (handle_stream env db token c stream).1.events ≡ trace =
        wrote ∙ ap (λ (l : List Event). l ++ trace) fresh in
      rw same reported

  accept_bi-Inv :
      (s : Service) (c : ℕ) (stream : Session)
      → stream.events ≡ []
      → Inv s
      → Inv (record {
        log = s.log ++ client_connected c ∷ [];
        tasks = spawn_stream env db token c stream ∷ s.tasks;
      })
  unfolding spawn_stream
  accept_bi-Inv s c stream fresh inv = record {
    runs = (spawn_stream-IsRun c stream fresh, inv.runs);
    opened =
        λ k. omega (arith, count-append (opens k) s.log (client_connected c ∷ []), inv.opened k);
    logged = λ kind h.
        omega (arith, count-append kind s.log (client_connected c ∷ []), inv.logged kind h, h c);
  }

  report-Inv :
      (s : Service) (before after : List Task) (t : Task) (e : Event) (later : List Event)
      → s.tasks ≡ before ++ t ∷ after
      → t.pending ≡ e ∷ later
      → Inv s
      → Inv (record {
        log = s.log ++ e ∷ [];
        tasks = before ++ advance env db token t e later ∷ after;
      })
  report-Inv s before after t e later at q inv =
      let (first, here, last) = AllRun-split before t after (subst (All IsRun) at inv.runs) in
      let run : Reported t.connection_id t.outcome (t.sent ++ e ∷ later) =
        subst (λ (l : List Event). Reported t.connection_id t.outcome (t.sent ++ l)) q here in
      let t' = advance env db token t e later in
      record {
        runs =
            All-append IsRun before (t' ∷ after) first
              (rw (append_assoc t.sent (e ∷ []) later) run, last);
        opened = λ c. omega (
          arith,
          Reported-opens c t.connection_id run,
          count-append (opens c) t.sent (e ∷ later),
          count-append (opens c) s.log (e ∷ []),
          inv.opened c,
          ap (streams c) at,
          streams-append c before (t ∷ after),
          streams-append c before (t' ∷ after),
        );
        logged = λ kind h. omega (
          arith,
          count-append kind t.sent (e ∷ []),
          count-append kind s.log (e ∷ []),
          inv.logged kind h,
          ap (sent_by kind) at,
          sent_by-append kind before (t ∷ after),
          sent_by-append kind before (t' ∷ after),
        );
      }

  Reach-Inv : {s : Service} → Reach env db token s → Inv s
  Reach-Inv start = record { runs = tt; opened = λ c. refl; logged = λ kind h. refl }
  Reach-Inv (next {s} r (accept_bi c stream fresh)) = accept_bi-Inv s c stream fresh (Reach-Inv r)
  Reach-Inv (next {s} r (report before after t e later at q)) =
      report-Inv s before after t e later at q (Reach-Inv r)

-- The closing events of the tasks, sent and due, with those that panicked, are one for each stream.
closed_streams :
    (c : ℕ) (ts : List Task)
    → All IsRun ts
    → sent_by (closes c) ts + due_from (closes c) ts + panics c ts ≡ streams c ts
closed_streams c [] r = refl
closed_streams c (t ∷ ts) (r, rs) = omega (
  arith,
  Reported-closes c t.connection_id r,
  count-append (closes c) t.sent t.pending,
  closed_streams c ts rs,
)

settled_tasks :
    (c id : ℕ) (ts : List Task)
    → All IsRun ts
    → sent_by (settles c id) ts ≤ sent_by (receives c id) ts
settled_tasks c id [] r = omega arith
settled_tasks c id (t ∷ ts) (r, rs) = omega (
  arith,
  covered_prefix c id 0 t.sent t.pending (Reported-IsCovered c id t.connection_id r),
  settled_tasks c id ts rs,
)

module _ (env : Env) (db : Database) (token : AuthToken) where
  -- However the streams of any number of connections interleave, and whatever arrives on them: at every
  -- moment no more requests with a connection's id and a request's id are reported as completed or
  -- aborted than were reported as received with these ids.
  pub settled-le-received :
      {s : Service} (c id : ℕ)
      → Reach env db token s
      → count (settles c id) s.log ≤ count (receives c id) s.log
  settled-le-received {s} c id r =
      let inv = Reach-Inv env db token r in
      omega (
        arith,
        inv.logged (settles c id) (λ k. refl),
        inv.logged (receives c id) (λ k. refl),
        settled_tasks c id s.tasks inv.runs,
      )

  -- However the streams of any number of connections interleave, and whatever arrives on them: at every
  -- moment the streams of a connection that were reported as connected are as many as those reported
  -- as completed or aborted, those whose task has that report still to send, and those whose task
  -- panics, which never reports an end.
  pub closed-eq-opened :
      {s : Service} (c : ℕ)
      → Reach env db token s
      → count (closes c) s.log + due_from (closes c) s.tasks + panics c s.tasks
        ≡ count (opens c) s.log
  closed-eq-opened {s} c r =
      let inv = Reach-Inv env db token r in
      omega
        (arith, inv.logged (closes c) (λ k. refl), inv.opened c, closed_streams c s.tasks inv.runs)
