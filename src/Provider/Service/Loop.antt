-- ===== src/Provider/Service/Loop.antt =====
-- The accept loop of `Builder::run`. What `select!` finds in one turn is an input: whether the token is
-- cancelled, which is polled first, and what the endpoint accepts.
use Prim.Native.String.{String}
use sendme.Base.{ℕ, ◌≡◌, refl, ap, Bool, true, false, Option, none, some, List, [], ◌∷◌, ◌++◌}
use sendme.Base.{All, if◌then◌else◌}
use sendme.Protocol.Closed.{provider_terminating, to_varint, reason}

pub record Turn (Connecting : Type 0) : Type 0 where
  pub cancelled : Bool
  pub accepted : Option Connecting

-- The connections that were spawned, and the code and the reason that the endpoint was closed with.
pub record Served (Connecting : Type 0) : Type 0 where
  pub spawned : List Connecting
  pub closed : Option (ℕ × String)

module _ {Connecting : Type 0} where
  -- server.close(error_code.into(), error_code.reason())
  unfoldable pub close_server : Served Connecting
  unfolding to_varint reason
  close_server = record {
    spawned = [];
    closed = some (to_varint provider_terminating, reason provider_terminating);
  }

  -- `tokio::spawn(handle_connection(..))`, before what the later turns do
  abbrev spawn_connection : Connecting → Served Connecting → Served Connecting
  spawn_connection connecting rest = record rest { spawned = connecting ∷ rest.spawned }

  -- Once `accept` gave nothing its branch is disabled: `select!` waits for the cancellation, and the
  -- `else` is not reached.
  unfoldable pub wait_cancelled : List (Turn Connecting) → Served Connecting
  unfolding close_server
  wait_cancelled [] = record { spawned = []; closed = none }
  wait_cancelled (t ∷ ts) =
      let rest = wait_cancelled ts in if t.cancelled then close_server else rest

  abbrev accept_turn : Option Connecting → (rest waiting : Served Connecting) → Served Connecting
  accept_turn none rest waiting = waiting
  accept_turn (some connecting) rest waiting = spawn_connection connecting rest

  -- The loop over the turns; after the last one it still waits.
  unfoldable pub run_loop : List (Turn Connecting) → Served Connecting
  unfolding close_server wait_cancelled
  run_loop [] = record { spawned = []; closed = none }
  run_loop (t ∷ ts) =
      let rest = run_loop ts in
      let waiting = wait_cancelled ts in
      if t.cancelled then close_server else accept_turn t.accepted rest waiting

  -- The turn of a connection that is accepted before the service is cancelled.
  abbrev pub accepting : Connecting → Turn Connecting
  accepting connecting = record { cancelled = false; accepted = some connecting }

  abbrev pub turns_of : List Connecting → List (Turn Connecting)
  turns_of [] = []
  turns_of (c ∷ cs) = accepting c ∷ turns_of cs

  -- After any number of accepted connections the first turn in which the service is cancelled ends the
  -- loop, whether or not a connection waits in it, and whatever would follow: exactly the connections
  -- before it were spawned, and the endpoint is closed with the code and reason of a provider that
  -- terminates.
  pub run_loop_cancelled :
      (before : List Connecting) (waiting : Option Connecting) (after : List (Turn Connecting))
      → run_loop (turns_of before ++ record { cancelled = true; accepted = waiting } ∷ after)
        ≡ record {
          spawned = before;
          closed = some (to_varint provider_terminating, reason provider_terminating);
        }
  unfolding run_loop close_server
  run_loop_cancelled [] waiting after = refl
  run_loop_cancelled (c ∷ cs) waiting after =
      ap (spawn_connection c) (run_loop_cancelled cs waiting after)

  wait_cancelled-waits :
      (ts : List (Turn Connecting))
      → All (λ t. t.cancelled ≡ false) ts
      → (wait_cancelled ts).closed ≡ none
  unfolding wait_cancelled
  wait_cancelled-waits [] a = refl
  wait_cancelled-waits (t ∷ ts) a = rw (a.0, wait_cancelled-waits ts a.1) refl

  accept_turn-waits :
      (accepted : Option Connecting) (rest waiting : Served Connecting)
      → rest.closed ≡ none
      → waiting.closed ≡ none
      → (accept_turn accepted rest waiting).closed ≡ none
  accept_turn-waits none rest waiting r w = w
  accept_turn-waits (some connecting) rest waiting r w = r

  -- While the service is not cancelled the loop goes on.
  pub run_loop-waits :
      (ts : List (Turn Connecting))
      → All (λ t. t.cancelled ≡ false) ts
      → (run_loop ts).closed ≡ none
  unfolding run_loop
  run_loop-waits [] a = refl
  run_loop-waits (t ∷ ts) a = rw a.0 (
      accept_turn-waits t.accepted (run_loop ts) (wait_cancelled ts) (run_loop-waits ts a.1)
        (wait_cancelled-waits ts a.1))
