-- ===== src/Provider/Service/Counts.antt =====
-- Counting events, in the channel and in the runs of the tasks.
use sendme.Base.{ℕ, ◌+◌, ◌-◌, ◌≡◌, ◌≤◌, refl, Bool, true, false, none, some, List, [], ◌∷◌, ◌++◌}
use sendme.Base.{arith, All, ◌==◌, ◌&&◌}
use sendme.Io.{Outcome, ok, err, panic}
use sendme.Provider.Session.{Event, client_connected, request_received, transfer_completed}
use sendme.Provider.Session.{transfer_aborted}
use sendme.Provider.Session.Events.{Reported}
use sendme.Provider.Service.Streams.{Task}

abbrev pub count_if : Bool → ℕ
count_if true = 1
count_if false = 0

-- How many events of a kind a list has.
abbrev pub count : (Event → ℕ) → List Event → ℕ
count kind [] = 0
count kind (e ∷ es) = kind e + count kind es

-- A stream of the connection was opened; a transfer of it was closed, completed or aborted.
abbrev pub opens : ℕ → Event → ℕ
opens c (client_connected c') = count_if (c' == c)
opens c (request_received _ _ _) = 0
opens c (transfer_completed _ _) = 0
opens c (transfer_aborted _ _) = 0

abbrev pub closes : ℕ → Event → ℕ
closes c (client_connected _) = 0
closes c (request_received _ _ _) = 0
closes c (transfer_completed c' _) = count_if (c' == c)
closes c (transfer_aborted c' _) = count_if (c' == c)

-- A request of the connection was received; it was completed or aborted.
abbrev pub receives : ℕ → ℕ → Event → ℕ
receives c id (client_connected _) = 0
receives c id (request_received c' id' _) = count_if ((c' == c) && (id' == id))
receives c id (transfer_completed _ _) = 0
receives c id (transfer_aborted _ _) = 0

abbrev pub settles : ℕ → ℕ → Event → ℕ
settles c id (client_connected _) = 0
settles c id (request_received _ _ _) = 0
settles c id (transfer_completed c' id') = count_if ((c' == c) && (id' == id))
settles c id (transfer_aborted c' (some id')) = count_if ((c' == c) && (id' == id))
settles c id (transfer_aborted c' none) = 0

abbrev pub is_panic : Outcome (Unit {0}) → Bool
is_panic (ok _) = false
is_panic (err _) = false
is_panic panic = true

-- The tasks of the connection that panicked.
abbrev pub panics : ℕ → List Task → ℕ
panics c [] = 0
panics c (t ∷ ts) = count_if ((t.connection_id == c) && is_panic t.outcome) + panics c ts

abbrev pub streams : ℕ → List Task → ℕ
streams c [] = 0
streams c (t ∷ ts) = count_if (t.connection_id == c) + streams c ts

-- What the tasks have sent.
abbrev pub sent_by : (Event → ℕ) → List Task → ℕ
sent_by kind [] = 0
sent_by kind (t ∷ ts) = count kind t.sent + sent_by kind ts

-- What the tasks have still to send.
abbrev pub due_from : (Event → ℕ) → List Task → ℕ
due_from kind [] = 0
due_from kind (t ∷ ts) = count kind t.pending + due_from kind ts

pub count-append :
    (kind : Event → ℕ) (xs ys : List Event) → count kind (xs ++ ys) ≡ count kind xs + count kind ys
count-append kind [] ys = omega arith
count-append kind (x ∷ xs) ys = omega (arith, count-append kind xs ys)

-- A task's events are those of its whole run.
abbrev pub IsRun : Task → Type 0
IsRun t = Reported t.connection_id t.outcome (t.sent ++ t.pending)

pub Reported-opens :
    (c k : ℕ) {o : Outcome (Unit {0})} {es : List Event} → Reported k o es → count (opens c) es ≡ 0
Reported-opens c k Reported.panicked = refl
Reported-opens c k (Reported.not_requested e) = refl
Reported-opens c k (Reported.completed id h) = refl
Reported-opens c k (Reported.aborted id h) = refl
Reported-opens c k (Reported.broken id h e) = refl

pub Reported-closes :
    (c k : ℕ) {o : Outcome (Unit {0})} {es : List Event}
    → Reported k o es
    → count (closes c) es + count_if ((k == c) && is_panic o) ≡ count_if (k == c)
Reported-closes c k Reported.panicked = ground arith
Reported-closes c k (Reported.not_requested e) = ground arith
Reported-closes c k (Reported.completed id h) = ground arith
Reported-closes c k (Reported.aborted id h) = ground arith
Reported-closes c k (Reported.broken id h e) = ground arith

-- From `n` requests that are open on, no prefix of the events settles more than were received.
abbrev pub IsCovered : ℕ → ℕ → ℕ → List Event → Type 0
IsCovered c id n [] = Unit
IsCovered c id n (e ∷ es) =
    (settles c id e ≤ n + receives c id e)
    × IsCovered c id (n + receives c id e - settles c id e) es

pub Reported-IsCovered :
    (c id k : ℕ) {o : Outcome (Unit {0})} {es : List Event} → Reported k o es → IsCovered c id 0 es
Reported-IsCovered c id k Reported.panicked = tt
Reported-IsCovered c id k (Reported.not_requested e) = (omega arith, tt)
Reported-IsCovered c id k (Reported.completed i h) = (omega arith, (omega arith, tt))
Reported-IsCovered c id k (Reported.aborted i h) = (omega arith, (omega arith, tt))
Reported-IsCovered c id k (Reported.broken i h e) = (omega arith, (omega arith, tt))

pub covered_prefix :
    (c id n : ℕ) (xs ys : List Event)
    → IsCovered c id n (xs ++ ys)
    → count (settles c id) xs ≤ n + count (receives c id) xs
covered_prefix c id n [] ys h = omega arith
covered_prefix c id n (x ∷ xs) ys h =
    omega (arith, h.0, covered_prefix c id (n + receives c id x - settles c id x) xs ys h.1)

pub sent_by-append :
    (kind : Event → ℕ) (xs ys : List Task)
    → sent_by kind (xs ++ ys) ≡ sent_by kind xs + sent_by kind ys
sent_by-append kind [] ys = omega arith
sent_by-append kind (x ∷ xs) ys = omega (arith, sent_by-append kind xs ys)

pub streams-append :
    (c : ℕ) (xs ys : List Task) → streams c (xs ++ ys) ≡ streams c xs + streams c ys
streams-append c [] ys = omega arith
streams-append c (x ∷ xs) ys = omega (arith, streams-append c xs ys)

pub AllRun-split :
    (xs : List Task) (t : Task) (ys : List Task)
    → All IsRun (xs ++ t ∷ ys)
    → All IsRun xs × IsRun t × All IsRun ys
AllRun-split [] t ys h = (tt, h.0, h.1)
AllRun-split (x ∷ xs) t ys (hx, h) = let (a, b, d) = AllRun-split xs t ys h in ((hx, a), b, d)
