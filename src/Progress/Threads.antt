-- ===== src/Progress/Threads.antt =====
-- `InnerProgressEmitter::inc` of src/progress.rs on several threads at once, one atomic access at a
-- time. The orderings are relaxed, but each access is a read-modify-write or a load of a total that
-- nobody changes meanwhile, so the accesses of one variable are in one order.
pub mod Due
pub mod Moves
pub mod Complete
pub mod Sequential
use sendme.Base.{ℕ, ◌+◌, ◌%◌, ◌≡◌, ◌<◌, ◌≤◌, List, [], ◌∷◌, ◌++◌, ◌==◌, if◌then◌else◌}
use sendme.Base.Bytes.{u64_mod}
use sendme.Progress.{ProgressEmitter, new, step_at}

-- Where a thread stands, with the local variables that are live there.
pub data Pc : Type 0 where
  idle : Pc
  -- after `fetch_add`
  counted : (count : ℕ) → Pc
  -- after the division
  stepped : (step : ℕ) → Pc
  -- after `swap`
  swapped : (step last_step : ℕ) → Pc

-- One access of one thread. The division happens with a total that is not 0.
pub data Move (e : ProgressEmitter) : ℕ → Pc → ProgressEmitter → Pc → Type 0 where
  add :
      (amount : ℕ)
      → Move e amount idle
          (record e { count = (e.count + amount) % u64_mod })
          (counted ((e.count + amount) % u64_mod))
  divide : {c : ℕ} → 0 < e.total → Move e 0 (counted c) e (stepped (step_at c e.total e.steps))
  swap : {s : ℕ} → Move e 0 (stepped s) (record e { last_step = s }) (swapped s e.last_step)
  send : {s l : ℕ} → l < s → Move e 0 (swapped s l) (record e { events = e.events ++ s ∷ [] }) idle
  skip : {s l : ℕ} → s ≤ l → Move e 0 (swapped s l) e idle

-- The emitter that the threads share, and where each thread stands.
pub record System : Type 0 where
  pub emitter : ProgressEmitter
  pub pc : ℕ → Pc

abbrev pub update : (ℕ → Pc) → ℕ → Pc → ℕ → Pc
update f i p j = if i == j then p else f j

-- The states that a new emitter comes to, with the sum of the amounts that were added.
pub data Reach (total steps : ℕ) : ℕ → System → Type 0 where
  start : Reach total steps 0 (record { emitter = new total steps; pc = λ _. idle })
  later :
      {sum amount : ℕ} {s : System} {e : ProgressEmitter} {p : Pc} (i : ℕ)
      → Reach total steps sum s
      → Move s.emitter amount (s.pc i) e p
      → Reach total steps (sum + amount) (record { emitter = e; pc = update s.pc i p })
