-- ===== src/Progress.antt =====
-- src/progress.rs: the progress emitter, with one `inc` at a time. The arithmetic on `u64` wraps, as
-- in a release build; a division by zero is the panic that it is in Rust. `events` is what `tx` has
-- sent. The channel of 16 slots and its receivers are tokio's.
pub mod Climb
pub mod Threads
use sendme.Base.{
  ℕ, ◌+◌, ◌-◌, ◌*◌, ◌/◌, ◌%◌, ◌^◌, min, List, [], ◌∷◌, ◌++◌, ltb, ◌==◌, if◌then◌else◌,
}
use sendme.Base.Bytes.{u64_mod}
use sendme.Io.{Io, Outcome, ok, panic, pure, ◌>>=◌, ◌>>◌}

-- `InnerProgressEmitter`
pub record ProgressEmitter : Type 0 where
  pub total : ℕ
  pub count : ℕ
  pub steps : ℕ
  pub last_step : ℕ
  pub events : List ℕ

-- `ProgressEmitter::new`
abbrev pub new : ℕ → ℕ → ProgressEmitter
new total steps = record { total = total; count = 0; steps = steps; last_step = 0; events = [] }

-- `set_total`
unfoldable pub set_total : ℕ → ProgressEmitter → ProgressEmitter
set_total value e = record e { total = value }

-- (min(count, total) * u64::from(steps) / total) as u16
unfoldable pub step_at : ℕ → ℕ → ℕ → ℕ
step_at count total steps = (min count total * steps) % u64_mod / total % 2 ^ 16

-- What follows the division in `inc`.
abbrev pub swap_step : ℕ → Io ProgressEmitter (Unit {0})
swap_step step e = (
  ok tt,
  record e {
    last_step = step;
    events = if ltb e.last_step step then e.events ++ step ∷ [] else e.events;
  },
)

unfoldable pub inc : ℕ → Io ProgressEmitter (Unit {0})
inc amount e =
    let count = (e.count + amount) % u64_mod in
    let counted = record e { count = count } in
    if e.total == 0 then (panic, counted) else swap_step (step_at count e.total e.steps) counted

-- One call after another.
unfoldable pub inc_all : List ℕ → Io ProgressEmitter (Unit {0})
inc_all [] = pure tt
inc_all (amount ∷ amounts) = do inc amount; inc_all amounts

-- What the wrapped reader answers to a poll, with the length of the filled part of the buffer.
pub data Poll (A : Type 0) : Type 0 where
  ready : A → ℕ → Poll A
  pending : Poll A

-- `ProgressAsyncReader::poll_read` with `prev_len` bytes filled before
unfoldable pub poll_read : {A : Type 0} → ℕ → Poll A → Io ProgressEmitter (Poll A)
poll_read prev_len (ready val new_len) = do inc (new_len - prev_len); pure (ready val new_len)
poll_read prev_len pending = pure pending
