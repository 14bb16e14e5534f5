-- ===== src/Progress/Threads/Sequential.antt =====
-- `inc` of src/progress.rs and the accesses of one thread in a row.
use sendme.Base.{
  if◌then◌else◌, ◌++◌, ◌∷◌, [], ℕ, ◌≡◌, ◌<◌, false, ltb, ◌==◌, ◌+◌, ◌%◌, arith, Bool-cases, inl,
  inr,
}
use mathlib.Core.Path.{subst}
use sendme.Base.Bytes.{u64_mod}
use sendme.Progress.{ProgressEmitter, inc, step_at, swap_step}
use sendme.Progress.Threads.{Pc, idle, swapped, Move, add, divide, swap, send, skip}

-- The moves of one thread from one place to another, with what they add.
pub data Moves : ℕ → ProgressEmitter → Pc → ProgressEmitter → Pc → Type 0 where
  stay : {e : ProgressEmitter} {p : Pc} → Moves 0 e p e p
  go :
      {amount sum : ℕ} {e f g : ProgressEmitter} {p q r : Pc}
      → Move e amount p f q
      → Moves sum f q g r
      → Moves (amount + sum) e p g r

-- The last access, by whether the step rises.
last_move :
    (s l : ℕ) (e : ProgressEmitter)
    → Move e 0
        (swapped s l)
        (record e { events = if ltb l s then e.events ++ s ∷ [] else e.events })
        idle
last_move s l e = elim (Bool-cases (ltb l s)) [
  | inl rises ↦ rw rises (send (ground arith))
  | inr stays ↦ rw stays (skip (ground arith))
]

-- With a total that is not 0, `inc` comes to where the moves of one thread from outside a call back to
-- outside it come.
pub inc-Moves :
    (amount : ℕ) (e : ProgressEmitter) → 0 < e.total → Moves amount e idle (inc amount e).1 idle
unfolding inc
inc-Moves amount e pos =
    let count = (e.count + amount) % u64_mod in
    let counted_e = record e { count = count } in
    let step = step_at count e.total e.steps in
    let nonzero : (e.total == 0) ≡ false = ground arith in
    let stepped_e = record counted_e { last_step = step } in
    let all =
      go (add amount)
        (go (divide pos) (go swap (go (last_move step e.last_step stepped_e) stay))) in
    let sum : amount + (0 + (0 + (0 + 0))) ≡ amount = omega arith in
    rw nonzero (subst (λ (n : ℕ). Moves n e idle (swap_step step counted_e).1 idle) sum all)
