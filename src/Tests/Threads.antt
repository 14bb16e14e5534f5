-- ===== src/Tests/Threads.antt =====
-- A run of two threads in the progress emitter in which the slower one overtakes.
use sendme.Base.{ℕ, zero, suc, ◌≡◌, ◌≤◌, ◌⊎◌, refl, List, [], ◌∷◌, All, arith}
use sendme.Progress.{ProgressEmitter, step_at}
use sendme.Progress.Climb.{InRange, share}
use sendme.Progress.Threads.{idle, add, divide, swap, send, skip}
use sendme.Progress.Threads.{System, Reach, start, later}
use sendme.Progress.Threads.Due.{IsSent}
use sendme.Progress.Threads.Complete.{threads_in_range, threads_settled}

abbrev two_steps : InRange 2 2
two_steps = (omega arith, omega arith, omega arith)

abbrev emitter : ℕ → ℕ → List ℕ → ProgressEmitter
emitter count last_step events = record {
  total = 2;
  count = count;
  steps = 2;
  last_step = last_step;
  events = events;
}

-- Thread 0 counts to 1 and thread 1 to 2; thread 1 reports step 2 before thread 0 swaps in step 1, and
-- thread 0 reports step 2 again.
abbrev overtaking : (s : System) × Reach 2 2 3 s
unfolding step_at
overtaking =
    let a = later 0 start (add 1) in
    let b = later 1 a (add 1) in
    let c = later 0 b (divide (omega arith)) in
    let d = later 1 c (divide (omega arith)) in
    let f = later 1 d swap in
    let g = later 1 f (send (omega arith)) in
    let h = later 0 g swap in
    let i = later 0 h (skip (omega arith)) in
    let j = later 0 i (add 1) in
    let k = later 0 j (divide (omega arith)) in
    let l = later 0 k swap in let m = later 0 l (send (omega arith)) in (_, m)

overtaking_twice : overtaking.0.emitter ≡ emitter 3 2 (2 ∷ 2 ∷ [])
unfolding step_at overtaking
overtaking_twice = refl

quiet : (i : ℕ) → overtaking.0.pc i ≡ idle
unfolding step_at overtaking
quiet zero = refl
quiet (suc zero) = refl
quiet (suc (suc i)) = ground arith

threads_in_range_example : All (λ x. (1 ≤ x) × (x ≤ 2)) overtaking.0.emitter.events
threads_in_range_example = threads_in_range 2 2 two_steps overtaking.1 (omega arith)

threads_settled_example : (share 3 2 2 ≡ 0) ⊎ IsSent (share 3 2 2) overtaking.0.emitter.events
threads_settled_example = threads_settled 2 2 two_steps overtaking.1 (omega arith) quiet
