-- ===== src/Progress/Threads/Complete.antt =====
-- What is reported however the threads interleave.
use sendme.Base.{ℕ, ◌≡◌, ◌<◌, ◌≤◌, ◌⊎◌, inl, inr, refl}
use sendme.Base.{arith, All, sym}
use sendme.Base.Bytes.{u64_mod}
use sendme.Progress.Climb.{InRange, share, share-le, share_zero}
use sendme.Progress.Threads.{idle}
use sendme.Progress.Threads.{System, Reach, start, later}
use sendme.Progress.Threads.Due.{IsSent, range_mono}
use sendme.Progress.Threads.Moves.{Inv, Move-Inv}

Reach-Inv :
    (total steps : ℕ) {sum : ℕ} {s : System}
    → InRange total steps
    → Reach total steps sum s
    → sum < u64_mod
    → Inv total steps sum s
Reach-Inv total steps range start fits = record {
  total_kept = refl;
  steps_kept = refl;
  counts = refl;
  below = λ i. tt;
  last = omega arith;
  last_due = λ h. inl (sym h);
  top = inl (inl (share_zero total steps));
  range = tt;
}
Reach-Inv total steps range (later {sum} {amount} {s} i r m) fits =
    Move-Inv total steps range (Reach-Inv total steps range r (omega arith)) i refl m fits

-- However any number of threads interleave their calls of `inc`, while the sum of the amounts is a
-- `u64`, every value that is sent is from 1 to the number of steps. (The total is not 0, the product
-- of total and steps is a `u64`, and the steps are a `u16`.)
pub threads_in_range :
    (total steps : ℕ) {sum : ℕ} {s : System}
    → InRange total steps
    → Reach total steps sum s
    → sum < u64_mod
    → All (λ x. (1 ≤ x) × (x ≤ steps)) s.emitter.events
threads_in_range total steps {sum} {s} range r fits =
    range_mono s.emitter.events (share-le sum total steps range.0)
      (Reach-Inv total steps range r fits).range

-- However any number of threads interleaved their calls of `inc`, once none is within a call, the share
-- of the steps that the sum of the amounts is of the total, rounded down, has been sent, unless it is
-- 0. (The total is not 0, the product of total and steps and the sum are a `u64`, and the steps are a
-- `u16`.)
pub threads_settled :
    (total steps : ℕ) {sum : ℕ} {s : System}
    → InRange total steps
    → Reach total steps sum s
    → sum < u64_mod
    → ((i : ℕ) → s.pc i ≡ idle)
    → (share sum total steps ≡ 0) ⊎ IsSent (share sum total steps) s.emitter.events
threads_settled total steps {sum} {s} range r fits quiet =
    elim (Reach-Inv total steps range r fits).top [
      | inl (inl none_yet) ↦ inl none_yet
      | inl (inr (inl there)) ↦ inr there
      | inl (inr (inr (i, l, q, h))) ↦ absurd (cc (quiet i, q))
      | inr (i, inl q) ↦ absurd (cc (quiet i, q))
      | inr (i, inr q) ↦ absurd (cc (quiet i, q))
    ]
