-- ===== src/Integration/Joined.antt =====
-- The end of the provider's task in the integration tests.
use sendme.Base.{ℕ, ◌≡◌, refl, ap, true, false, Option, List, ◌∷◌, ◌++◌, All}
use sendme.Io.{ok, panic}
use sendme.Provider.Service.{Provider}
use sendme.Provider.Service.Loop.{Turn, turns_of, run_loop_cancelled, run_loop-waits}
use sendme.Integration.{Testbed, ended, join}

module _ {K Address : Type 0} (t : Testbed K Address) (p : Provider Address) where
  -- A provider whose loop finds the token cancelled ends.
  pub join_cancelled :
      (before : List ℕ) (waiting : Option ℕ) (after : List (Turn ℕ))
      → t.turns p ≡ turns_of before ++ record { cancelled = true; accepted = waiting } ∷ after
      → join t p ≡ ok tt
  unfolding join
  join_cancelled before waiting after e =
      rw e (ap (λ s. ended s.closed) (run_loop_cancelled before waiting after))

  -- One whose loop does not is waited for in vain.
  pub join_waits : All (λ (turn : Turn ℕ). turn.cancelled ≡ false) (t.turns p) → join t p ≡ panic
  unfolding join
  join_waits a = rw (run_loop-waits (t.turns p) a) refl
