-- ===== src/Io/Calm.antt =====
-- Actions that never panic, one rule for each way to build an action.
use sendme.Base.{◌≢◌, refl, Bool, true, false, Option, none, some, if◌then◌else◌}
use sendme.Io.{
  Io, Outcome, ok, err, panic, Error, or_err, ensure, pure, fail, lift, and_then, ◌>>=◌,
}

pub record IsCalm {S A : Type 0} (m : Io S A) : Type 0 where
  pub at : (s : S) → (m s).0 ≢ panic

module _ {S A : Type 0} where
  pub pure-IsCalm : (a : A) → IsCalm {S = S} (pure a)
  pure-IsCalm a = record { at = λ s h. cc }

  pub fail-IsCalm : (e : Error) → IsCalm {S = S} {A = A} (fail e)
  fail-IsCalm e = record { at = λ s h. cc }

  pub or_err-IsCalm : (o : Option A) (e : Error) → IsCalm {S = S} (lift (or_err o e))
  or_err-IsCalm none e = record { at = λ s h. cc }
  or_err-IsCalm (some a) e = record { at = λ s h. cc }

  pub if-IsCalm : (b : Bool) (m n : Io S A) → IsCalm m → IsCalm n → IsCalm (if b then m else n)
  if-IsCalm true m n km kn = km
  if-IsCalm false m n km kn = kn

pub ensure-IsCalm : {S : Type 0} (b : Bool) (e : Error) → IsCalm {S = S} (ensure b e)
ensure-IsCalm true e = record { at = λ s h. cc }
ensure-IsCalm false e = record { at = λ s h. cc }

module _ {S A B : Type 0} where
  pub >>=-IsCalm :
      (m : Io S A) (f : A → Io S B) → IsCalm m → ((a : A) → IsCalm (f a)) → IsCalm (m >>= f)
  >>=-IsCalm m f km kf = record { at = λ s. after (m s).0 (m s).1 (km.at s) }
    where
      after : (r : Outcome A) (t : S) → r ≢ panic → (and_then r t f).0 ≢ panic
      after (ok a) t h = (kf a).at t
      after (err e) t h = λ p. cc
      after panic t h = λ p. h refl

pub ruleset calm_rules =
    (pure-IsCalm, fail-IsCalm, or_err-IsCalm, if-IsCalm, ensure-IsCalm, >>=-IsCalm)
