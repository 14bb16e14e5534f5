-- ===== src/Progress/Climb.antt =====
-- What a subscriber sees.
use native.Mathlib.Nat.{le-div_iff_mul-le, div-lt_iff_lt-mul, div-mul-le_self, mul-div_cancel_left}
use native.Mathlib.Nat.{le_trans, mod-eq_of_lt, zero-div}
use sendme.Base.{ℕ, ◌+◌, ◌*◌, ◌/◌, ◌%◌, ◌^◌, ◌≤◌, ◌<◌, min, ◌≡◌, refl, ap, sym, ◌∙◌, true, false}
use sendme.Base.{List, [], ◌∷◌, ◌++◌, arith, ltb, ◌==◌, Bool-cases, inl, inr}
use sendme.Base.Bytes.{u64_mod}
use sendme.Io.{ok, panic}
use sendme.Progress.{ProgressEmitter, new, step_at, swap_step, inc, inc_all}

-- The values rise strictly from `lo`, and the last of them is `hi`.
abbrev pub Climbs : ℕ → List ℕ → ℕ → Type 0
Climbs lo [] hi = lo ≡ hi
Climbs lo (x ∷ xs) hi = (lo < x) × Climbs x xs hi

Climbs-append :
    (lo : ℕ) (xs : List ℕ) (hi y : ℕ) → Climbs lo xs hi → hi < y → Climbs lo (xs ++ y ∷ []) y
Climbs-append lo [] hi y c h = (omega arith, refl)
Climbs-append lo (x ∷ xs) hi y c h = (c.0, Climbs-append x xs hi y c.1 h)

abbrev pub sum : List ℕ → ℕ
sum [] = 0
sum (x ∷ xs) = x + sum xs

-- An emitter whose products fit a `u64` and whose steps fit a `u16`.
abbrev pub InRange : ℕ → ℕ → Type 0
InRange total steps = (0 < total) × (total * steps < u64_mod) × (steps < 2 ^ 16)

-- The share of the steps, rounded down.
abbrev pub share : ℕ → ℕ → ℕ → ℕ
share count total steps = min count total * steps / total

scaled_mono : (a b s : ℕ) → a ≤ b → a * s ≤ b * s
scaled_mono a b s h = grind arith

pub share_mono : (a b t s : ℕ) → 0 < t → a ≤ b → share a t s ≤ share b t s
share_mono a b t s h k =
    (le-div_iff_mul-le h).1
      (le_trans (div-mul-le_self (min a t * s) t) (scaled_mono (min a t) (min b t) s (omega arith)))

pub share-le : (c t s : ℕ) → 0 < t → share c t s ≤ s
share-le c t s h =
    let below : min c t * s < (s + 1) * t =
      omega (arith, scaled_mono (min c t) t s (omega arith)) in
    let r : share c t s < s + 1 = (div-lt_iff_lt-mul h).1 below in omega arith

pub share-total : (c t s : ℕ) → 0 < t → t ≤ c → share c t s ≡ s
share-total c t s h k =
    let all : min c t ≡ t = omega arith in ap (λ (m : ℕ). m * s / t) all ∙ mul-div_cancel_left s h

-- The casts and the product do not lose anything in range.
pub step_at-eq-share : (c t s : ℕ) → InRange t s → step_at c t s ≡ share c t s
unfolding step_at
step_at-eq-share c t s (pos, room, small) =
    let product : (min c t * s) % u64_mod ≡ min c t * s =
      mod-eq_of_lt (omega (arith, scaled_mono (min c t) t s (omega arith))) in
    ap (λ (m : ℕ). m / t % 2 ^ 16) product ∙ mod-eq_of_lt (omega (arith, share-le c t s pos))

-- The emitter after it has counted `count`: what it has sent rises strictly from 0 to the step that
-- it stands at, and that is the share of the steps that `count` is of the total.
pub record IsTracking (total steps count : ℕ) (e : ProgressEmitter) : Type 0 where
  pub total_kept : e.total ≡ total
  pub steps_kept : e.steps ≡ steps
  pub counted : e.count ≡ count
  pub step : e.last_step ≡ share count total steps
  pub history : Climbs 0 e.events e.last_step

swap_step-Climbs :
    (step : ℕ) (e : ProgressEmitter)
    → Climbs 0 e.events e.last_step
    → e.last_step ≤ step
    → Climbs 0 (swap_step step e).1.events step
swap_step-Climbs step e h le = elim (Bool-cases (ltb e.last_step step)) [
  | inl up ↦ rw up (Climbs-append 0 e.events e.last_step step h (ground arith))
  | inr same ↦ let stays : e.last_step ≡ step = ground arith in rw (same, ← stays) h
]

-- One increment, while the count stays a `u64`.
pub inc-IsTracking :
    (total steps count amount : ℕ) (e : ProgressEmitter)
    → InRange total steps
    → count + amount < u64_mod
    → IsTracking total steps count e
    → ((inc amount e).0 ≡ ok tt) × IsTracking total steps (count + amount) (inc amount e).1
unfolding inc
inc-IsTracking total steps count amount e range fits t =
    let nonzero : (e.total == 0) ≡ false = ground (arith, t.total_kept, range.0) in
    let counts : (e.count + amount) % u64_mod ≡ count + amount =
      ap (λ (c : ℕ). (c + amount) % u64_mod) t.counted ∙ mod-eq_of_lt fits in
    let steps_to : step_at ((e.count + amount) % u64_mod) e.total e.steps
        ≡ share (count + amount) total steps =
      rw (counts, t.total_kept, t.steps_kept)
        (step_at-eq-share (count + amount) total steps range) in
    let up : e.last_step ≤ share (count + amount) total steps =
      omega (arith, t.step, share_mono count (count + amount) total steps range.0 (omega arith)) in
    rw nonzero (
      refl,
      record {
        total_kept = t.total_kept;
        steps_kept = t.steps_kept;
        counted = counts;
        step = steps_to;
        history =
            swap_step-Climbs _ (record e { count = (e.count + amount) % u64_mod }) t.history
              (rw steps_to up);
      },
    )

inc_all-IsTracking :
    (total steps count : ℕ) (amounts : List ℕ) (e : ProgressEmitter)
    → InRange total steps
    → count + sum amounts < u64_mod
    → IsTracking total steps count e
    → ((inc_all amounts e).0 ≡ ok tt)
      × IsTracking total steps (count + sum amounts) (inc_all amounts e).1
unfolding inc_all
inc_all-IsTracking total steps count [] e range fits t =
    let same : count + 0 ≡ count = omega arith in (refl, rw same t)
inc_all-IsTracking total steps count (a ∷ rest) e range fits t =
    let (fine, t') = inc-IsTracking total steps count a e range (omega arith) t in
    let same : count + (a + sum rest) ≡ count + a + sum rest = omega arith in
    let (done, last) =
      inc_all-IsTracking total steps (count + a) rest (inc a e).1 range (omega arith) t' in
    (rw fine done, rw (fine, same) last)

zero_product : (total steps : ℕ) → min 0 total * steps ≡ 0
zero_product total steps = let least : min 0 total ≡ 0 = omega arith in rw least (omega arith)

pub share_zero : (total steps : ℕ) → share 0 total steps ≡ 0
share_zero total steps = ap (λ (m : ℕ). m / total) (zero_product total steps) ∙ zero-div total

-- However the amounts are split, a new emitter sends values that rise strictly, from above 0 to the
-- share of the steps that the amounts are of the total, rounded down, which is the last value sent.
-- (The total is not 0, the product of total and steps and the
-- sum of the amounts are a `u64`, and the steps are a `u16`.)
pub inc_all_events :
    (total steps : ℕ) (amounts : List ℕ)
    → InRange total steps
    → sum amounts < u64_mod
    → let p = inc_all amounts (new total steps) in
      (p.0 ≡ ok tt) × Climbs 0 p.1.events (share (sum amounts) total steps)
inc_all_events total steps amounts range fits =
    let none_yet : share 0 total steps ≡ 0 =
      ap (λ (m : ℕ). m / total) (zero_product total steps) ∙ zero-div total in
    let start : IsTracking total steps 0 (new total steps) = record {
      total_kept = refl;
      steps_kept = refl;
      counted = refl;
      step = sym none_yet;
      history = refl;
    } in
    let (fine, t) =
      inc_all-IsTracking total steps 0 amounts (new total steps) range (omega arith) start in
    let zero_sum : 0 + sum amounts ≡ sum amounts = omega arith in
    let climbs = rw t.step at t.history in (fine, rw zero_sum at climbs)

-- When the amounts reach the total, the values of a new emitter rise strictly from above 0 to the number
-- of steps, which is the last value sent. (The total is not 0, the product of total and steps is a
-- `u64`, the steps are a `u16`, and the sum of the amounts is a `u64`.)
pub inc_all_complete :
    (total steps : ℕ) (amounts : List ℕ)
    → InRange total steps
    → sum amounts < u64_mod
    → total ≤ sum amounts
    → Climbs 0 (inc_all amounts (new total steps)).1.events steps
inc_all_complete total steps amounts range fits full =
    rw (share-total (sum amounts) total steps range.0 full) at
      ((inc_all_events total steps amounts range fits).1)

-- A total of 0, as of an empty file, makes every increment panic.
pub inc_zero_total : (amount : ℕ) (e : ProgressEmitter) → e.total ≡ 0 → (inc amount e).0 ≡ panic
unfolding inc
inc_zero_total amount e h =
    let zero_total : (e.total == 0) ≡ true = ground arith in rw zero_total refl
