-- ===== src/Progress/Threads/Due.antt =====
-- Which value is still to be reported, and what a move of one thread leaves of that.
use sendme.Base.{ℕ, ◌≡◌, ◌<◌, ◌≤◌, ◌⊎◌, inl, inr, refl, ◌∙◌, List, [], ◌∷◌, ◌++◌, ◌==◌}
use sendme.Base.{arith, All, Bool-cases, ◌≢◌, sym, true, false}
use sendme.Progress.{ProgressEmitter}
use sendme.Progress.Threads.{Pc, idle, counted, stepped, swapped}
use sendme.Progress.Threads.{System, update}

-- The value is among the events.
abbrev pub IsSent : ℕ → List ℕ → Type 0
IsSent k [] = ⊥
IsSent k (x ∷ xs) = (x ≡ k) ⊎ IsSent k xs

pub IsSent-last : (k : ℕ) (xs : List ℕ) → IsSent k (xs ++ k ∷ [])
IsSent-last k [] = inl refl
IsSent-last k (x ∷ xs) = inr (IsSent-last k xs)

pub IsSent-append : (k y : ℕ) (xs : List ℕ) → IsSent k xs → IsSent k (xs ++ y ∷ [])
IsSent-append k y [] h = elim h [ ]
IsSent-append k y (x ∷ xs) (inl e) = inl e
IsSent-append k y (x ∷ xs) (inr h) = inr (IsSent-append k y xs h)

-- The value is 0, was sent, or is about to be sent by a thread.
abbrev pub Due : System → ℕ → Type 0
Due s k =
    (k ≡ 0) ⊎ IsSent k s.emitter.events ⊎ ((i : ℕ) × (l : ℕ) × (s.pc i ≡ swapped k l) × (l < k))

-- A thread is on its way to the value for the count.
abbrev pub Coming : ℕ → ℕ → System → Type 0
Coming count top s = (i : ℕ) × ((s.pc i ≡ counted count) ⊎ (s.pc i ≡ stepped top))

-- What the local variables of a thread say, for the count and its share of the steps.
abbrev pub IsBelow : ℕ → ℕ → Pc → Type 0
IsBelow count top idle = Unit
IsBelow count top (counted c) = c ≤ count
IsBelow count top (stepped s) = s ≤ top
IsBelow count top (swapped s l) = s ≤ top

pub IsBelow-mono : {a b t u : ℕ} (p : Pc) → a ≤ b → t ≤ u → IsBelow a t p → IsBelow b u p
IsBelow-mono idle h k w = tt
IsBelow-mono (counted c) h k w = omega arith
IsBelow-mono (stepped s) h k w = omega arith
IsBelow-mono (swapped s l) h k w = omega arith

pub range_mono :
    {t u : ℕ} (xs : List ℕ)
    → t ≤ u
    → All (λ x. (0 < x) × (x ≤ t)) xs
    → All (λ x. (0 < x) × (x ≤ u)) xs
range_mono [] h a = tt
range_mono (x ∷ xs) h a = (omega arith, range_mono xs h a.1)

-- A move of thread `i` leaves the other threads where they are.
module _ (s : System) (i : ℕ) (p : Pc) (e : ProgressEmitter) where
  abbrev pub after : System
  after = record { emitter = e; pc = update s.pc i p }

  pub update_here : update s.pc i p i ≡ p
  update_here = ground arith

  pub update_there : (j : ℕ) → (i == j) ≡ false → update s.pc i p j ≡ s.pc j
  update_there j other = rw other refl

  pub same_thread : (j : ℕ) → (i == j) ≡ true → s.pc j ≡ s.pc i
  same_thread j h = let k : i ≡ j = ground arith in rw k refl

  pub Due-other :
      (k : ℕ)
      → e.events ≡ s.emitter.events
      → ((l : ℕ) → s.pc i ≢ swapped k l)
      → Due s k
      → Due after k
  Due-other k same nowhere (inl zero_k) = inl zero_k
  Due-other k same nowhere (inr (inl there)) = inr (inl (rw same there))
  Due-other k same nowhere (inr (inr (j, l, q, h))) = elim (Bool-cases (i == j)) [
    | inl here ↦ absurd (nowhere l (sym (same_thread j here) ∙ q))
    | inr other ↦ inr (inr (j, l, update_there j other ∙ q, h))
  ]

  pub Coming-other :
      (c t : ℕ) → s.pc i ≢ counted c → s.pc i ≢ stepped t → Coming c t s → Coming c t after
  Coming-other c t no_c no_t (j, inl q) = elim (Bool-cases (i == j)) [
    | inl here ↦ absurd (no_c (sym (same_thread j here) ∙ q))
    | inr other ↦ (j, inl (update_there j other ∙ q))
  ]
  Coming-other c t no_c no_t (j, inr q) = elim (Bool-cases (i == j)) [
    | inl here ↦ absurd (no_t (sym (same_thread j here) ∙ q))
    | inr other ↦ (j, inr (update_there j other ∙ q))
  ]

  pub IsBelow-after :
      (c t : ℕ)
      → IsBelow c t p
      → ((j : ℕ) → IsBelow c t (s.pc j))
      → (j : ℕ) → IsBelow c t (after.pc j)
  IsBelow-after c t here there j = elim (Bool-cases (i == j)) [
    | inl h ↦ rw h here
    | inr h ↦ rw h (there j)
  ]
