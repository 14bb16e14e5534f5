-- ===== src/Progress/Threads/Moves.antt =====
-- What every access of a thread keeps.
use sendme.Base.{ℕ, ◌+◌, ◌%◌, ◌≡◌, ◌<◌, ◌≤◌, ◌⊎◌, inl, inr, refl, ap, ◌∙◌, [], ◌∷◌, ◌++◌, ◌==◌}
use sendme.Base.{arith, All, All-append, Bool-cases, ltb, sym}
use sendme.Base.Bytes.{u64_mod}
use mathlib.Core.Path.{subst}
use sendme.Progress.{ProgressEmitter, step_at}
use sendme.Progress.Climb.{InRange, share, share_mono, step_at-eq-share}
use sendme.Progress.Threads.{
  Pc, idle, counted, stepped, swapped, Move, add, divide, swap, send, skip,
}
use sendme.Progress.Threads.{System}
use sendme.Progress.Threads.Due.{
  IsSent, IsSent-last, IsSent-append, Due, Coming, IsBelow, IsBelow-mono, range_mono, after,
  update_here, update_there, same_thread, Due-other, Coming-other, IsBelow-after,
}

-- The state after amounts of the given sum.
pub record Inv (total steps sum : ℕ) (s : System) : Type 0 where
  pub total_kept : s.emitter.total ≡ total
  pub steps_kept : s.emitter.steps ≡ steps
  pub counts : s.emitter.count ≡ sum
  pub below : (i : ℕ) → IsBelow sum (share sum total steps) (s.pc i)
  pub last : s.emitter.last_step ≤ share sum total steps
  pub last_due : s.emitter.last_step ≡ share sum total steps → Due s (share sum total steps)
  pub top : Due s (share sum total steps) ⊎ Coming sum (share sum total steps) s
  pub range : All (λ x. (0 < x) × (x ≤ share sum total steps)) s.emitter.events

plus_zero : (n : ℕ) → n ≡ n + 0
plus_zero n = omega arith

module _ (total steps : ℕ) (range : InRange total steps) {sum : ℕ} {s : System}
    (inv : Inv total steps sum s) (i : ℕ) where
  abbrev part : ℕ
  part = share sum total steps

  add-Inv :
      (amount : ℕ)
      → s.pc i ≡ idle
      → sum + amount < u64_mod
      → Inv total steps (sum + amount) (
          after s i
            (counted ((s.emitter.count + amount) % u64_mod))
            (record s.emitter { count = (s.emitter.count + amount) % u64_mod }))
  add-Inv amount q fits =
      let c = (s.emitter.count + amount) % u64_mod in
      let e = record s.emitter { count = c } in
      let more : part ≤ share (sum + amount) total steps =
        share_mono sum (sum + amount) total steps range.0 (omega arith) in
      let exact : c ≡ sum + amount = omega (arith, inv.counts) in
      record {
        total_kept = inv.total_kept;
        steps_kept = inv.steps_kept;
        counts = exact;
        below =
            IsBelow-after s i (counted c) e (sum + amount) (share (sum + amount) total steps)
              (omega arith) (λ j. IsBelow-mono (s.pc j) (omega arith) more (inv.below j));
        last = omega (arith, inv.last);
        last_due = λ h.
            let same : part ≡ share (sum + amount) total steps = omega (arith, inv.last) in
            let old : s.emitter.last_step ≡ part = omega arith in
            Due-other s i (counted c) e (share (sum + amount) total steps) refl (λ l w. cc (q, w))
              (subst (Due s) same (inv.last_due old));
        top = inr (i, inl (update_here s i (counted c) e ∙ ap counted exact));
        range = range_mono s.emitter.events more inv.range;
      }

  divide-Inv :
      {c : ℕ}
      → s.pc i ≡ counted c
      → Inv total steps sum
          (after s i (stepped (step_at c s.emitter.total s.emitter.steps)) s.emitter)
  divide-Inv {c} q =
      let p : Pc = stepped (step_at c s.emitter.total s.emitter.steps) in
      let exact : step_at c s.emitter.total s.emitter.steps ≡ share c total steps =
        rw (inv.total_kept, inv.steps_kept) (step_at-eq-share c total steps range) in
      let c_below : c ≤ sum = subst (IsBelow sum part) q (inv.below i) in
      let small : share c total steps ≤ part = share_mono c sum total steps range.0 c_below in
      record {
        total_kept = inv.total_kept;
        steps_kept = inv.steps_kept;
        counts = inv.counts;
        below = IsBelow-after s i p s.emitter sum part (omega arith) inv.below;
        last = inv.last;
        last_due = λ h. Due-other s i p s.emitter part refl (λ l w. cc (q, w)) (inv.last_due h);
        top = coming p exact inv.top;
        range = inv.range;
      }
    where
      coming :
          (p : Pc)
          → step_at c s.emitter.total s.emitter.steps ≡ share c total steps
          → Due s part ⊎ Coming sum part s
          → Due (after s i (stepped (step_at c s.emitter.total s.emitter.steps)) s.emitter) part
            ⊎ Coming sum part
                (after s i (stepped (step_at c s.emitter.total s.emitter.steps)) s.emitter)
      coming p exact (inl d) = inl (Due-other s i _ s.emitter part refl (λ l w. cc (q, w)) d)
      coming p exact (inr (j, inl r)) = elim (Bool-cases (i == j)) [
        | inl h ↦
            let same : counted c ≡ counted sum =
              sym q ∙ sym (same_thread s i p s.emitter j h) ∙ r in
            let c_sum : c ≡ sum = ground arith in
            inr (
              i,
              inr (
                  update_here s i _ s.emitter
                  ∙ ap stepped (exact ∙ ap (λ (x : ℕ). share x total steps) c_sum)),
            )
        | inr h ↦ inr (j, inl (update_there s i _ s.emitter j h ∙ r))
      ]
      coming p exact (inr (j, inr r)) = elim (Bool-cases (i == j)) [
        | inl h ↦ absurd (cc (q, same_thread s i p s.emitter j h, r))
        | inr h ↦ inr (j, inr (update_there s i _ s.emitter j h ∙ r))
      ]

  swap-Due :
      (v : ℕ)
      → s.pc i ≡ stepped v
      → v ≡ part
      → Due (after s i (swapped v s.emitter.last_step) (record s.emitter { last_step = v })) part
  swap-Due v q h =
      let p : Pc = swapped v s.emitter.last_step in
      let e = record s.emitter { last_step = v } in
      elim (Bool-cases (ltb s.emitter.last_step v)) [
        | inl up ↦ inr (
            inr (
              i,
              s.emitter.last_step,
              update_here s i p e ∙ ap (λ (x : ℕ). swapped x s.emitter.last_step) h,
              ground arith,
            ))
        | inr down ↦
            let old : s.emitter.last_step ≡ part = ground (arith, inv.last) in
            Due-other s i p e part refl (λ l w. cc (q, w)) (inv.last_due old)
      ]

  swap-top :
      (v : ℕ)
      → s.pc i ≡ stepped v
      → Due s part ⊎ Coming sum part s
      → let t = after s i (swapped v s.emitter.last_step) (record s.emitter { last_step = v }) in
        Due t part ⊎ Coming sum part t
  swap-top v q (inl d) = inl (
      Due-other s i (swapped v s.emitter.last_step) (record s.emitter { last_step = v }) part refl
        (λ l w. cc (q, w)) d)
  swap-top v q (inr (j, inl r)) = elim (Bool-cases (i == j)) [
    | inl h ↦ absurd (cc (q, same_thread s i idle s.emitter j h, r))
    | inr h ↦ inr (j, inl (update_there s i _ s.emitter j h ∙ r))
  ]
  swap-top v q (inr (j, inr r)) = elim (Bool-cases (i == j)) [
    | inl h ↦
        let same : stepped v ≡ stepped part =
          sym q ∙ sym (same_thread s i idle s.emitter j h) ∙ r in
        let v_part : v ≡ part = ground arith in inl (swap-Due v q v_part)
    | inr h ↦ inr (j, inr (update_there s i _ s.emitter j h ∙ r))
  ]

  swap-Inv :
      {v : ℕ}
      → s.pc i ≡ stepped v
      → Inv total steps sum
          (after s i (swapped v s.emitter.last_step) (record s.emitter { last_step = v }))
  swap-Inv {v} q =
      let p : Pc = swapped v s.emitter.last_step in
      let e = record s.emitter { last_step = v } in
      let v_below : v ≤ part = subst (IsBelow sum part) q (inv.below i) in
      record {
        total_kept = inv.total_kept;
        steps_kept = inv.steps_kept;
        counts = inv.counts;
        below = IsBelow-after s i p e sum part v_below inv.below;
        last = v_below;
        last_due = swap-Due v q;
        top = swap-top v q inv.top;
        range = inv.range;
      }

  -- The last access, whether or not it sends: what was due and is not this thread's stays due.
  close-Inv :
      {v l : ℕ} (e : ProgressEmitter)
      → s.pc i ≡ swapped v l
      → e ≡ record s.emitter { events = e.events }
      → ((k : ℕ) → Due s k → Due (after s i idle e) k)
      → All (λ x. (0 < x) × (x ≤ part)) e.events
      → Inv total steps sum (after s i idle e)
  close-Inv e q same due all = record {
    total_kept = ap (λ x. x.total) same ∙ inv.total_kept;
    steps_kept = ap (λ x. x.steps) same ∙ inv.steps_kept;
    counts = ap (λ x. x.count) same ∙ inv.counts;
    below = IsBelow-after s i idle e sum part tt inv.below;
    last = rw (ap (λ x. x.last_step) same) inv.last;
    last_due = λ h. due part (inv.last_due (sym (ap (λ x. x.last_step) same) ∙ h));
    top = elim inv.top [
      | inl d ↦ inl (due part d)
      | inr c ↦ inr (Coming-other s i idle e sum part (λ w. cc (q, w)) (λ w. cc (q, w)) c)
    ];
    range = all;
  }

  send-Due :
      {v l : ℕ}
      → s.pc i ≡ swapped v l
      → (k : ℕ) → Due s k
      → Due (after s i idle (record s.emitter { events = s.emitter.events ++ v ∷ [] })) k
  send-Due q k (inl zero_k) = inl zero_k
  send-Due {v} q k (inr (inl there)) = inr (inl (IsSent-append k v s.emitter.events there))
  send-Due {v} {l} q k (inr (inr (j, l', r, h))) = elim (Bool-cases (i == j)) [
    | inl here ↦
        let same : swapped v l ≡ swapped k l' =
          sym q ∙ sym (same_thread s i idle s.emitter j here) ∙ r in
        let value : v ≡ k = ground arith in
        inr (
          inl (
            subst (λ x. IsSent k (s.emitter.events ++ x ∷ [])) (sym value)
              (IsSent-last k s.emitter.events)))
    | inr other ↦ inr (inr (j, l', update_there s i idle s.emitter j other ∙ r, h))
  ]

  skip-Due :
      {v l : ℕ}
      → s.pc i ≡ swapped v l
      → v ≤ l
      → (k : ℕ) → Due s k
      → Due (after s i idle s.emitter) k
  skip-Due q le k (inl zero_k) = inl zero_k
  skip-Due q le k (inr (inl there)) = inr (inl there)
  skip-Due {v} {l} q le k (inr (inr (j, l', r, h))) = elim (Bool-cases (i == j)) [
    | inl here ↦
        let same : swapped v l ≡ swapped k l' =
          sym q ∙ sym (same_thread s i idle s.emitter j here) ∙ r in
        absurd (ground arith)
    | inr other ↦ inr (inr (j, l', update_there s i idle s.emitter j other ∙ r, h))
  ]

  at_plus_zero : {t : System} → Inv total steps sum t → Inv total steps (sum + 0) t
  at_plus_zero {t} = subst (λ (n : ℕ). Inv total steps n t) (plus_zero sum)

  -- Every access of a thread keeps the invariant, while the sum is a `u64`.
  pub Move-Inv :
      {amount : ℕ} {p : Pc} {e : ProgressEmitter} {p' : Pc}
      → s.pc i ≡ p
      → Move s.emitter amount p e p'
      → sum + amount < u64_mod
      → Inv total steps (sum + amount) (after s i p' e)
  Move-Inv q (add amount) fits = add-Inv amount q fits
  Move-Inv q (divide nonzero) fits = at_plus_zero (divide-Inv q)
  Move-Inv q swap fits = at_plus_zero (swap-Inv q)
  Move-Inv q (send {s = v} {l} less) fits =
      let v_below : v ≤ part = subst (IsBelow sum part) q (inv.below i) in
      at_plus_zero (
        close-Inv (record s.emitter { events = s.emitter.events ++ v ∷ [] }) q refl (send-Due q)
          (All-append _ s.emitter.events (v ∷ []) inv.range ((omega arith, v_below), tt)))
  Move-Inv q (skip le) fits = at_plus_zero (close-Inv s.emitter q refl (skip-Due q le) inv.range)
