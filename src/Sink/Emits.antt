-- ===== src/Sink/Emits.antt =====
-- What an action writes on a transport that does not fail, for a state that has a writer in it.
use sendme.Base.{
  ℕ, suc, ◌≡◌, refl, Bool, true, false, ◌||◌, List, [], ◌∷◌, ◌++◌, append-nil, append_assoc,
}
use sendme.Base.{
  arith, All, take, drop, length, take-append-drop, ap, ◌∙◌, sym, ◌≤◌, ◌<◌, length-take, take_all,
}
use sendme.Base.Bytes.{Byte}
use sendme.Io.{Io, Outcome, ok, and_then, pure, ◌>>=◌}
use sendme.Sink.{
  Answer, accept, refuse, Writer, push, write_all, poll_write, write_buf, close, finish, Accepts,
  IsWilling,
}

module _ {S A : Type 0} (n : ℕ) (writer : S → Writer) where
  -- The action returns `a`, having written `out`; `closing` says whether it finished the stream.
  pub record Emits (closing : Bool) (out : List Byte) (a : A) (s : S) (r : Outcome A × S)
      : Type 0 where
    pub result : r.0 ≡ ok a
    pub wrote : (writer r.1).sent ≡ (writer s).sent ++ out
    pub status : (writer r.1).finished ≡ (closing || (writer s).finished)
    pub willing : IsWilling n (writer r.1)

module _ {S A B : Type 0} (n : ℕ) (writer : S → Writer) where
  -- A chain writes what its steps write, in order.
  pub Emits->>= :
      (m : Io S A) (f : A → Io S B) {closing : Bool} {out more : List Byte} {a : A} {b : B} (s : S)
      → Emits n writer false out a s (m s)
      → ((t : S) → t ≡ (m s).1 → IsWilling n (writer t) → Emits n writer closing more b t (f a t))
      → Emits n writer closing (out ++ more) b s ((m >>= f) s)
  Emits->>= m f {closing} {out} {more} {a} {b} s first rest =
      let second = rest (m s).1 refl first.willing in
      let e : and_then (m s).0 (m s).1 f ≡ f a (m s).1 = rw first.result refl in
      rw e record {
        result = second.result;
        wrote =
            second.wrote
            ∙ ap (λ (t : List Byte). t ++ more) first.wrote
            ∙ append_assoc (writer s).sent out more;
        status = second.status ∙ ap (λ (t : Bool). closing || t) first.status;
        willing = second.willing;
      }

module _ {S A B : Type 0} (n : ℕ) (writer : S → Writer) where
  -- A chain that ends in a value has written what its first step wrote.
  pub Emits-return :
      (m : Io S A) (b : B) {closing : Bool} {out : List Byte} {a : A} (s : S)
      → Emits n writer closing out a s (m s)
      → Emits n writer closing out b s ((m >>= λ _. pure b) s)
  Emits-return m b {closing} {out} {a} s e =
      let same : and_then (m s).0 (m s).1 (λ (_ : A). pure b) ≡ (ok b, (m s).1) =
        rw e.result refl in
      rw same record { result = refl; wrote = e.wrote; status = e.status; willing = e.willing }

take-cons-drop :
    (k : ℕ) (b : Byte) (bs out : List Byte) → (out ++ b ∷ take k bs) ++ drop k bs ≡ out ++ b ∷ bs
take-cons-drop k b bs out = rw (append_assoc, take-append-drop) refl

push-Emits :
    (n : ℕ) (answers : List Answer) (bytes : List Byte) (w : Writer)
    → All (Accepts n) answers
    → Emits n (λ v. v) false bytes tt w (push answers bytes w)
unfolding push
push-Emits n [] [] w h = record {
  result = refl;
  wrote = rw append-nil refl;
  status = refl;
  willing = tt;
}
push-Emits n (a ∷ answers) [] w h = record {
  result = refl;
  wrote = rw append-nil refl;
  status = refl;
  willing = h;
}
push-Emits n [] (b ∷ bs) w h = record { result = refl; wrote = refl; status = refl; willing = tt }
push-Emits n (refuse k ∷ answers) (b ∷ bs) w h = elim h.0 [ ]
push-Emits n (accept k ∷ answers) (b ∷ bs) w h =
    let ih = push-Emits n answers (drop k bs) (record w { sent = w.sent ++ b ∷ take k bs }) h.1 in
    record {
      result = ih.result;
      wrote = ih.wrote ∙ take-cons-drop k b bs w.sent;
      status = ih.status;
      willing = ih.willing;
    }

pub write_all-Emits :
    (n : ℕ) (bytes : List Byte) (w : Writer)
    → IsWilling n w
    → Emits n (λ v. v) false bytes tt w (write_all bytes w)
unfolding write_all
write_all-Emits n bytes w h = push-Emits n w.answers bytes w h

close-Emits :
    (n : ℕ) (answers : List Answer) (w : Writer)
    → w.answers ≡ answers
    → All (Accepts n) answers
    → Emits n (λ v. v) true [] tt w (close answers w)
close-Emits n [] w e h = record {
  result = refl;
  wrote = rw append-nil refl;
  status = refl;
  willing = rw e tt;
}
close-Emits n (accept k ∷ answers) w e h = record {
  result = refl;
  wrote = rw append-nil refl;
  status = refl;
  willing = h.1;
}
close-Emits n (refuse k ∷ answers) w e h = elim h.0 [ ]

-- `finish` on a transport that does not fail closes the stream and writes nothing.
pub finish-Emits : (n : ℕ) (w : Writer) → IsWilling n w → Emits n (λ v. v) true [] tt w (finish w)
unfolding finish
finish-Emits n w h = close-Emits n w.answers w refl h

-- A single write of no more bytes than the transport takes at once writes them all.
pub write_buf-Emits :
    (n : ℕ) (bytes : List Byte) (w : Writer)
    → length bytes ≤ n
    → IsWilling n w
    → Emits n (λ v. v) false bytes (length bytes) w (write_buf bytes w)
unfolding write_buf
write_buf-Emits n [] w fits h = record {
  result = refl;
  wrote = sym (append-nil w.sent);
  status = refl;
  willing = h;
}
write_buf-Emits n (b ∷ bs) w fits h = poll_write-Emits w.answers refl h
  where
    poll_write-Emits :
        (answers : List Answer)
        → w.answers ≡ answers
        → All (Accepts n) answers
        → Emits n (λ v. v) false (b ∷ bs) (length (b ∷ bs)) w (poll_write answers b bs w)
    poll_write-Emits [] e k = record {
      result = refl;
      wrote = refl;
      status = refl;
      willing = rw e tt;
    }
    poll_write-Emits (refuse x ∷ answers) e k = elim k.0 [ ]
    poll_write-Emits (accept x ∷ answers) e k =
        let whole : take x bs ≡ bs = take_all x bs (omega arith) in
        record { result = rw whole refl; wrote = rw whole refl; status = refl; willing = k.1 }

-- A single write of more bytes than the transport takes at once reports success all the same, and
-- has written the front of them only.
pub write_buf_short :
    (k : ℕ) (answers : List Answer) (bytes : List Byte) (w : Writer)
    → w.answers ≡ accept k ∷ answers
    → suc k < length bytes
    → ((write_buf bytes w).0 ≡ ok (suc k))
      × ((write_buf bytes w).1.sent ≡ w.sent ++ take (suc k) bytes)
unfolding write_buf
write_buf_short k answers [] w e h = absurd (omega arith)
write_buf_short k answers (b ∷ bs) w e h =
    let len : length (take k bs) ≡ k = omega (arith, length-take k bs) in
    (rw (e, poll_write, len) refl, rw (e, poll_write) refl)

-- So it goes on with a transport that does not fail.
pub write_buf-Emits_short :
    (k : ℕ) (answers : List Answer) (bytes : List Byte) (w : Writer)
    → w.answers ≡ accept k ∷ answers
    → suc k < length bytes
    → IsWilling 0 w
    → Emits 0 (λ v. v) false (take (suc k) bytes) (suc k) w (write_buf bytes w)
unfolding write_buf
write_buf-Emits_short k answers [] w e h willing = absurd (omega arith)
write_buf-Emits_short k answers (b ∷ bs) w e h willing =
    let len : length (take k bs) ≡ k = omega (arith, length-take k bs) in
    let rest : All (Accepts 0) (accept k ∷ answers) = rw e at willing in
    record {
      result = rw (e, poll_write, len) refl;
      wrote = rw (e, poll_write) refl;
      status = rw (e, poll_write) refl;
      willing = rw (e, poll_write) rest.1;
    }

module _ {S A : Type 0} (n : ℕ) (writer : S → Writer) where
  -- An action on the writer alone, as an action on a state that holds it.
  pub Emits-on :
      {closing : Bool} {out : List Byte} {a : A} {s t : S} {r : Outcome A × Writer}
      → Emits n (λ v. v) closing out a (writer s) r
      → writer t ≡ r.1
      → Emits n writer closing out a s (r.0, t)
  Emits-on e p = record {
    result = e.result;
    wrote = rw p e.wrote;
    status = rw p e.status;
    willing = rw p e.willing;
  }

  -- A pure result after the writing.
  pub Emits-pure : (a : A) (s : S) → IsWilling n (writer s) → Emits n writer false [] a s (ok a, s)
  Emits-pure a s h = record {
    result = refl;
    wrote = sym (append-nil (writer s).sent);
    status = refl;
    willing = h;
  }
