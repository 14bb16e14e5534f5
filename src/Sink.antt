-- ===== src/Sink.antt =====
-- The sending half of a stream, and tokio's and quinn's documented writes on it. How much of a write
-- the transport takes, and whether it fails, is an input of the program: a list of answers, of which
-- each poll uses one. When the list is used up every write is taken whole.
pub mod Emits
use sendme.Base.{ℕ, suc, ◌≤◌, Bool, true, List, [], ◌∷◌, ◌++◌, All, take, drop, length}
use sendme.Base.Bytes.{Byte}
use sendme.Io.{Io, Outcome, ok, err, io, IoErrorKind}

-- `accept k` takes up to `k + 1` bytes.
pub data Answer : Type 0 where
  accept : ℕ → Answer
  refuse : IoErrorKind → Answer

pub record Writer : Type 0 where
  pub sent : List Byte
  pub finished : Bool
  pub answers : List Answer

-- while !data.is_empty() { let n = poll_write(data)?; data = &data[n..]; }
unfoldable pub push : List Answer → List Byte → Io Writer (Unit {0})
push answers [] w = (ok tt, record w { answers = answers })
push [] (b ∷ bs) w = (ok tt, record w { sent = w.sent ++ b ∷ bs; answers = [] })
push (refuse k ∷ answers) (b ∷ bs) w = (err (io k), record w { answers = answers })
push (accept k ∷ answers) (b ∷ bs) w =
    push answers (drop k bs) (record w { sent = w.sent ++ b ∷ take k bs })

-- `AsyncWriteExt::write_all`
unfoldable pub write_all : List Byte → Io Writer (Unit {0})
unfolding push
write_all bytes w = push w.answers bytes w

-- One poll of a write of the bytes `b ∷ bs`; the result is the number of bytes taken.
abbrev pub poll_write : List Answer → Byte → List Byte → Io Writer ℕ
poll_write [] b bs w = (ok (suc (length bs)), record w { sent = w.sent ++ b ∷ bs })
poll_write (refuse k ∷ answers) b bs w = (err (io k), record w { answers = answers })
poll_write (accept k ∷ answers) b bs w =
    (ok (suc (length (take k bs))), record w { sent = w.sent ++ b ∷ take k bs; answers = answers })

-- `AsyncWriteExt::write_buf`: a single write, which may take a part of the buffer only.
unfoldable pub write_buf : List Byte → Io Writer ℕ
write_buf [] w = (ok 0, w)
write_buf (b ∷ bs) w = poll_write w.answers b bs w

abbrev pub close : List Answer → Io Writer (Unit {0})
close [] w = (ok tt, record w { finished = true })
close (refuse k ∷ answers) w = (err (io k), record w { answers = answers })
close (accept k ∷ answers) w = (ok tt, record w { finished = true; answers = answers })

-- quinn's `SendStream::finish`
unfoldable pub finish : Io Writer (Unit {0})
finish w = close w.answers w

-- A poll that takes at least `n` bytes, or all of fewer.
abbrev pub Accepts : ℕ → Answer → Type 0
Accepts n (accept k) = n ≤ suc k
Accepts n (refuse k) = ⊥

-- A transport that never fails, and takes at least `n` bytes of a longer write.
abbrev pub IsWilling : ℕ → Writer → Type 0
IsWilling n w = All (Accepts n) w.answers
