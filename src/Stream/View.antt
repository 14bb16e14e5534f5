-- ===== src/Stream/View.antt =====
-- What a reader has to give, apart from how the transport cut it into chunks.
use sendme.Base.{ℕ, zero, suc, ◌-◌, ◌≤◌, ◌<◌, ◌≡◌, refl, true, false, Option, none, some}
use sendme.Base.{
  ◌↔◌, ◌⊎◌, ap, ◌∙◌, List, [], ◌∷◌, ◌++◌, append-nil, append_assoc, arith, leb, if◌then◌else◌,
}
use sendme.Base.{length, take, drop, length-append, length-drop, length-take, Bool-cases, inl, inr}
use sendme.Base.{
  take-append, drop-append, take-append_le, take-append_ge, drop-append_le, drop-append_ge,
}
use sendme.Base.Bytes.{Byte}
use sendme.Io.{Io, ◌>>=◌, Outcome, ok, err, panic, io, IoErrorKind, unexpected_eof}
use sendme.Stream.{Reader, eof, fault, chunk, Recv, fill, exactly, read_exact, read_chunk}

-- The bytes before the end or the fault, and which of the two follows (`none` is the end).
abbrev pub content : Reader → List Byte
content eof = []
content (fault k) = []
content (chunk b bs r) = (b ∷ bs) ++ content r

abbrev pub ending : Reader → Option IoErrorKind
ending eof = none
ending (fault k) = some k
ending (chunk b bs r) = ending r

-- A result with all that a caller can see of the stream behind it.
pub record Seen (A : Type 0) : Type 0 where
  pub outcome : Outcome A
  pub filled : List Byte
  pub left : List Byte
  pub last : Option IoErrorKind

abbrev pub seen : {A : Type 0} → Outcome A × Recv → Seen A
seen p = record {
  outcome = p.0;
  filled = p.1.buffer;
  left = content p.1.reader;
  last = ending p.1.reader;
}

-- What a read that wants more than there is comes to.
abbrev pub ended : Option IoErrorKind → Outcome (Unit {0})
ended none = ok tt
ended (some k) = err (io k)

-- `fill` on a stream that has not been cut.
abbrev pub fill_whole : ℕ → List Byte → Option IoErrorKind → List Byte → Seen (Unit {0})
fill_whole n c e buf =
    if leb n (length c)
    then record { outcome = ok tt; filled = buf ++ take n c; left = drop n c; last = e }
    else record { outcome = ended e; filled = buf ++ c; left = []; last = e }

drop-eq-nil : (n : ℕ) (xs : List Byte) → drop n xs ≡ [] → length xs ≤ n
drop-eq-nil n xs h = omega (arith, length-drop n xs, ap (λ (t : List Byte). length t) h)

drop-eq-cons :
    (n : ℕ) (xs : List Byte) {y : Byte} {ys : List Byte} → drop n xs ≡ y ∷ ys → n < length xs
drop-eq-cons n xs h = omega (arith, length-drop n xs, ap (λ (t : List Byte). length t) h)

-- A chunk that the read takes whole.
fill_whole_past :
    (n : ℕ) (b : Byte) (bs c : List Byte) (e : Option IoErrorKind) (buf : List Byte)
    → length bs ≤ n
    → fill_whole (n - length bs) c e (buf ++ b ∷ bs) ≡ fill_whole (suc n) (b ∷ (bs ++ c)) e buf
fill_whole_past n b bs c e buf h = elim (Bool-cases (leb (n - length bs) (length c))) [
  | inl fits ↦
      let fits' : leb (suc n) (suc (length (bs ++ c))) ≡ true =
        ground (arith, length-append bs c) in
      rw (fits, fits', take-append_ge n bs c h, drop-append_ge n bs c h, append_assoc) refl
  | inr short ↦
      let short' : leb (suc n) (suc (length (bs ++ c))) ≡ false =
        ground (arith, length-append bs c) in
      rw (short, short', append_assoc) refl
]

-- A chunk that the read leaves a part of.
fill_whole_within :
    (n : ℕ) (b : Byte) (bs c : List Byte) (e : Option IoErrorKind) (buf : List Byte)
    → n < length bs
    → fill_whole (suc n) (b ∷ (bs ++ c)) e buf
      ≡ record { outcome = ok tt; filled = buf ++ b ∷ take n bs; left = drop n bs ++ c; last = e }
fill_whole_within n b bs c e buf h =
    let fits : leb (suc n) (suc (length (bs ++ c))) ≡ true = ground (arith, length-append bs c) in
    rw (fits, take-append_le n bs c (omega arith), drop-append_le n bs c (omega arith)) refl

List-cases : (xs : List Byte) → (xs ≡ []) ⊎ ((y : Byte) × (ys : List Byte) × (xs ≡ y ∷ ys))
List-cases [] = inl refl
List-cases (y ∷ ys) = inr (y, ys, refl)

-- The loop sees the bytes and the ending, never the cuts.
pub seen-fill :
    (n : ℕ) (r : Reader) (buf : List Byte)
    → seen (fill n r buf) ≡ fill_whole n (content r) (ending r) buf
unfolding fill
seen-fill zero r buf =
    let fits : leb 0 (length (content r)) ≡ true = ground arith in rw (fits, append-nil) refl
seen-fill (suc n) eof buf =
    let short : leb (suc n) 0 ≡ false = ground arith in rw (short, append-nil) refl
seen-fill (suc n) (fault k) buf =
    let short : leb (suc n) 0 ≡ false = ground arith in rw (short, append-nil) refl
seen-fill (suc n) (chunk b bs r) buf = elim (List-cases (drop n bs)) [
  | inl whole ↦
      rw (whole, fill)
        (seen-fill (n - length bs) r (buf ++ b ∷ bs)
          ∙ fill_whole_past n b bs (content r) (ending r) buf (drop-eq-nil n bs whole))
  | inr (y, ys, part) ↦
      rw (fill_whole_within n b bs (content r) (ending r) buf (drop-eq-cons n bs part))
        (rw (part, fill) refl)
]

abbrev pub seen_reader : {A : Type 0} → Outcome A × Reader → Seen A
seen_reader p = record { outcome = p.0; filled = []; left = content p.1; last = ending p.1 }

abbrev pub stopped : {A : Type 0} → Option IoErrorKind → Outcome A
stopped none = err (io unexpected_eof)
stopped (some k) = err (io k)

-- `read_exact` on a stream that has not been cut.
abbrev pub exact_whole : ℕ → List Byte → Option IoErrorKind → Seen (List Byte)
exact_whole n c e =
    if leb n (length c)
    then record { outcome = ok (take n c); filled = []; left = drop n c; last = e }
    else record { outcome = stopped e; filled = []; left = []; last = e }

-- The finish of `read_exact`, over what `fill` is seen to do.
abbrev exactly_seen : ℕ → Seen (Unit {0}) → Seen (List Byte)
exactly_seen n s = record {
  outcome = (exactly n s.outcome (record { reader = eof; buffer = s.filled })).0;
  filled = [];
  left = s.left;
  last = s.last;
}

seen_reader-exactly :
    (n : ℕ) (o : Outcome (Unit {0})) (v : Recv)
    → seen_reader (exactly n o v) ≡ exactly_seen n (seen (o, v))
seen_reader-exactly n (ok _) v = refl
seen_reader-exactly n (err e) v = refl
seen_reader-exactly n panic v = refl

exactly_seen-fill_whole :
    (n : ℕ) (c : List Byte) (e : Option IoErrorKind)
    → exactly_seen n (fill_whole n c e []) ≡ exact_whole n c e
exactly_seen-fill_whole n c none = ground (arith, length-take n c)
exactly_seen-fill_whole n c (some k) = ground (arith, length-take n c)

pub seen-read_exact :
    (n : ℕ) (r : Reader) → seen_reader (read_exact n r) ≡ exact_whole n (content r) (ending r)
unfolding read_exact
seen-read_exact n r =
    seen_reader-exactly n (fill n r []).0 (fill n r []).1
    ∙ ap (exactly_seen n) (seen-fill n r [])
    ∙ exactly_seen-fill_whole n (content r) (ending r)

-- `read_chunk` answers `none` exactly at the end of the stream.
pub read_chunk-none_iff :
    (r : Reader) → ((read_chunk r).0 ≡ ok none) ↔ ((content r ≡ []) × (ending r ≡ none))
unfolding read_chunk
read_chunk-none_iff eof = (λ _. (refl, refl), λ _. refl)
read_chunk-none_iff (fault k) = (λ h. absurd (cc h), λ h. absurd (cc h.1))
read_chunk-none_iff (chunk b bs r) = (λ h. absurd (some_chunk (drop 7 bs) h), λ h. absurd (cc h.0))
  where
    some_chunk :
        (cs : List Byte)
        → (elim cs as (λ _. Outcome (Option (List Byte)) × Reader) [
          | [] ↦ (ok (some (b ∷ bs)), r)
          | c ∷ cs ↦ (ok (some (b ∷ take 7 bs)), chunk c cs r)
        ]).0
          ≡ ok none
        → ⊥
    some_chunk [] h = cc
    some_chunk (c ∷ cs) h = cc

-- While bytes are left, it answers some.
pub read_chunk-some :
    (r : Reader) (b : Byte) (rest : List Byte)
    → content r ≡ b ∷ rest
    → (more : List Byte) × ((read_chunk r).0 ≡ ok (some more))
unfolding read_chunk
read_chunk-some eof b rest h = absurd (cc h)
read_chunk-some (fault k) b rest h = absurd (cc h)
read_chunk-some (chunk c cs r) b rest h = elim (List-cases (drop 7 cs)) [
  | inl whole ↦ (c ∷ cs, rw (whole, read_chunk) refl)
  | inr (y, ys, part) ↦ (c ∷ take 7 cs, rw (part, read_chunk) refl)
]

-- A read of bytes that are there, and one of more than there are.
pub fill_front :
    {n : ℕ} (xs rest : List Byte) (r : Reader) (buf : List Byte)
    → content r ≡ xs ++ rest
    → length xs ≡ n
    → seen (fill n r buf)
      ≡ record { outcome = ok tt; filled = buf ++ xs; left = rest; last = ending r }
fill_front {n} xs rest r buf h l =
    let fits : leb n (length (xs ++ rest)) ≡ true = ground (arith, length-append xs rest) in
    rw (seen-fill, h, fits, take-append n xs rest l, drop-append n xs rest l) refl

pub fill_short :
    (n : ℕ) (r : Reader) (buf : List Byte)
    → length (content r) < n
    → seen (fill n r buf)
      ≡ record { outcome = ended (ending r); filled = buf ++ content r; left = []; last = ending r }
fill_short n r buf h =
    let short : leb n (length (content r)) ≡ false = ground arith in rw (seen-fill, short) refl

pub read_exact_front :
    {n : ℕ} (xs rest : List Byte) (r : Reader)
    → content r ≡ xs ++ rest
    → length xs ≡ n
    → seen_reader (read_exact n r)
      ≡ record { outcome = ok xs; filled = []; left = rest; last = ending r }
read_exact_front {n} xs rest r h l =
    let fits : leb n (length (xs ++ rest)) ≡ true = ground (arith, length-append xs rest) in
    rw (seen-read_exact, h, fits, take-append n xs rest l, drop-append n xs rest l) refl

pub read_exact_short :
    (n : ℕ) (r : Reader)
    → length (content r) < n
    → seen_reader (read_exact n r)
      ≡ record { outcome = stopped (ending r); filled = []; left = []; last = ending r }
read_exact_short n r h =
    let short : leb n (length (content r)) ≡ false = ground arith in
    rw (seen-read_exact, short) refl

-- A chain, seen step by step.
pub seen->>= :
    {A B : Type 0} (m : Io Recv A) (f : A → Io Recv B) (v : Recv) {a : A} {b l : List Byte}
    {e : Option IoErrorKind} {s : Seen B}
    → seen (m v) ≡ record { outcome = ok a; filled = b; left = l; last = e }
    → ((t : Recv) → t.buffer ≡ b → content t.reader ≡ l → ending t.reader ≡ e → seen (f a t) ≡ s)
    → seen ((m >>= f) v) ≡ s
seen->>= m f v first rest =
    rw (ap (λ s. s.outcome) first)
      (rest (m v).1 (ap (λ s. s.filled) first) (ap (λ s. s.left) first) (ap (λ s. s.last) first))
