-- ===== src/Protocol/Frames/Messages.antt =====
-- What the frame functions read from a stream that holds a whole frame, a part of one, or nothing.
use sendme.Base.{ℕ, ◌+◌, ◌<◌, ◌≡◌, ◌≢◌, refl, ap, ◌∙◌, true, false, Option, none, some}
use sendme.Base.{List, [], ◌++◌, append_assoc, arith, leb}
use sendme.Base.{length, drop, length-append, take_all, drop_all}
use sendme.Base.Bytes.{Byte, to_le, length-to_le, from_le-to_le_word, u64_mod}
use sendme.Io.{ok, panic, IoErrorKind, >>=-eq-ok}
use sendme.Stream.{Reader, Recv}
use sendme.Stream.View.{content, ending, Seen, seen, seen_reader, fill_front, fill_short}
use sendme.Stream.View.{read_exact_front, read_exact_short, seen->>=}
use sendme.Protocol.Codec.{Codec, from_bytes}
use sendme.Protocol.Frames.{read_prefix, slice_to, read_lp_body, read_lp}
use sendme.Protocol.Frames.{fill_buffer, on_reader, read_size_data, read_lp_data}

-- The bytes of one message on the wire.
abbrev pub frame : List Byte → List Byte
frame bytes = to_le 8 (length bytes) ++ bytes

pub read_prefix_front :
    (n : ℕ) (rest : List Byte) (r : Reader)
    → n < u64_mod
    → content r ≡ to_le 8 n ++ rest
    → seen_reader (read_prefix r)
      ≡ record { outcome = ok n; filled = []; left = rest; last = ending r }
unfolding read_prefix
read_prefix_front n rest r fits h =
    let p = read_exact_front (to_le 8 n) rest r h (length-to_le 8 n) in
    rw (ap (λ s. s.outcome) p, from_le-to_le_word n fits, ap (λ s. s.left) p, ap (λ s. s.last) p)
      refl

-- The buffer holds the message and nothing else when it is sliced.
slice_to_whole : (bytes : List Byte) → slice_to (length bytes) bytes ≡ ok bytes
unfolding slice_to
slice_to_whole bytes =
    let fits : leb (length bytes) (length bytes) ≡ true = ground arith in
    rw (fits, take_all (length bytes) bytes (omega arith)) refl

slice_to_short : (n : ℕ) (bytes : List Byte) → length bytes < n → slice_to n bytes ≡ panic
unfolding slice_to
slice_to_short n bytes h = let short : leb n (length bytes) ≡ false = ground arith in rw short refl

module _ {T : Type 0} (c : Codec T) where
  read_lp_after_prefix :
      (n : ℕ) (v : Recv) {l : List Byte} {e : Option IoErrorKind} {s : Seen (Option (T × ℕ))}
      → seen_reader (read_prefix v.reader)
        ≡ record { outcome = ok n; filled = []; left = l; last = e }
      → ((t : Recv)
          → t.buffer ≡ v.buffer
          → content t.reader ≡ l
          → ending t.reader ≡ e
          → seen (read_lp_body c n t) ≡ s)
      → seen (read_lp c v) ≡ s
  unfolding read_lp
  read_lp_after_prefix n v p rest = rw (ap (λ s. s.outcome) p) (
      rest (record v { reader = (read_prefix v.reader).1 }) refl (ap (λ s. s.left) p)
        (ap (λ s. s.last) p))

  read_lp_body_front :
      (bytes rest : List Byte) (t : Recv) {value : T}
      → t.buffer ≡ []
      → content t.reader ≡ bytes ++ rest
      → c.of_bytes bytes ≡ some value
      → seen (read_lp_body c (length bytes) t) ≡ record {
        outcome = ok (some (value, length bytes));
        filled = bytes;
        left = rest;
        last = ending t.reader;
      }
  unfolding read_lp_body from_bytes
  read_lp_body_front bytes rest t b h d =
      seen->>= (fill_buffer (length bytes)) _ t (fill_front bytes rest t.reader t.buffer h refl)
        λ u ub ul ue.
          let ub' : u.buffer ≡ bytes = cc (ub, b) in rw (ub', slice_to_whole bytes, d, ul, ue) refl

  read_lp_body_short :
      (n : ℕ) (t : Recv)
      → length t.buffer + length (content t.reader) < n
      → ending t.reader ≡ none
      → (read_lp_body c n t).0 ≡ panic
  unfolding read_lp_body
  read_lp_body_short n t h e =
      let p = fill_short n t.reader t.buffer (omega arith) in
      let short : leb n (length (t.buffer ++ content t.reader)) ≡ false =
        ground (arith, length-append t.buffer (content t.reader)) in
      rw (ap (λ s. s.outcome) p, e, ap (λ s. s.filled) p, short) refl

  -- A whole frame at the front of the stream, of fewer than 2 ^ 64 bytes that decode to a value, read into
  -- an empty buffer, gives that value, with its size. The buffer
  -- then holds the message, and the stream what followed it, however the transport cut the bytes.
  pub read_lp-frame :
      (bytes rest : List Byte) (v : Recv) {value : T}
      → v.buffer ≡ []
      → content v.reader ≡ frame bytes ++ rest
      → length bytes < u64_mod
      → c.of_bytes bytes ≡ some value
      → seen (read_lp c v) ≡ record {
        outcome = ok (some (value, length bytes));
        filled = bytes;
        left = rest;
        last = ending v.reader;
      }
  read_lp-frame bytes rest v b h fits d =
      read_lp_after_prefix (length bytes) v
        (read_prefix_front (length bytes) (bytes ++ rest) v.reader fits
          (h ∙ append_assoc _ bytes rest))
        λ t tb tl te. rw (← te) (read_lp_body_front bytes rest t (tb ∙ b) tl d)

  -- A stream that ends without a fault after the length of a message, with fewer bytes behind it than
  -- the length says even with those in the buffer, makes `read_lp` slice past the end of the buffer,
  -- which panics.
  pub read_lp_truncated :
      (n : ℕ) (body : List Byte) (v : Recv)
      → n < u64_mod
      → content v.reader ≡ to_le 8 n ++ body
      → ending v.reader ≡ none
      → length v.buffer + length body < n
      → (read_lp c v).0 ≡ panic
  unfolding read_lp
  read_lp_truncated n body v fits h e short =
      let p = read_prefix_front n body v.reader fits h in
      rw (ap (λ s. s.outcome) p) (
        read_lp_body_short n (record v { reader = (read_prefix v.reader).1 })
          (omega (arith, ap (λ s. length s.left) p)) (ap (λ s. s.last) p ∙ e))

  -- A stream that ends without a fault before the eight bytes of a length gives no message, and that is
  -- not an error.
  pub read_lp_end :
      (v : Recv)
      → length (content v.reader) < 8
      → ending v.reader ≡ none
      → (read_lp c v).0 ≡ ok none
  unfolding read_lp read_prefix
  read_lp_end v h e = let p = read_exact_short 8 v.reader h in rw (ap (λ s. s.outcome) p, e) refl

-- The client's reads.
read_size_data_front :
    (bytes rest : List Byte) (t : Recv)
    → t.buffer ≡ []
    → content t.reader ≡ bytes ++ rest
    → seen (read_size_data (length bytes) t)
      ≡ record { outcome = ok bytes; filled = []; left = rest; last = ending t.reader }
unfolding read_size_data
read_size_data_front bytes rest t b h =
    let fits : leb (length bytes) (length bytes) ≡ true = ground arith in
    let none_left : drop (length bytes) bytes ≡ [] = drop_all bytes in
    seen->>= (fill_buffer (length bytes)) _ t (fill_front bytes rest t.reader t.buffer h refl)
      λ u ub ul ue.
        let ub' : u.buffer ≡ bytes = cc (ub, b) in
        rw (ub', fits, take_all (length bytes) bytes (omega arith), none_left, ul, ue) refl

-- A whole frame at the front of the stream, of fewer than 2 ^ 64 bytes, read by the client into an empty
-- buffer, gives its bytes. The buffer is empty again, and the stream holds what followed the frame,
-- however the transport cut the bytes.
pub read_lp_data-frame :
    (bytes rest : List Byte) (v : Recv)
    → v.buffer ≡ []
    → content v.reader ≡ frame bytes ++ rest
    → length bytes < u64_mod
    → seen (read_lp_data v)
      ≡ record { outcome = ok (some bytes); filled = []; left = rest; last = ending v.reader }
unfolding read_lp_data
read_lp_data-frame bytes rest v b h fits =
    let p =
      read_prefix_front (length bytes) (bytes ++ rest) v.reader fits
        (h ∙ append_assoc (to_le 8 (length bytes)) bytes rest) in
    let q =
      read_size_data_front bytes rest (record v { reader = (read_prefix v.reader).1 }) b
        (ap (λ s. s.left) p) in
    rw (ap (λ s. s.outcome) p, ap (λ s. s.outcome) q, ap (λ s. s.filled) q, ap (λ s. s.left) q)
      (rw (ap (λ s. s.last) q, ap (λ s. s.last) p) refl)

-- `read_lp_data` never answers `None`: a stream that has ended is an error there, so the branches
-- of the client that handle `None` are dead.
pub read_lp_data-ne-none : (v : Recv) → (read_lp_data v).0 ≢ ok none
unfolding read_lp_data
read_lp_data-ne-none v h =
    let (size, _, rest) = >>=-eq-ok (on_reader read_prefix) _ v h in
    let (response, _, last) = >>=-eq-ok (read_size_data size) _ _ rest in cc last

-- A stream that ends without a fault after the length of a message, with fewer bytes behind it than the
-- length says even with those in the buffer, makes `read_lp_data` split past the end of the buffer,
-- which panics.
pub read_lp_data_truncated :
    (n : ℕ) (body : List Byte) (v : Recv)
    → n < u64_mod
    → content v.reader ≡ to_le 8 n ++ body
    → ending v.reader ≡ none
    → length v.buffer + length body < n
    → (read_lp_data v).0 ≡ panic
unfolding read_lp_data read_size_data
read_lp_data_truncated n body v fits h e short =
    let p = read_prefix_front n body v.reader fits h in
    let r = (read_prefix v.reader).1 in
    let q = fill_short n r v.buffer (omega (arith, ap (λ (s : Seen ℕ). length s.left) p)) in
    let past : leb n (length (v.buffer ++ content r)) ≡ false =
      ground (arith, length-append v.buffer (content r), ap (λ (s : Seen ℕ). length s.left) p) in
    rw (ap (λ s. s.outcome) p, ap (λ s. s.outcome) q, ap (λ s. s.last) p, e, ap (λ s. s.filled) q)
      (rw past refl)
