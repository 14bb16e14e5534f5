-- ===== src/Tests/Decoder.antt =====
-- A concrete decoder of slices: a slice is a frame, whatever the hash.
use sendme.Base.{
  ℕ, ◌≡◌, ◌<◌, refl, ap, ◌∙◌, Bool, true, false, ltb, Option, none, some, List, ◌++◌, append_assoc,
}
use sendme.Base.{length, arith, []}
use sendme.Base.Bytes.{Byte, u64_mod}
use sendme.Io.{Io, Outcome, ok, err, panic, ◌>>=◌}
use sendme.Stream.{Reader, Recv, read_exact, exactly, fill}
use sendme.Stream.View.{Seen, read_exact_front}
use sendme.Util.{Hash}
use sendme.Protocol.Frames.{read_prefix}
use sendme.Protocol.Frames.Messages.{frame, read_prefix_front}
use sendme.Get.{Decoding}
use sendme.Get.Opens.{Verifies}
use sendme.Get.Bounds.{KeepsSize}
use sendme.Integration.OthersPass.{ReadsOn}

-- The stream, and the size once it is known.
pub record Slice : Type 0 where
  pub reader : Reader
  pub size : Option ℕ

abbrev known : Outcome ℕ → Option ℕ
known (ok n) = some n
known (err e) = none
known panic = none

abbrev sized : Io Slice ℕ
sized d = let p = read_prefix d.reader in (p.0, record { reader = p.1; size = known p.0 })

abbrev body : Option ℕ → Io Reader (List Byte)
body (some n) = read_exact n
body none = do n ← read_prefix; read_exact n

-- Whether there is content behind the size that has not been read.
abbrev has_more : Option ℕ → Bool
has_more none = false
has_more (some n) = ltb 0 n

abbrev pub frames : Decoding Slice
frames = record {
  open_slice = λ r h. record { reader = r; size = none };
  read_size = sized;
  read_to_end = λ d. let p = body d.size d.reader in (p.0, record { reader = p.1; size = some 0 });
  read_byte = λ d. (has_more d.size, d);
  into_inner = λ d. d.reader;
}

pub frames-Verifies :
    (h : Hash) (bytes : List Byte) → length bytes < u64_mod → Verifies frames h (frame bytes) bytes
frames-Verifies h bytes fits = record {
  after_size = λ r rest e.
      let p =
        read_prefix_front (length bytes) (bytes ++ rest) r fits (e ∙ append_assoc _ bytes rest) in
      let q = read_exact_front bytes rest (read_prefix r).1 (ap (λ s. s.left) p) refl in
      let size : (read_prefix r).0 ≡ ok (length bytes) = ap (λ (s : Seen ℕ). s.outcome) p in
      (
        size,
        rw size (ap (λ (s : Seen (List Byte)). s.outcome) q),
        refl,
        rw size (ap (λ (s : Seen (List Byte)). s.left) q),
        rw size (ap (λ (s : Seen (List Byte)). s.last) q ∙ ap (λ (s : Seen ℕ). s.last) p),
      );
  whole = λ r rest e.
      let p =
        read_prefix_front (length bytes) (bytes ++ rest) r fits (e ∙ append_assoc _ bytes rest) in
      let q = read_exact_front bytes rest (read_prefix r).1 (ap (λ s. s.left) p) refl in
      let size : (read_prefix r).0 ≡ ok (length bytes) = ap (λ (s : Seen ℕ). s.outcome) p in
      (
        rw size (ap (λ (s : Seen (List Byte)). s.outcome) q),
        rw size (ap (λ (s : Seen (List Byte)). s.left) q),
        rw size (ap (λ (s : Seen (List Byte)). s.last) q ∙ ap (λ (s : Seen ℕ). s.last) p),
      );
}

length-exactly :
    (n : ℕ) (o : Outcome (Unit {0})) (v : Recv) {bytes : List Byte}
    → (exactly n o v).0 ≡ ok bytes
    → length bytes ≡ n
length-exactly n (ok u) v h = ground arith
length-exactly n (err e) v h = absurd (cc h)
length-exactly n panic v h = absurd (cc h)

pub frames-KeepsSize : KeepsSize frames
unfolding read_exact
frames-KeepsSize d size bytes sized all =
    let p = read_prefix d.reader in
    let body_sized : (read_exact size p.1).0 ≡ ok bytes = rw sized at all in
    omega (arith, length-exactly size (fill size p.1 []).0 (fill size p.1 []).1 body_sized)

pub frames-ReadsOn : ReadsOn frames
frames-ReadsOn h slice y v long r rest e =
    let (size, _, _, _, _) = v.after_size r rest e in
    let more : ltb 0 (length y) ≡ true = ground arith in rw size more
