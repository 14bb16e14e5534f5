-- ===== src/Stream.antt =====
-- The receiving half of a stream. What the transport delivers is an input of the program: chunks of
-- at least one byte, and at last the end of the stream or a fault that stays. The functions are
-- tokio's and quinn's documented reads, as protocol.rs and provider.rs call them.
pub mod View
use sendme.Base.{ℕ, zero, suc, ◌-◌, ◌≡◌, Bool, true, false, Option, none, some, List, [], ◌∷◌, ◌++◌}
use sendme.Base.{length, take, drop, ◌==◌, if◌then◌else◌}
use sendme.Base.Bytes.{Byte, from_le}
use sendme.Io.{Io, Outcome, ok, err, io, IoErrorKind, unexpected_eof}

pub data Reader : Type 0 where
  eof : Reader
  fault : IoErrorKind → Reader
  chunk : Byte → List Byte → Reader → Reader

-- A reader with the buffer that it fills (`BytesMut`).
pub record Recv : Type 0 where
  pub reader : Reader
  pub buffer : List Byte

-- while read != size { let r = reader.take(size).read_buf(buffer)?; read += r; if r == 0 { break } }
-- by the bytes that are still to be read. A read takes what the chunk at hand has, up to that limit.
unfoldable pub fill : ℕ → Reader → List Byte → Outcome (Unit {0}) × Recv
fill zero r buf = (ok tt, record { reader = r; buffer = buf })
fill (suc n) eof buf = (ok tt, record { reader = eof; buffer = buf })
fill (suc n) (fault k) buf = (err (io k), record { reader = fault k; buffer = buf })
fill (suc n) (chunk b bs r) buf = elim (drop n bs) [
  | [] ↦ fill (n - length bs) r (buf ++ b ∷ bs)
  | c ∷ cs ↦ (ok tt, record { reader = chunk c cs r; buffer = buf ++ b ∷ take n bs })
]

-- A short read is an `UnexpectedEof`.
abbrev pub exactly : ℕ → Outcome (Unit {0}) → Recv → Outcome (List Byte) × Reader
exactly n (ok _) v =
    (if length v.buffer == n then ok v.buffer else err (io unexpected_eof), v.reader)
exactly n (err e) v = (err e, v.reader)
exactly n Outcome.panic v = (Outcome.panic, v.reader)

-- `AsyncReadExt::read_exact` into a new buffer of `n` bytes
unfoldable pub read_exact : ℕ → Io Reader (List Byte)
read_exact n r = let p = fill n r [] in exactly n p.0 p.1

-- quinn's `read_chunk(8, false)`: the next bytes, or `none` at the end of the stream
unfoldable pub read_chunk : Io Reader (Option (List Byte))
read_chunk eof = (ok none, eof)
read_chunk (fault k) = (err (io k), fault k)
read_chunk (chunk b bs r) = elim (drop 7 bs) [
  | [] ↦ (ok (some (b ∷ bs)), r)
  | c ∷ cs ↦ (ok (some (b ∷ take 7 bs)), chunk c cs r)
]
