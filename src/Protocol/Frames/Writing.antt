-- ===== src/Protocol/Frames/Writing.antt =====
-- What `write_lp` puts on the wire, and that `read_lp` reads it back.
use sendme.Base.{ℕ, ◌≤◌, ◌<◌, ◌≡◌, refl, ap, ◌∙◌, true, false, some}
use sendme.Base.{List, [], ◌++◌, append-nil, arith, ltb, length}
use sendme.Base.Bytes.{Byte, to_le}
use sendme.Io.{ok, err, message_too_large}
use sendme.Stream.{Recv}
use sendme.Stream.View.{content}
use sendme.Sink.{Writer, write_all, IsWilling}
use sendme.Sink.Emits.{Emits, Emits->>=, write_all-Emits}
use sendme.Protocol.Codec.{Codec, RoundTrips, max_message_size}
use sendme.Protocol.Frames.{write_lp, read_lp}
use sendme.Protocol.Frames.Messages.{frame, read_lp-frame}

-- A message below the limit goes out as one frame, over a transport that does not fail, however few
-- bytes it takes at once.
pub write_lp-Emits :
    (n : ℕ) (bytes : List Byte) (w : Writer)
    → length bytes < max_message_size
    → IsWilling n w
    → Emits n (λ v. v) false (frame bytes) tt w (write_lp bytes w)
unfolding write_lp
write_lp-Emits n bytes w fits h =
    let fits' : ltb (length bytes) max_message_size ≡ true = ground arith in
    rw fits' (
      Emits->>= n (λ v. v) (write_all (to_le 8 (length bytes))) (λ _. write_all bytes) w
        (write_all-Emits n (to_le 8 (length bytes)) w h) λ t _ th. write_all-Emits n bytes t th)

-- A message of the limit or more is refused, and nothing of it is written.
pub write_lp_too_large :
    (bytes : List Byte) (w : Writer)
    → max_message_size ≤ length bytes
    → write_lp bytes w ≡ (err message_too_large, w)
unfolding write_lp
write_lp_too_large bytes w h =
    let over : ltb (length bytes) max_message_size ≡ false = ground arith in rw over refl

-- What one side writes with `write_lp` to a new stream, whose transport does not fail, the other
-- side reads with `read_lp` into an empty buffer: the same value, with the size of its encoding, given
-- that the codec reads its values back and that the encoding is below the limit.
pub read_lp-write_lp :
    {T : Type 0} (c : Codec T) (P : T → Type 0) (value : T) (w : Writer) (v : Recv)
    → RoundTrips c P
    → P value
    → length (c.to_bytes value) < max_message_size
    → IsWilling 0 w
    → w.sent ≡ []
    → v.buffer ≡ []
    → content v.reader ≡ (write_lp (c.to_bytes value) w).1.sent
    → (read_lp c v).0 ≡ ok (some (value, length (c.to_bytes value)))
read_lp-write_lp c P value w v law p fits h w0 b carried =
    let e = write_lp-Emits 0 (c.to_bytes value) w fits h in
    let arrived : content v.reader ≡ frame (c.to_bytes value) ++ [] =
      carried
      ∙ e.wrote
      ∙ ap (λ (t : List Byte). t ++ frame (c.to_bytes value)) w0
      ∙ (rw append-nil refl) in
    ap (λ s. s.outcome)
      (read_lp-frame c (c.to_bytes value) [] v b arrived (omega arith) (law value p))
