-- ===== src/Protocol/Frames.antt =====
-- Length-prefixed messages: `write_lp`, `read_lp`, `read_size_data`, `read_lp_data`, `read_prefix`.
-- The length is eight bytes, little-endian. A `usize` is 64 bits wide, so that `usize::try_from`
-- succeeds; a slice or a split past the end of the buffer is the panic that it is in Rust.
pub mod Messages
pub mod Writing
use sendme.Base.{ℕ, Bool, Option, none, some, List, [], length, take, drop, leb, ltb, if◌then◌else◌}
use sendme.Base.Bytes.{Byte, to_le, from_le}
use sendme.Io.{
  Io, Outcome, ok, err, panic, io, unexpected_eof, message_too_large, ensure, pure, lift,
}
use sendme.Io.{◌>>=◌, ◌>>◌}
use sendme.Stream.{Reader, Recv, fill, read_exact}
use sendme.Sink.{Writer, write_all}
use sendme.Protocol.Codec.{Codec, from_bytes, max_message_size}

unfoldable pub write_lp : List Byte → Io Writer (Unit {0})
write_lp bytes = do
  ensure (ltb (length bytes) max_message_size) message_too_large
  write_all (to_le 8 (length bytes))
  write_all bytes

unfoldable pub read_prefix : Io Reader ℕ
read_prefix = do bytes ← read_exact 8; pure (from_le bytes)

-- `&buffer[..size]`
unfoldable pub slice_to : ℕ → List Byte → Outcome (List Byte)
slice_to size buffer = if leb size (length buffer) then ok (take size buffer) else panic

-- `buffer.split_to(size)`: the front of the buffer, which keeps the rest
unfoldable pub split_to : ℕ → Io Recv (List Byte)
split_to size v =
    if leb size (length v.buffer)
    then (ok (take size v.buffer), record v { buffer = drop size v.buffer })
    else (panic, v)

-- The loop of `read_lp` and of `read_size_data`.
abbrev pub fill_buffer : ℕ → Io Recv (Unit {0})
fill_buffer size v = fill size v.reader v.buffer

-- An action on the reader alone.
abbrev pub on_reader : {A : Type 0} → Io Reader A → Io Recv A
on_reader m v = let p = m v.reader in (p.0, record v { reader = p.1 })

module _ {T : Type 0} (c : Codec T) where
  -- From the end of the prefix to the end of `read_lp`.
  unfoldable pub read_lp_body : ℕ → Io Recv (Option (T × ℕ))
  unfolding slice_to
  read_lp_body size = do
    fill_buffer size
    bytes ← (λ v. (slice_to size v.buffer, v))
    response ← lift (from_bytes c bytes)
    pure (some (response, size))

  abbrev pub read_lp_sized : Outcome ℕ → Io Recv (Option (T × ℕ))
  read_lp_sized (ok size) = read_lp_body size
  read_lp_sized (err (io unexpected_eof)) = pure none
  read_lp_sized (err e) = lift (err e)
  read_lp_sized panic = lift panic

  unfoldable pub read_lp : Io Recv (Option (T × ℕ))
  unfolding read_lp_body
  read_lp v = let p = read_prefix v.reader in read_lp_sized p.0 (record v { reader = p.1 })

unfoldable pub read_size_data : ℕ → Io Recv (List Byte)
unfolding split_to
read_size_data size = do fill_buffer size; split_to size

unfoldable pub read_lp_data : Io Recv (Option (List Byte))
unfolding read_size_data
read_lp_data = do size ← on_reader read_prefix; response ← read_size_data size; pure (some response)
