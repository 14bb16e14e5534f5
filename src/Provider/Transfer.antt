-- ===== src/Provider/Transfer.antt =====
-- The sending side of src/provider.rs: `write_response`, `send_blob` and `transfer_collection`.
pub mod Calm
pub mod Wire
pub mod Sends
pub mod Missing
pub mod Cut
use sendme.Base.{ℕ, Bool, true, false, Option, none, some, List, [], ◌∷◌, length, ltb}
use sendme.Base.{if◌then◌else◌}
use sendme.Base.Bytes.{Byte}
use sendme.Io.{Io, Outcome, ok, err, panic, or_err, file_error, slice_error, pure, fail, lift}
use sendme.Io.{◌>>=◌, ◌>>◌}
use sendme.Sink.{Writer, write_all, write_buf, finish}
use sendme.Util.{Hash}
use sendme.Protocol.Codec.{Res, not_found, found, found_collection, Response, to_slice, from_bytes}
use sendme.Protocol.Frames.{write_lp}
use sendme.Blobs.{Blob, Collection}
use sendme.Env.{Env, Extraction}
use sendme.Provider.Database.{Data, BlobOrCollection, blob, collection, Database, get}

pub data SentStatus : Type 0 where
  sent missing : SentStatus

-- The writer, and the length of the buffer that responses are encoded in.
pub record Send : Type 0 where
  pub writer : Writer
  pub out_buffer : ℕ

abbrev pub on_writer : {A : Type 0} → Io Writer A → Io Send A
on_writer m s = let p = m s.writer in (p.0, record s { writer = p.1 })

-- if buffer.len() < 1024 { buffer.resize(1024, 0) }
abbrev pub grow : ℕ → ℕ
grow len = if ltb len 1024 then 1024 else len

-- `std::io::copy` of a slice to the writer
abbrev pub copy_slice : Extraction → Io Send (Unit {0})
copy_slice x = do on_writer (write_all x.bytes); if x.failed then fail slice_error else pure tt

module _ (env : Env) where
  unfoldable pub write_response : ℕ → Res → Io Send (Unit {0})
  write_response id res s =
      let room = grow s.out_buffer in
      (do
        used ← lift (to_slice env.response (record { id = id; payload = res }) room)
        on_writer (write_lp used))
        (record s { out_buffer = room })

  -- The two branches of `send_blob`, by what the database has.
  unfoldable pub send_entry : Option BlobOrCollection → ℕ → Io Send SentStatus
  send_entry (some (blob d)) id = do
    write_response id found
    content ← lift (or_err (env.read_file d.path) file_error)
    copy_slice (env.extract content d.outboard d.size)
    pure sent
  send_entry (some (collection _ _)) id = do write_response id not_found; pure missing
  send_entry none id = do write_response id not_found; pure missing

  unfoldable pub send_blob : Database → Hash → ℕ → Io Send SentStatus
  unfolding send_entry
  send_blob db name id = send_entry (get db name) id

  -- The loop over the blobs, and what follows it.
  unfoldable pub send_blobs : Database → List Blob → ℕ → Io Send SentStatus
  send_blobs db [] id = do on_writer finish; pure sent
  send_blobs db (b ∷ bs) id = do
    status ← send_blob db b.hash id
    elim status [
      | sent ↦ send_blobs db bs id
      | missing ↦ do write_response id not_found; on_writer finish; pure missing
    ]

  unfoldable pub transfer_collection : Database → ℕ → List Byte → List Byte → Io Send SentStatus
  transfer_collection db id outboard content =
      let encoded = env.extract content outboard (length content) in
      if encoded.failed then fail slice_error else do
        c ← lift (from_bytes env.collection content)
        write_response id (found_collection c.total_blobs_size)
        on_writer (write_buf encoded.bytes)
        send_blobs db c.blobs id
