-- ===== src/Get.antt =====
-- src/get.rs: the client. The connection, the decoder of abao and the caller's callbacks are parameters.
-- `U` is the state of the caller, which the callbacks change. Times are not modelled.
pub mod Opens
pub mod Keeps
pub mod Receive
pub mod Refused
pub mod Setup
pub mod Bounds
pub mod Unread
use sendme.Base.{ℕ, ◌-◌, ◌*◌, Bool, true, false, Option, none, some, List, [], ◌∷◌, leb}
use sendme.Base.{if◌then◌else◌}
use sendme.Base.Bytes.{Byte}
use sendme.Io.{Io, Outcome, ok, err, panic, ensure, pure, fail, lift, ◌>>=◌, ◌>>◌}
use sendme.Io.{
  size_too_large, downloaded_too_much, blob_not_read, unexpected_message, data_not_found,
}
use sendme.Io.{stream_closed, server_disconnected}
use sendme.Stream.{Reader, Recv, read_chunk}
use sendme.Sink.{Writer, finish}
use sendme.Util.{Hash}
use sendme.Protocol.Codec.{AuthToken, new_handshake, Res, not_found, found, found_collection}
use sendme.Protocol.Codec.{to_slice, from_bytes}
use sendme.Protocol.Frames.{write_lp, read_lp_data, on_reader}
use sendme.Blobs.{Blob, Collection, collection_of_bytes}
use sendme.Env.{Env}

-- MAX_DATA_SIZE
abbrev pub max_data_size : ℕ
max_data_size = 1024 * 1024 * 1024

-- abao's `AsyncSliceDecoder`, which `DataStream` wraps.
pub record Decoding (D : Type 0) : Type 0 where
  -- `new(reader, hash, 0, u64::MAX)`
  pub open_slice : Reader → Hash → D
  pub read_size : Io D ℕ
  pub read_to_end : Io D (List Byte)
  -- whether `read_exact` of one byte succeeds
  pub read_byte : D → Bool × D
  pub into_inner : D → Reader

pub record Callbacks (D U : Type 0) : Type 0 where
  pub on_connected : Io U (Unit {0})
  pub on_collection : Collection → Io U (Unit {0})
  pub on_blob : Hash → D → List Byte → Io U D

pub record Client (U : Type 0) : Type 0 where
  pub recv : Recv
  pub user : U

-- The larger of two sizes.
abbrev pub max_size : ℕ → ℕ → ℕ
max_size a b = if leb a b then b else a

abbrev is_empty : List Byte → Bool
is_empty [] = true
is_empty (_ ∷ _) = false

module _ (env : Env) where
  -- Steps 1 and 2 of `run`.
  unfoldable pub send_request : Hash → AuthToken → Io Writer (Unit {0})
  send_request hash auth_token =
      let room = max_size env.request_max_size env.handshake_max_size in
      do
        used ← lift (to_slice env.handshake (new_handshake auth_token) room)
        write_lp used
        used' ← lift (to_slice env.request (record { id = 1; name = hash }) room)
        write_lp used'
        finish

module _ {D : Type 0} (dec : Decoding D) where
  -- `read_bao_encoded` of src/protocol.rs
  unfoldable pub read_bao_encoded : Hash → Io Reader (List Byte)
  read_bao_encoded hash r =
      let p = dec.read_to_end (dec.open_slice r hash) in (p.0, dec.into_inner p.1)

module _ {D : Type 0} (env : Env) (dec : Decoding D) where
  -- By what `handle_blob_response` was answered.
  abbrev pub open_blob : Hash → Res → Io Recv D
  open_blob hash (found_collection _) = fail unexpected_message
  open_blob hash not_found = fail data_not_found
  open_blob hash found =
      λ v. (if is_empty v.buffer then ok (dec.open_slice v.reader hash) else panic, v)

  abbrev pub blob_answer : Hash → Option (List Byte) → Io Recv D
  blob_answer hash none = fail server_disconnected
  blob_answer hash (some response_buffer) = do
    response ← lift (from_bytes env.response response_buffer)
    open_blob hash response.payload

  unfoldable pub handle_blob_response : Hash → Io Recv D
  handle_blob_response hash = do message ← read_lp_data; blob_answer hash message

module _ {U : Type 0} where
  abbrev pub on_recv : {A : Type 0} → Io Recv A → Io (Client U) A
  on_recv m s = let p = m s.recv in (p.0, record s { recv = p.1 })

  abbrev pub on_user : {A : Type 0} → Io U A → Io (Client U) A
  on_user m s = let p = m s.user in (p.0, record s { user = p.1 })

module _ {D U : Type 0} (env : Env) (dec : Decoding D) (callbacks : Callbacks D U) where
  -- if blob_reader.read_exact(&mut [0u8; 1]).await.is_ok() { bail!(..) } reader = into_inner()
  abbrev pub close_blob : D → Io (Client U) (Unit {0})
  close_blob d s =
      let p = dec.read_byte d in
      if p.0
      then (err blob_not_read, s)
      else (ok tt, record s { recv = record s.recv { reader = dec.into_inner p.1 } })

  -- One round of the loop over the blobs: the size that may still come.
  unfoldable pub download_blob : ℕ → ℕ → Blob → Io (Client U) ℕ
  download_blob total remaining blob = do
    blob_reader ← on_recv (handle_blob_response env dec blob.hash)
    let sized = dec.read_size blob_reader
    size ← lift sized.0
    ensure (leb size max_data_size) (size_too_large size)
    ensure (leb size remaining) (downloaded_too_much total)
    blob_reader' ← on_user (callbacks.on_blob blob.hash sized.1 blob.name)
    close_blob blob_reader'
    pure (remaining - size)

  unfoldable pub download_blobs : ℕ → ℕ → List Blob → Io (Client U) (Unit {0})
  download_blobs total remaining [] = pure tt
  download_blobs total remaining (b ∷ bs) = do
    remaining' ← download_blob total remaining b
    download_blobs total remaining' bs

  -- By the response to the request; the result is `data_len`.
  unfoldable pub receive_response : Hash → Res → Io (Client U) ℕ
  receive_response hash (found_collection total_blobs_size) = do
    ensure (leb total_blobs_size max_data_size) (size_too_large total_blobs_size)
    bytes ← on_recv (on_reader (read_bao_encoded dec hash))
    collection ← lift (collection_of_bytes env.collection bytes)
    on_user (callbacks.on_collection collection)
    download_blobs total_blobs_size total_blobs_size collection.blobs
    pure total_blobs_size
  receive_response hash found = fail unexpected_message
  receive_response hash not_found = fail data_not_found

  abbrev pub receive_message : Hash → Option (List Byte) → Io (Client U) ℕ
  receive_message hash none = fail stream_closed
  receive_message hash (some response_buffer) = do
    response ← lift (from_bytes env.response response_buffer)
    data_len ← receive_response hash response.payload
    on_recv (on_reader read_chunk)
    pure data_len

  -- Step 3 of `run`. More data at the end is only logged.
  unfoldable pub receive : Hash → Io (Client U) ℕ
  receive hash = do message ← on_recv read_lp_data; receive_message hash message

  -- `run` over the writer of an open stream; `answer` gives what arrives on the stream for the bytes
  -- that were sent on it. The result is the `data_len` of the statistics.
  unfoldable pub run : Outcome Writer → (List Byte → Reader) → Hash → AuthToken → Io U ℕ
  run connection answer hash auth_token = do
    writer ← lift connection
    callbacks.on_connected
    let sending = send_request env hash auth_token writer
    lift sending.0
    (λ u.
        let start : Client U = record {
          recv = record { reader = answer sending.1.sent; buffer = [] };
          user = u;
        } in
        let r = receive hash start in (r.0, r.1.user))
