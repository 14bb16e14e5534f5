-- ===== src/Env.antt =====
-- What the program uses of other crates and of the file system, as one parameter: postcard's codecs
-- and derived sizes, abao's outboard encoding and slices, and the files by their paths.
use sendme.Base.{ℕ, Bool, Option, List}
use sendme.Base.Bytes.{Byte}
use sendme.Util.{Hash}
use sendme.Protocol.Codec.{Codec, Handshake, Request, Response}
use sendme.Blobs.{Collection}

-- What reading a `SliceExtractor` to its end gives: bytes, and whether an error ended them.
pub record Extraction : Type 0 where
  pub bytes : List Byte
  pub failed : Bool

pub record Env : Type 0 where
  pub handshake : Codec Handshake
  pub request : Codec Request
  pub response : Codec Response
  pub collection : Codec Collection
  -- `Request::POSTCARD_MAX_SIZE` and `Handshake::POSTCARD_MAX_SIZE`
  pub request_max_size : ℕ
  pub handshake_max_size : ℕ
  -- `abao::encode::outboard(content)`, and what an `Encoder::new_outboard` comes to
  pub outboard : List Byte → List Byte × Hash
  -- `SliceExtractor::new_outboard(content, outboard, 0, len)`
  pub extract : List Byte → List Byte → ℕ → Extraction
  -- `std::fs::File::open(path)` with the content; `none` is an error
  pub read_file : List Byte → Option (List Byte)
  -- `Path::is_file`, `Path::file_name` where that is UTF-8, and the length in the open file's metadata
  pub is_file : List Byte → Bool
  pub file_name : List Byte → Option (List Byte)
  pub file_len : List Byte → Option ℕ
