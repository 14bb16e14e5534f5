-- ===== src/Blobs.antt =====
-- src/blobs.rs: a collection and the blobs that it links to. A `String` is its bytes.
use sendme.Base.{ℕ, List, length}
use sendme.Base.Bytes.{Byte}
use sendme.Io.{Outcome}
use sendme.Util.{Hash}
use sendme.Protocol.Codec.{Codec, from_bytes}

pub record Blob : Type 0 where
  pub name : List Byte
  pub hash : Hash

pub record Collection : Type 0 where
  pub name : List Byte
  pub blobs : List Blob
  pub total_blobs_size : ℕ

-- `Collection::from_bytes`
unfoldable pub collection_of_bytes : Codec Collection → List Byte → Outcome Collection
unfolding from_bytes
collection_of_bytes c slice = from_bytes c slice

-- `Collection::total_entries`
unfoldable pub total_entries : Collection → ℕ
total_entries c = length c.blobs
