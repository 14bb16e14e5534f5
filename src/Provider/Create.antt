-- ===== src/Provider/Create.antt =====
-- `compute_outboard` and `create_collection` of src/provider.rs. The parallel computation of the
-- outboards is the list of its results in order. The total wraps at 64 bits, as in a release build;
-- the size estimate, which counts bytes in memory, does not reach that.
pub mod Built
pub mod Ranges
pub mod Limit
pub mod Describes
pub mod Files
pub mod Succeeds
use mathlib.Core.Option.{get_or}
use sendme.Base.{ℕ, ◌+◌, ◌%◌, Bool, true, false, Option, none, some, List, [], ◌∷◌, ◌++◌}
use sendme.Base.{length, take, leb, ◌==◌, if◌then◌else◌}
use sendme.Base.Bytes.{Byte, from_le, u64_mod}
use sendme.Io.{
  Io, Outcome, ok, err, panic, or_err, chain, not_a_file, file_error, file_changed, lift,
}
use sendme.Io.{◌>>=◌, ◌>>◌}
use sendme.Util.{Hash}
use sendme.Protocol.Codec.{to_slice}
use sendme.Blobs.{Blob, Collection}
use sendme.Env.{Env}
use sendme.Provider.Database.{blob, collection, Database, insert}

pub data DataSource : Type 0 where
  file : List Byte → DataSource
  named_file : List Byte → List Byte → DataSource

-- The tuple that `compute_outboard` returns.
pub record Outboard : Type 0 where
  pub path : List Byte
  pub name : Option (List Byte)
  pub hash : Hash
  pub bytes : List Byte

-- The variables of the loop of `create_collection`.
pub record Building : Type 0 where
  pub db : Database
  pub blobs : List Blob
  pub total_blobs_size : ℕ
  pub size_estimate : ℕ

-- b"collection"
abbrev pub collection_name : List Byte
collection_name = b'c' ∷ b'o' ∷ b'l' ∷ b'l' ∷ b'e' ∷ b'c' ∷ b't' ∷ b'i' ∷ b'o' ∷ b'n' ∷ []

-- u64::from_le_bytes(outboard[..8].try_into().unwrap())
unfoldable pub outboard_size : List Byte → Outcome ℕ
outboard_size bytes = if leb 8 (length bytes) then ok (from_le (take 8 bytes)) else panic

abbrev pub or_default : Option (List Byte) → List Byte
or_default none = []
or_default (some name) = name

abbrev pub built_collection : Building → Collection
built_collection b = record {
  name = collection_name;
  blobs = b.blobs;
  total_blobs_size = b.total_blobs_size;
}

abbrev pub empty_building : Building
empty_building = record { db = []; blobs = []; total_blobs_size = 0; size_estimate = 0 }

module _ (env : Env) where
  -- From the metadata to the end of `compute_outboard`.
  abbrev pub encode_file : List Byte → Option (List Byte) → ℕ → List Byte → Outcome Outboard
  encode_file path name len content =
      if len == length content
      then ok (record {
        path = path;
        name = name;
        hash = (env.outboard content).1;
        bytes = (env.outboard content).0;
      })
      else err file_changed

  unfoldable pub compute_outboard : List Byte → Option (List Byte) → Outcome Outboard
  compute_outboard path name =
      if env.is_file path
      then chain (or_err (env.file_len path) file_error)
          (λ len. chain (or_err (env.read_file path) file_error) (encode_file path name len))
      else err not_a_file

  abbrev pub outboard_of : DataSource → Outcome Outboard
  outboard_of (file path) = compute_outboard path none
  outboard_of (named_file path name) = compute_outboard path (some name)

  -- `collect::<Result<Vec<_>, _>>()?`: the first error, in the order of the sources
  unfoldable pub compute_outboards : List DataSource → Outcome (List Outboard)
  compute_outboards [] = ok []
  compute_outboards (d ∷ ds) =
      chain (outboard_of d) (λ o. chain (compute_outboards ds) (λ os. ok (o ∷ os)))

  -- name.unwrap_or_else(|| path.file_name() …)
  abbrev pub name_of : List Byte → Option (List Byte) → List Byte
  name_of path none = or_default (env.file_name path)
  name_of path (some name) = name

  -- The body of the loop, once the size is known.
  abbrev pub add_sized : Outboard → ℕ → Building → Building
  add_sized o size b =
      let name = name_of o.path o.name in
      record {
        db = insert o.hash (blob (record { outboard = o.bytes; path = o.path; size = size })) b.db;
        blobs = b.blobs ++ record { name = name; hash = o.hash } ∷ [];
        total_blobs_size = (b.total_blobs_size + size) % u64_mod;
        size_estimate = b.size_estimate + (length name + 32);
      }

  unfoldable pub add_outboards : List Outboard → Building → Outcome Building
  unfolding outboard_size
  add_outboards [] b = ok b
  add_outboards (o ∷ os) b =
      chain (outboard_size o.bytes) (λ size. add_outboards os (add_sized o size b))

  -- What follows the loop.
  unfoldable pub finish_collection : Building → Outcome (Database × Hash)
  unfolding to_slice
  finish_collection b =
      let room = b.size_estimate + length collection_name + 1024 in
      chain (to_slice env.collection (built_collection b) room) λ bytes.
        let (outboard, hash) = env.outboard bytes in
        ok (insert hash (collection outboard bytes) b.db, hash)

  unfoldable pub create_collection : List DataSource → Outcome (Database × Hash)
  unfolding finish_collection
  create_collection data_sources =
      chain (compute_outboards data_sources)
        (λ outboards. chain (add_outboards outboards empty_building) finish_collection)
