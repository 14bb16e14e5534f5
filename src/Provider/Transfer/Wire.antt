-- ===== src/Provider/Transfer/Wire.antt =====
-- What `transfer_collection` puts on the wire, as a description apart from the code.
use sendme.Base.{ℕ, ◌≡◌, ◌≤◌, Option, none, some, List, [], ◌∷◌, ◌++◌, length}
use sendme.Base.{if◌then◌else◌}
use sendme.Base.Bytes.{Byte}
use sendme.Util.{Hash}
use sendme.Protocol.Codec.{Res, found, found_collection, Response, IsResponse}
use sendme.Protocol.Frames.Messages.{frame}
use sendme.Blobs.{Blob, Collection}
use sendme.Env.{Env, Extraction}
use sendme.Provider.Database.{Data, BlobOrCollection, blob, collection, Database, get}

abbrev pub whole_slice : Extraction → Option (List Byte)
whole_slice x = if x.failed then none else some x.bytes

module _ (env : Env) where
  -- The slice of a blob: its file is there, and its outboard fits the content.
  abbrev pub slice_of_file : Data → Option (List Byte) → Option (List Byte)
  slice_of_file d none = none
  slice_of_file d (some content) = whole_slice (env.extract content d.outboard d.size)

  abbrev pub slice_of_entry : Option BlobOrCollection → Option (List Byte)
  slice_of_entry (some (blob d)) = slice_of_file d (env.read_file d.path)
  slice_of_entry (some (collection _ _)) = none
  slice_of_entry none = none

  abbrev pub slice_of : Database → Hash → Option (List Byte)
  slice_of db h = slice_of_entry (get db h)

  -- The database serves each blob with the slice at its place.
  abbrev pub Serves : Database → List Blob → List (List Byte) → Type 0
  Serves db [] [] = Unit
  Serves db (b ∷ bs) (x ∷ xs) = (slice_of db b.hash ≡ some x) × Serves db bs xs
  Serves db [] (_ ∷ _) = ⊥
  Serves db (_ ∷ _) [] = ⊥

  abbrev pub response_frame : ℕ → Res → List Byte
  response_frame id res = frame (env.response.to_bytes (record { id = id; payload = res }))

  -- Each slice behind a `Found`, in the order of the collection.
  abbrev pub blobs_wire : ℕ → List (List Byte) → List Byte
  blobs_wire id [] = []
  blobs_wire id (x ∷ xs) = response_frame id found ++ (x ++ blobs_wire id xs)

  abbrev pub collection_wire : ℕ → Collection → List Byte → List (List Byte) → List Byte
  collection_wire id c encoded slices =
      response_frame id (found_collection c.total_blobs_size) ++ (encoded ++ blobs_wire id slices)

  -- A response fits the buffer of 1024 bytes; postcard needs at most 21 for one.
  abbrev pub ResponsesFit : Type 0
  ResponsesFit = (r : Response) → IsResponse r → length (env.response.to_bytes r) ≤ 1024
