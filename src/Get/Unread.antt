-- ===== src/Get/Unread.antt =====
-- The client of src/get.rs with a caller that hands a blob's stream back before its end.
use sendme.Base.{ℕ, ◌≡◌, ◌≤◌, ◌<◌, refl, true, none, some, List, ◌∷◌, ◌++◌, length, leb, arith}
use sendme.Base.Bytes.{Byte, u64_mod}
use sendme.Io.{ok, err, blob_not_read}
use sendme.Stream.{Reader}
use sendme.Stream.View.{content}
use sendme.Util.{Hash}
use sendme.Protocol.Codec.{found, RoundTrips, IsResponse}
use sendme.Blobs.{Blob, Collection}
use sendme.Env.{Env}
use sendme.Provider.Transfer.Wire.{response_frame, blobs_wire, collection_wire, ResponsesFit}
use sendme.Get.{Decoding, Callbacks, Client, max_data_size, handle_blob_response, download_blob}
use sendme.Get.{download_blobs, receive}
use sendme.Get.Opens.{Verifies, Before, handle_blob_response_found, receive_opens}

-- Behind the size of a slice a byte of its content can be read.
abbrev pub Unread : {D : Type 0} → Decoding D → Hash → List Byte → Type 0
Unread dec h slice =
    (r : Reader) (rest : List Byte)
    → content r ≡ slice ++ rest
    → (dec.read_byte (dec.read_size (dec.open_slice r h)).1).0 ≡ true

-- A caller that goes on after the connection and the collection, and hands each stream back as it is.
pub record IsIdle {D U : Type 0} (callbacks : Callbacks D U) : Type 0 where
  pub connects : (u : U) → callbacks.on_connected u ≡ (ok tt, u)
  pub begins : (c : Collection) (u : U) → callbacks.on_collection c u ≡ (ok tt, u)
  pub hands_back :
      (h : Hash) (d : D) (name : List Byte) (u : U) → callbacks.on_blob h d name u ≡ (ok d, u)

module _ {D U : Type 0} (env : Env) (dec : Decoding D) (callbacks : Callbacks D U)
    (idle : IsIdle callbacks) (fit : ResponsesFit env)
    (law : RoundTrips env.response IsResponse) where
  download_blob-Unread :
      (total id : ℕ) (b : Blob) (slice bytes rest : List Byte) (s : Client U)
      → id < u64_mod
      → Verifies dec b.hash slice bytes
      → Unread dec b.hash slice
      → length bytes ≤ total
      → total ≤ max_data_size
      → Before (response_frame env id found ++ (slice ++ rest)) none s.recv
      → (download_blob env dec callbacks total total b s).0 ≡ err blob_not_read
  unfolding download_blob
  download_blob-Unread total id b slice bytes rest s i v unread fits small before =
      let (opened, next) =
        handle_blob_response_found env dec fit law b.hash id (slice ++ rest) none s.recv i before in
      let t = (handle_blob_response env dec b.hash s.recv).1 in
      let (size, _, _, _, _) = v.after_size t.reader rest next.left in
      let fits' : leb (length bytes) total ≡ true = ground arith in
      let small' : leb (length bytes) max_data_size ≡ true = ground arith in
      let d = (dec.read_size (dec.open_slice t.reader b.hash)).1 in
      rw
        (
          opened,
          size,
          small',
          fits',
          idle.hands_back b.hash d b.name s.user,
          unread t.reader rest next.left,
        )
        refl

  -- The first blob's stream comes back with content in it.
  pub receive-Unread :
      (id : ℕ) (hash : Hash) (c : Collection) (encoded bytes : List Byte) (b : Blob)
      (bs : List Blob) (x y : List Byte) (xs : List (List Byte)) (s : Client U)
      → id < u64_mod
      → Verifies dec hash encoded bytes
      → env.collection.of_bytes bytes ≡ some c
      → c.blobs ≡ b ∷ bs
      → Verifies dec b.hash x y
      → Unread dec b.hash x
      → length y ≤ c.total_blobs_size
      → c.total_blobs_size ≤ max_data_size
      → Before (collection_wire env id c encoded (x ∷ xs)) none s.recv
      → (receive env dec callbacks hash s).0 ≡ err blob_not_read
  unfolding download_blobs
  receive-Unread id hash c encoded bytes b bs x y xs s i v decodes_c first vx unread fits small
        before =
      let (next, at_blobs, opened) =
        receive_opens env dec callbacks fit law id hash c encoded bytes (x ∷ xs) s s.user
          (idle.begins c s.user) i v decodes_c small before in
      rw
        (
          opened,
          first,
          download_blob-Unread c.total_blobs_size id b x y (blobs_wire env id xs)
              (record { recv = next; user = s.user }) i vx unread fits small at_blobs,
        )
        refl
