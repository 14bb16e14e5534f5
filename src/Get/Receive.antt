-- ===== src/Get/Receive.antt =====
-- The client of src/get.rs with a caller that keeps every blob.
use sendme.Base.{ℕ, ◌≡◌, ◌≤◌, ◌<◌, refl, ◌∙◌, sym, none, some}
use sendme.Base.{List, [], ◌∷◌, ◌++◌, append-nil, append_assoc}
use sendme.Base.Bytes.{total_length, Byte, u64_mod}
use sendme.Io.{Io, Outcome, ok, err, panic, pure}
use sendme.Util.{Hash}
use sendme.Protocol.Codec.{RoundTrips, IsResponse}
use sendme.Blobs.{Blob, Collection}
use sendme.Env.{Env}
use sendme.Provider.Transfer.Wire.{collection_wire, ResponsesFit}
use sendme.Get.{Decoding, Callbacks, Client, max_data_size}
use sendme.Get.{receive}
use sendme.Get.Opens.{Verifies, AllVerify, Before}
use sendme.Get.Keeps.{Keeps, put_all, receive_keeps}

-- What a caller keeps of one blob.
pub record Item : Type 0 where
  pub hash : Hash
  pub name : List Byte
  pub bytes : List Byte

module _ {D : Type 0} (dec : Decoding D) where
  abbrev gather : Hash → List Byte → Outcome (List Byte) → D → Io (List Item) D
  gather h name (ok bytes) d u = (ok d, u ++ record { hash = h; name = name; bytes = bytes } ∷ [])
  gather h name (err e) d u = (err e, u)
  gather h name panic d u = (panic, u)

  -- A caller that reads each blob to its end and keeps it.
  abbrev pub collecting : Callbacks D (List Item)
  collecting = record {
    on_connected = pure tt;
    on_collection = λ c. pure tt;
    on_blob = λ h d name. let q = dec.read_to_end d in gather h name q.0 q.1;
  }

abbrev pub items : List Blob → List (List Byte) → List Item
items [] ys = []
items (b ∷ bs) [] = []
items (b ∷ bs) (y ∷ ys) = record { hash = b.hash; name = b.name; bytes = y } ∷ items bs ys

module _ {D : Type 0} (dec : Decoding D) where
  abbrev pub collecting-Keeps : Keeps dec (collecting dec)
  collecting-Keeps = record {
    Ready = λ u. Unit;
    Accepts = λ c ys. Unit;
    Fine = λ bs ys u. Unit;
    welcome = λ u. u;
    begin = λ c u. u;
    put = λ h name bytes u. u ++ record { hash = h; name = name; bytes = bytes } ∷ [];
    connects = λ u f. (refl, tt);
    begins = λ c ys u f a. (refl, tt);
    takes = λ b bs y ys d u f e. (rw e refl, tt);
  }

  pub put_all-items :
      (bs : List Blob) (ys : List (List Byte)) (u : List Item)
      → put_all (collecting-Keeps.put) bs ys u ≡ u ++ items bs ys
  put_all-items [] ys u = sym (append-nil u)
  put_all-items (b ∷ bs) [] u = sym (append-nil u)
  put_all-items (b ∷ bs) (y ∷ ys) u =
      put_all-items bs ys (u ++ record { hash = b.hash; name = b.name; bytes = y } ∷ [])
      ∙ append_assoc u (record { hash = b.hash; name = b.name; bytes = y } ∷ []) (items bs ys)

module _ {D : Type 0} (env : Env) (dec : Decoding D) (fit : ResponsesFit env)
    (law : RoundTrips env.response IsResponse) where
  -- A client with an empty buffer before the wire of a collection, on a stream that then ends without a
  -- fault, gets every blob of the collection in order, with its name and content, and reports the size
  -- that the provider announced, given that the decoder verifies the collection's slice and the slice
  -- of each blob, that the contents are within the announced size and that size within the limit of
  -- the client, and that responses are read back and fit their buffer.
  pub receive_collection :
      (id : ℕ) (hash : Hash) (c : Collection) (encoded bytes : List Byte) (xs ys : List (List Byte))
      (s : Client (List Item))
      → id < u64_mod
      → Verifies dec hash encoded bytes
      → env.collection.of_bytes bytes ≡ some c
      → AllVerify dec c.blobs xs ys
      → total_length ys ≤ c.total_blobs_size
      → c.total_blobs_size ≤ max_data_size
      → Before (collection_wire env id c encoded xs) none s.recv
      → let p = receive env dec (collecting dec) hash s in
        (p.0 ≡ ok c.total_blobs_size) × (p.1.user ≡ s.user ++ items c.blobs ys)
  receive_collection id hash c encoded bytes xs ys s i v decodes_c vs fits small before =
      let (done, kept, fine) =
        receive_keeps env dec (collecting dec) (collecting-Keeps dec) fit law id hash c encoded
          bytes xs ys s tt i v decodes_c tt vs fits small before in
      (done, kept ∙ put_all-items dec c.blobs ys s.user)
