-- ===== src/Get/Keeps.antt =====
-- The client against the wire of `Provider.Transfer.Wire`, with a caller that takes whole blobs.
use sendme.Base.{ℕ, ◌-◌, ◌≡◌, ◌≤◌, ◌<◌, refl, ap, ◌∙◌, true, Option, none, some}
use sendme.Base.{List, [], ◌∷◌, ◌++◌, length, arith, leb}
use sendme.Base.Bytes.{Byte, u64_mod, total_length}
use sendme.Io.{ok, IoErrorKind}
use sendme.Stream.{read_chunk}
use sendme.Stream.View.{read_chunk-none_iff}
use sendme.Util.{Hash}
use sendme.Protocol.Codec.{found, RoundTrips, IsResponse}
use sendme.Blobs.{Blob, Collection}
use sendme.Env.{Env}
use sendme.Provider.Transfer.Wire.{response_frame, blobs_wire, collection_wire, ResponsesFit}
use sendme.Get.{Decoding, Callbacks, Client, max_data_size}
use sendme.Get.{handle_blob_response, download_blob, download_blobs}
use sendme.Get.{receive}
use sendme.Get.Opens.{Verifies, AllVerify, Before, handle_blob_response_found, receive_opens}

-- A caller that takes whole blobs: what its state becomes, as long as it is `Ready`, it accepts the
-- collection, and it is `Fine` with the blobs that are still to come.
pub record Keeps {D U : Type 0} (dec : Decoding D) (callbacks : Callbacks D U) : Type 1 where
  pub Ready : U → Type 0
  pub Accepts : Collection → List (List Byte) → Type 0
  pub Fine : List Blob → List (List Byte) → U → Type 0
  pub welcome : U → U
  pub begin : Collection → U → U
  pub put : Hash → List Byte → List Byte → U → U
  pub connects :
      (u : U) → Ready u → (callbacks.on_connected u ≡ (ok tt, welcome u)) × Ready (welcome u)
  pub begins :
      (c : Collection) (ys : List (List Byte)) (u : U)
      → Ready u
      → Accepts c ys
      → (callbacks.on_collection c u ≡ (ok tt, begin c u)) × Fine c.blobs ys (begin c u)
  pub takes :
      (b : Blob) (bs : List Blob) (y : List Byte) (ys : List (List Byte)) (d : D) (u : U)
      → Fine (b ∷ bs) (y ∷ ys) u
      → (dec.read_to_end d).0 ≡ ok y
      → (callbacks.on_blob b.hash d b.name u ≡ (ok (dec.read_to_end d).1, put b.hash b.name y u))
        × Fine bs ys (put b.hash b.name y u)

-- The caller's state after all blobs.
abbrev pub put_all :
    {U : Type 0} → (Hash → List Byte → List Byte → U → U) → List Blob → List (List Byte) → U → U
put_all put [] ys u = u
put_all put (b ∷ bs) [] u = u
put_all put (b ∷ bs) (y ∷ ys) u = put_all put bs ys (put b.hash b.name y u)

module _ {D U : Type 0} (env : Env) (dec : Decoding D) (callbacks : Callbacks D U)
    (keeps : Keeps dec callbacks) (fit : ResponsesFit env)
    (law : RoundTrips env.response IsResponse) where
  -- One round of the loop.
  download_blob_served :
      (total remaining id : ℕ) (b : Blob) (bs : List Blob) (slice bytes rest : List Byte)
      (ys : List (List Byte)) (last : Option IoErrorKind) (s : Client U)
      → keeps.Fine (b ∷ bs) (bytes ∷ ys) s.user
      → id < u64_mod
      → Verifies dec b.hash slice bytes
      → length bytes ≤ remaining
      → remaining ≤ max_data_size
      → Before (response_frame env id found ++ (slice ++ rest)) last s.recv
      → let p = download_blob env dec callbacks total remaining b s in
        (p.0 ≡ ok (remaining - length bytes))
        × Before rest last p.1.recv
        × (p.1.user ≡ keeps.put b.hash b.name bytes s.user)
        × keeps.Fine bs ys p.1.user
  unfolding download_blob
  download_blob_served total remaining id b bs slice bytes rest ys last s fine i v fits small
        before =
      let (opened, next) =
        handle_blob_response_found env dec fit law b.hash id (slice ++ rest) last s.recv i before in
      let t = (handle_blob_response env dec b.hash s.recv).1 in
      let (size, all, at_end, left, end) = v.after_size t.reader rest next.left in
      let fits' : leb (length bytes) remaining ≡ true = ground arith in
      let small' : leb (length bytes) max_data_size ≡ true = ground arith in
      let d = (dec.read_size (dec.open_slice t.reader b.hash)).1 in
      let (took, fine') = keeps.takes b bs bytes ys d s.user fine all in
      (
        rw (opened, size, small', fits', took, at_end) refl,
        rw (opened, size, small', fits', took, at_end)
            (record { empty = next.empty; left = left; end = end ∙ next.end }),
        rw (opened, size, small', fits', took, at_end) refl,
        rw (opened, size, small', fits', took, at_end) fine',
      )

  -- The whole loop: all sizes fit what is left of the total.
  download_blobs_served :
      (total remaining id : ℕ) (bs : List Blob) (xs ys : List (List Byte))
      (last : Option IoErrorKind) (s : Client U)
      → keeps.Fine bs ys s.user
      → id < u64_mod
      → AllVerify dec bs xs ys
      → total_length ys ≤ remaining
      → remaining ≤ max_data_size
      → Before (blobs_wire env id xs) last s.recv
      → let p = download_blobs env dec callbacks total remaining bs s in
        (p.0 ≡ ok tt)
        × Before [] last p.1.recv
        × (p.1.user ≡ put_all keeps.put bs ys s.user)
        × keeps.Fine [] [] p.1.user
  unfolding download_blobs
  download_blobs_served total remaining id [] [] [] last s fine i v fits small before =
      (refl, before, refl, fine)
  download_blobs_served total remaining id [] (x ∷ xs) ys last s fine i v fits small before =
      elim v [ ]
  download_blobs_served total remaining id [] [] (y ∷ ys) last s fine i v fits small before =
      elim v [ ]
  download_blobs_served total remaining id (b ∷ bs) [] ys last s fine i v fits small before =
      elim v [ ]
  download_blobs_served total remaining id (b ∷ bs) (x ∷ xs) [] last s fine i v fits small before =
      elim v [ ]
  download_blobs_served total remaining id (b ∷ bs) (x ∷ xs) (y ∷ ys) last s fine i v fits small
        before =
      let (done, next, kept, fine') =
        download_blob_served total remaining id b bs x y (blobs_wire env id xs) ys last s fine i v.0
          (omega arith) small before in
      let t = (download_blob env dec callbacks total remaining b s).1 in
      let (done', next', kept', fine'') =
        download_blobs_served total (remaining - length y) id bs xs ys last t fine' i v.1
          (omega arith) (omega arith) next in
      (
        rw done done',
        rw done next',
        rw done (kept' ∙ ap (put_all keeps.put bs ys) kept),
        rw done fine'',
      )

  -- The whole answer to a request, and the end of the stream.
  pub receive_keeps :
      (id : ℕ) (hash : Hash) (c : Collection) (encoded bytes : List Byte) (xs ys : List (List Byte))
      (s : Client U)
      → keeps.Ready s.user
      → id < u64_mod
      → Verifies dec hash encoded bytes
      → env.collection.of_bytes bytes ≡ some c
      → keeps.Accepts c ys
      → AllVerify dec c.blobs xs ys
      → total_length ys ≤ c.total_blobs_size
      → c.total_blobs_size ≤ max_data_size
      → Before (collection_wire env id c encoded xs) none s.recv
      → let p = receive env dec callbacks hash s in
        (p.0 ≡ ok c.total_blobs_size)
        × (p.1.user ≡ put_all keeps.put c.blobs ys (keeps.begin c s.user))
        × keeps.Fine [] [] p.1.user
  receive_keeps id hash c encoded bytes xs ys s ready i v decodes_c accepts vs fits small before =
      let (began, fine') = keeps.begins c ys s.user ready accepts in
      let (next, at_blobs, opened) =
        receive_opens env dec callbacks fit law id hash c encoded bytes xs s (keeps.begin c s.user)
          began i v decodes_c small before in
      let u : Client U = record { recv = next; user = keeps.begin c s.user } in
      let (done, last, kept, fine'') =
        download_blobs_served c.total_blobs_size c.total_blobs_size id c.blobs xs ys none u fine' i
          vs fits small at_blobs in
      let z =
        (download_blobs env dec callbacks c.total_blobs_size c.total_blobs_size c.blobs u).1 in
      let at_end : (read_chunk z.recv.reader).0 ≡ ok none =
        (read_chunk-none_iff z.recv.reader).1 (last.left, last.end) in
      (
        rw (opened, done, at_end) refl,
        rw (opened, done, at_end) kept,
        rw (opened, done, at_end) fine'',
      )
