-- ===== src/Get/Opens.antt =====
-- The client against the wire of `Provider.Transfer.Wire`, up to its blobs.
use sendme.Base.{ℕ, ◌≡◌, ◌≤◌, ◌<◌, refl, ap, ◌∙◌, true, false, Option, none, some}
use sendme.Base.{List, [], ◌∷◌, ◌++◌, length, arith, leb}
use sendme.Base.Bytes.{Byte, u64_mod}
use sendme.Io.{Io, ok, IoErrorKind, pure, ◌>>=◌, ◌>>◌}
use sendme.Stream.{Reader, Recv, read_chunk}
use sendme.Stream.View.{content, ending}
use sendme.Util.{Hash}
use sendme.Protocol.Codec.{found, RoundTrips, IsResponse, found_collection, Response, from_bytes}
use sendme.Protocol.Frames.{read_lp_data, on_reader}
use sendme.Protocol.Frames.Messages.{read_lp_data-frame}
use sendme.Blobs.{Blob, Collection, collection_of_bytes}
use sendme.Env.{Env}
use sendme.Provider.Transfer.Wire.{response_frame, blobs_wire, collection_wire, ResponsesFit}
use sendme.Get.{Decoding, Callbacks, Client, max_data_size, read_bao_encoded}
use sendme.Get.{handle_blob_response, download_blobs, receive_response}
use sendme.Get.{receive, on_recv}

module _ {D : Type 0} (dec : Decoding D) where
  -- A slice that the decoder verifies against a hash: whatever follows it on the stream and however
  -- the transport cuts it, the decoder gives the size and the content, and leaves what follows.
  pub record Verifies (h : Hash) (slice bytes : List Byte) : Type 0 where
    pub after_size :
        (r : Reader) (rest : List Byte)
        → content r ≡ slice ++ rest
        → let p = dec.read_size (dec.open_slice r h) in
          let q = dec.read_to_end p.1 in
          let z = dec.read_byte q.1 in
          (p.0 ≡ ok (length bytes))
          × (q.0 ≡ ok bytes)
          × (z.0 ≡ false)
          × (content (dec.into_inner z.1) ≡ rest)
          × (ending (dec.into_inner z.1) ≡ ending r)
    pub whole :
        (r : Reader) (rest : List Byte)
        → content r ≡ slice ++ rest
        → let q = dec.read_to_end (dec.open_slice r h) in
          (q.0 ≡ ok bytes)
          × (content (dec.into_inner q.1) ≡ rest)
          × (ending (dec.into_inner q.1) ≡ ending r)

  -- Each blob's slice decodes to the content at its place.
  abbrev pub AllVerify : List Blob → List (List Byte) → List (List Byte) → Type 0
  AllVerify [] [] [] = Unit
  AllVerify (b ∷ bs) (x ∷ xs) (y ∷ ys) = Verifies b.hash x y × AllVerify bs xs ys
  AllVerify [] (_ ∷ _) _ = ⊥
  AllVerify [] [] (_ ∷ _) = ⊥
  AllVerify (_ ∷ _) [] _ = ⊥
  AllVerify (_ ∷ _) (_ ∷ _) [] = ⊥

-- The state of a client that stands before `rest` with an empty buffer.
pub record Before (rest : List Byte) (last : Option IoErrorKind) (v : Recv) : Type 0 where
  pub empty : v.buffer ≡ []
  pub left : content v.reader ≡ rest
  pub end : ending v.reader ≡ last

module _ {D : Type 0} (env : Env) (dec : Decoding D) (fit : ResponsesFit env)
    (law : RoundTrips env.response IsResponse) where
  -- A `Found` opens the slice that follows it.
  pub handle_blob_response_found :
      (h : Hash) (id : ℕ) (rest : List Byte) (last : Option IoErrorKind) (v : Recv)
      → id < u64_mod
      → Before (response_frame env id found ++ rest) last v
      → let p = handle_blob_response env dec h v in
        (p.0 ≡ ok (dec.open_slice p.1.reader h)) × Before rest last p.1
  unfolding handle_blob_response from_bytes
  handle_blob_response_found h id rest last v i b =
      let r : Response = record { id = id; payload = found } in
      let p =
        read_lp_data-frame (env.response.to_bytes r) rest v b.empty b.left
          (omega (arith, fit r (i, tt))) in
      let empty = ap (λ s. s.filled) p in
      (
        rw (ap (λ s. s.outcome) p, law r (i, tt), empty) refl,
        rw (ap (λ s. s.outcome) p, law r (i, tt))
            (record { empty = empty; left = ap (λ s. s.left) p; end = ap (λ s. s.last) p ∙ b.end }),
      )

module _ {D U : Type 0} (env : Env) (dec : Decoding D) (callbacks : Callbacks D U)
    (fit : ResponsesFit env) (law : RoundTrips env.response IsResponse) where
  -- What follows the collection, once the caller has been told of it.
  abbrev pub after_collection : Collection → Io (Client U) ℕ
  after_collection c = do
    data_len ← (do
      download_blobs env dec callbacks c.total_blobs_size c.total_blobs_size c.blobs
      pure c.total_blobs_size)
    on_recv (on_reader read_chunk)
    pure data_len

  -- The answer to a request, up to the collection.
  pub receive_opens :
      (id : ℕ) (hash : Hash) (c : Collection) (encoded bytes : List Byte) (xs : List (List Byte))
      (s : Client U) (u : U)
      → callbacks.on_collection c s.user ≡ (ok tt, u)
      → id < u64_mod
      → Verifies dec hash encoded bytes
      → env.collection.of_bytes bytes ≡ some c
      → c.total_blobs_size ≤ max_data_size
      → Before (collection_wire env id c encoded xs) none s.recv
      → (v : Recv) × Before (blobs_wire env id xs) none v
        × (receive env dec callbacks hash s ≡ after_collection c (record { recv = v; user = u }))
  unfolding receive receive_response read_bao_encoded collection_of_bytes from_bytes
  receive_opens id hash c encoded bytes xs s u began i v decodes_c small before =
      let total : c.total_blobs_size < u64_mod = omega arith in
      let r : Response = record { id = id; payload = found_collection c.total_blobs_size } in
      let p =
        read_lp_data-frame (env.response.to_bytes r) (encoded ++ blobs_wire env id xs) s.recv
          before.empty before.left (omega (arith, fit r (i, total))) in
      let small' : leb c.total_blobs_size max_data_size ≡ true = ground arith in
      let t = (read_lp_data s.recv).1 in
      let (all, left, end) = v.whole t.reader (blobs_wire env id xs) (ap (λ s. s.left) p) in
      let q = dec.read_to_end (dec.open_slice t.reader hash) in
      (
        record t { reader = dec.into_inner q.1 },
        record {
          empty = ap (λ s. s.filled) p;
          left = left;
          end = end ∙ ap (λ s. s.last) p ∙ before.end;
        },
        rw (ap (λ s. s.outcome) p, law r (i, total), small', all, decodes_c, began) refl,
      )
