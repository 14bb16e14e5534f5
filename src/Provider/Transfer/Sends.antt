-- ===== src/Provider/Transfer/Sends.antt =====
-- The provider writes what `Wire` describes, when its transport does not fail.
use sendme.Base.{ℕ, ◌≡◌, ◌≤◌, ◌<◌, refl, ap, true, false, Option, none, some}
use sendme.Base.{List, [], ◌∷◌, ◌++◌, length, append_assoc, arith, leb}
use sendme.Base.{if◌then◌else◌, Bool-cases, inl, inr}
use sendme.Base.Bytes.{Byte, u64_mod}
use sendme.Io.{or_err, file_error, pure, lift, ◌>>=◌, ◌>>◌}
use sendme.Sink.{Writer, write_all, write_buf, finish, IsWilling}
use sendme.Sink.Emits.{Emits, Emits->>=, Emits-on, Emits-return, write_all-Emits, write_buf-Emits}
use sendme.Sink.Emits.{finish-Emits}
use sendme.Protocol.Codec.{Res, found, found_collection, IsRes, Response, to_slice, from_bytes}
use sendme.Protocol.Frames.Writing.{write_lp-Emits}
use sendme.Blobs.{Blob, Collection}
use sendme.Env.{Env, Extraction}
use sendme.Provider.Database.{Data, BlobOrCollection, blob, collection, Database, get}
use sendme.Provider.Transfer.{sent, Send, on_writer, grow, write_response}
use sendme.Provider.Transfer.{copy_slice, send_entry, send_blob, send_blobs, transfer_collection}
use sendme.Provider.Transfer.Wire.{Serves, slice_of_entry, slice_of_file, whole_slice}
use sendme.Provider.Transfer.Wire.{response_frame, blobs_wire, collection_wire, ResponsesFit}

-- The writer of the state.
abbrev pub out : Send → Writer
out s = s.writer

pub whole_slice-eq-some :
    (x : Extraction) (bytes : List Byte)
    → whole_slice x ≡ some bytes
    → (x.failed ≡ false) × (x.bytes ≡ bytes)
whole_slice-eq-some x bytes e = elim (Bool-cases x.failed) [
  | inl bad ↦ absurd (cc (ap (λ b. if b then none else some x.bytes) bad, e))
  | inr good ↦ (good, ground arith)
]

module _ (env : Env) (n : ℕ) (fit : ResponsesFit env) where
  pub write_response-Emits :
      (id : ℕ) (res : Res) (s : Send)
      → id < u64_mod
      → IsRes res
      → IsWilling n s.writer
      → Emits n out false (response_frame env id res) tt s (write_response env id res s)
  unfolding write_response to_slice
  write_response-Emits id res s i k h =
      let r : Response = record { id = id; payload = res } in
      let room : leb (length (env.response.to_bytes r)) (grow s.out_buffer) ≡ true =
        ground (arith, fit r (i, k)) in
      rw room (
        Emits-on n out
          (write_lp-Emits n (env.response.to_bytes r) s.writer (omega (arith, fit r (i, k))) h)
          refl)

  copy_slice-Emits :
      (x : Extraction) (bytes : List Byte) (s : Send)
      → whole_slice x ≡ some bytes
      → IsWilling n s.writer
      → Emits n out false bytes tt s (copy_slice x s)
  copy_slice-Emits x bytes s e h =
      let (good, same) = whole_slice-eq-some x bytes e in
      rw (good, ← same)
        (Emits-return n out (on_writer (write_all x.bytes)) tt s
          (Emits-on n out (write_all-Emits n x.bytes s.writer h) refl))

  -- After the `Found`.
  send_file-Emits :
      (d : Data) (o : Option (List Byte)) (x : List Byte) (s : Send)
      → slice_of_file env d o ≡ some x
      → IsWilling n s.writer
      → Emits n out false x sent s (
          (do
            content ← lift (or_err o file_error)
            copy_slice (env.extract content d.outboard d.size)
            pure sent)
            s)
  send_file-Emits d none x s e h = absurd (cc e)
  send_file-Emits d (some content) x s e h =
      Emits-return n out (copy_slice (env.extract content d.outboard d.size)) sent s
        (copy_slice-Emits (env.extract content d.outboard d.size) x s e h)

  pub send_entry-Emits :
      (o : Option BlobOrCollection) (x : List Byte) (id : ℕ) (s : Send)
      → id < u64_mod
      → slice_of_entry env o ≡ some x
      → IsWilling n s.writer
      → Emits n out false (response_frame env id found ++ x) sent s (send_entry env o id s)
  unfolding send_entry
  send_entry-Emits none x id s i e h = absurd (cc e)
  send_entry-Emits (some (collection _ _)) x id s i e h = absurd (cc e)
  send_entry-Emits (some (blob d)) x id s i e h =
      Emits->>= n out (write_response env id found) _ s (write_response-Emits id found s i tt h)
        λ t _ th. send_file-Emits d (env.read_file d.path) x t e th

  -- Every blob of the list goes out in order, and the stream is finished.
  pub send_blobs-Emits :
      (db : Database) (bs : List Blob) (xs : List (List Byte)) (id : ℕ) (s : Send)
      → id < u64_mod
      → Serves env db bs xs
      → IsWilling n s.writer
      → Emits n out true (blobs_wire env id xs) sent s (send_blobs env db bs id s)
  unfolding send_blobs send_blob
  send_blobs-Emits db [] [] id s i e h =
      Emits-return n out (on_writer finish) sent s (Emits-on n out (finish-Emits n s.writer h) refl)
  send_blobs-Emits db [] (x ∷ xs) id s i e h = elim e [ ]
  send_blobs-Emits db (b ∷ bs) [] id s i e h = elim e [ ]
  send_blobs-Emits db (b ∷ bs) (x ∷ xs) id s i e h =
      rw (← append_assoc (response_frame env id found) x (blobs_wire env id xs)) (
        Emits->>= n out (send_entry env (get db b.hash) id) _ s
          (send_entry-Emits (get db b.hash) x id s i e.0 h)
          λ t _ th. send_blobs-Emits db bs xs id t i e.1 th)

  -- For a collection of which the database serves every blob, over a transport that does not fail
  -- and takes the collection's slice in one write: the size, the collection's slice, and each blob's
  -- slice behind a `Found` go out in order, the stream is finished and the status is `Sent`. (The id and
  -- the total are a `u64`, and responses fit their buffer.)
  pub transfer_collection-Emits :
      (db : Database) (id : ℕ) (outboard content encoded : List Byte) (c : Collection)
      (xs : List (List Byte)) (s : Send)
      → whole_slice (env.extract content outboard (length content)) ≡ some encoded
      → env.collection.of_bytes content ≡ some c
      → Serves env db c.blobs xs
      → id < u64_mod
      → c.total_blobs_size < u64_mod
      → length encoded ≤ n
      → IsWilling n s.writer
      → Emits n out true
          (collection_wire env id c encoded xs)
          sent
          s
          (transfer_collection env db id outboard content s)
  unfolding transfer_collection from_bytes
  transfer_collection-Emits db id outboard content encoded c xs s slice decoded serves i total fits
        h =
      let x = env.extract content outboard (length content) in
      let (good, same) = whole_slice-eq-some x encoded slice in
      rw (good, decoded, same)
        (Emits->>= n out (write_response env id (found_collection c.total_blobs_size)) _ s
          (write_response-Emits id (found_collection c.total_blobs_size) s i total h)
          λ t _ th.
            Emits->>= n out (on_writer (write_buf encoded)) _ t
              (Emits-on n out (write_buf-Emits n encoded t.writer fits th) refl)
              λ u _ uh. send_blobs-Emits db c.blobs xs id u i serves uh)
