-- ===== src/Provider/Transfer/Cut.antt =====
-- What `transfer_collection` of src/provider.rs does when its transport takes only a part of the
-- collection's slice.
use sendme.Base.{ℕ, suc, ◌≡◌, ◌<◌, refl, ap, ◌∙◌, true, some, List, ◌∷◌, ◌++◌, length, take}
use sendme.Base.Bytes.{Byte, u64_mod}
use sendme.Sink.{Answer, accept, write_buf, IsWilling}
use sendme.Sink.Emits.{Emits, Emits->>=, Emits-on, write_buf-Emits_short}
use sendme.Protocol.Codec.{found_collection, from_bytes}
use sendme.Blobs.{Collection}
use sendme.Env.{Env}
use sendme.Provider.Database.{Database}
use sendme.Provider.Transfer.{sent, Send, on_writer, write_response, transfer_collection}
use sendme.Provider.Transfer.Wire.{Serves, whole_slice, response_frame, blobs_wire, ResponsesFit}
use sendme.Provider.Transfer.Sends.{
  out, whole_slice-eq-some, write_response-Emits, send_blobs-Emits,
}

module _ (env : Env) (fit : ResponsesFit env) where
  -- When the transport, which does not fail, takes at the write of the collection's slice no more than
  -- `k + 1` of its bytes, fewer than it has, then only these go out: the blobs' slices follow them at
  -- once, the stream is finished, and the status is `Sent`. (The database serves every blob, the id
  -- and the total are a `u64`, and responses fit their buffer.)
  pub transfer_collection-cut :
      (db : Database) (id : ℕ) (outboard content encoded : List Byte) (c : Collection)
      (xs : List (List Byte)) (k : ℕ) (answers : List Answer) (s : Send)
      → whole_slice (env.extract content outboard (length content)) ≡ some encoded
      → env.collection.of_bytes content ≡ some c
      → Serves env db c.blobs xs
      → id < u64_mod
      → c.total_blobs_size < u64_mod
      → IsWilling 0 s.writer
      → (write_response env id (found_collection c.total_blobs_size) s).1.writer.answers
        ≡ accept k ∷ answers
      → suc k < length encoded
      → Emits 0 out true
          (response_frame env id (found_collection c.total_blobs_size)
            ++ (take (suc k) encoded ++ blobs_wire env id xs))
          sent
          s
          (transfer_collection env db id outboard content s)
  unfolding transfer_collection from_bytes
  transfer_collection-cut db id outboard content encoded c xs k answers s slice decoded serves i
        total h next cut =
      let x = env.extract content outboard (length content) in
      let (good, same) = whole_slice-eq-some x encoded slice in
      rw (good, decoded, same)
        (Emits->>= 0 out (write_response env id (found_collection c.total_blobs_size)) _ s
          (write_response-Emits env 0 fit id (found_collection c.total_blobs_size) s i total h)
          λ t at th.
            Emits->>= 0 out (on_writer (write_buf encoded)) _ t
              (Emits-on 0 out
                (write_buf-Emits_short k answers encoded t.writer
                  (ap (λ (v : Send). v.writer.answers) at ∙ next) cut th)
                refl)
              λ u _ uh. send_blobs-Emits env 0 fit db c.blobs xs id u i serves uh)
