-- ===== src/Provider/Transfer/Missing.antt =====
-- What `transfer_collection` puts on the wire when a blob is missing.
use sendme.Base.{
  ℕ, ◌≡◌, ◌≤◌, ◌<◌, refl, true, false, Option, none, some, List, [], ◌∷◌, ◌++◌, length,
}
use sendme.Base.{append_assoc, append-nil}
use sendme.Base.Bytes.{Byte, u64_mod}
use sendme.Io.{◌>>=◌}
use sendme.Sink.{write_buf, finish, IsWilling}
use sendme.Sink.Emits.{Emits, Emits->>=, Emits-on, Emits-return, write_buf-Emits, finish-Emits}
use sendme.Protocol.Codec.{found, not_found, found_collection, from_bytes}
use sendme.Blobs.{Blob}
use sendme.Env.{Env}
use sendme.Provider.Database.{BlobOrCollection, blob, collection, Database, get}
use sendme.Provider.Transfer.{missing, Send, on_writer, write_response, send_entry, send_blob}
use sendme.Provider.Transfer.{send_blobs, transfer_collection}
use sendme.Provider.Transfer.Wire.{Serves, whole_slice, response_frame, ResponsesFit}
use sendme.Provider.Transfer.Sends.{
  out, write_response-Emits, send_entry-Emits, whole_slice-eq-some,
}

-- The entry is not a blob.
abbrev pub IsAbsent : Option BlobOrCollection → Type 0
IsAbsent none = Unit
IsAbsent (some (collection _ _)) = Unit
IsAbsent (some (blob _)) = ⊥

-- The slices of the blobs before the missing one, and `NotFound` twice.
abbrev pub missing_wire : Env → ℕ → List (List Byte) → List Byte
missing_wire env id [] = response_frame env id not_found ++ response_frame env id not_found
missing_wire env id (x ∷ xs) = response_frame env id found ++ (x ++ missing_wire env id xs)

module _ (env : Env) (n : ℕ) (fit : ResponsesFit env) where
  send_entry-missing :
      (o : Option BlobOrCollection) (id : ℕ) (s : Send)
      → id < u64_mod
      → IsAbsent o
      → IsWilling n s.writer
      → Emits n out false (response_frame env id not_found) missing s (send_entry env o id s)
  unfolding send_entry
  send_entry-missing none id s i a h =
      Emits-return n out (write_response env id not_found) missing s
        (write_response-Emits env n fit id not_found s i tt h)
  send_entry-missing (some (collection _ _)) id s i a h =
      Emits-return n out (write_response env id not_found) missing s
        (write_response-Emits env n fit id not_found s i tt h)
  send_entry-missing (some (blob d)) id s i a h = elim a [ ]

  -- The second `NotFound`, and the end of the stream.
  pub refusal-Emits :
      (id : ℕ) (s : Send)
      → id < u64_mod
      → IsWilling n s.writer
      → Emits n out true
          (response_frame env id not_found)
          tt
          s
          ((write_response env id not_found >>= λ _. on_writer finish) s)
  refusal-Emits id s i h = rw (← append-nil (response_frame env id not_found)) (
      Emits->>= n out (write_response env id not_found) (λ _. on_writer finish) s
        (write_response-Emits env n fit id not_found s i tt h)
        λ t _ th. Emits-on n out (finish-Emits n t.writer th) refl)

  send_blobs-missing :
      (db : Database) (before after : List Blob) (b : Blob) (xs : List (List Byte)) (id : ℕ)
      (s : Send)
      → id < u64_mod
      → Serves env db before xs
      → IsAbsent (get db b.hash)
      → IsWilling n s.writer
      → Emits n out true
          (missing_wire env id xs)
          missing
          s
          (send_blobs env db (before ++ b ∷ after) id s)
  unfolding send_blobs send_blob
  send_blobs-missing db [] after b [] id s i e a h =
      Emits->>= n out (send_entry env (get db b.hash) id) _ s
        (send_entry-missing (get db b.hash) id s i a h)
        λ t _ th. rw (← append-nil (response_frame env id not_found)) (
          Emits->>= n out (write_response env id not_found) _ t
            (write_response-Emits env n fit id not_found t i tt th)
            λ u _ uh.
              Emits-return n out (on_writer finish) missing u
                (Emits-on n out (finish-Emits n u.writer uh) refl))
  send_blobs-missing db [] after b (x ∷ xs) id s i e a h = elim e [ ]
  send_blobs-missing db (p ∷ before) after b [] id s i e a h = elim e [ ]
  send_blobs-missing db (p ∷ before) after b (x ∷ xs) id s i e a h =
      rw (← append_assoc (response_frame env id found) x (missing_wire env id xs)) (
        Emits->>= n out (send_entry env (get db p.hash) id) _ s
          (send_entry-Emits env n fit (get db p.hash) x id s i e.0 h)
          λ t _ th. send_blobs-missing db before after b xs id t i e.1 a th)

  -- For a collection of which the database serves the blobs before one that it does not have as a
  -- blob, over a transport that does not fail and takes the collection's slice in one write: the size,
  -- the collection's slice, and the slices of the blobs before that one go out in order, then `NotFound`
  -- twice and nothing of the blobs after it; the stream is finished and the status is `NotFound`. (The
  -- id and the total are a `u64`, and responses fit their buffer.)
  pub transfer_collection-missing :
      (db : Database) (id : ℕ) (outboard content encoded name : List Byte) (total : ℕ)
      (before after : List Blob) (b : Blob) (xs : List (List Byte)) (s : Send)
      → whole_slice (env.extract content outboard (length content)) ≡ some encoded
      → env.collection.of_bytes content
        ≡ some (record { name = name; blobs = before ++ b ∷ after; total_blobs_size = total })
      → Serves env db before xs
      → IsAbsent (get db b.hash)
      → id < u64_mod
      → total < u64_mod
      → length encoded ≤ n
      → IsWilling n s.writer
      → Emits n out true
          (response_frame env id (found_collection total) ++ (encoded ++ missing_wire env id xs))
          missing
          s
          (transfer_collection env db id outboard content s)
  unfolding transfer_collection from_bytes
  transfer_collection-missing db id outboard content encoded name total before after b xs s slice
        decoded serves absent i total_fits fits h =
      let x = env.extract content outboard (length content) in
      let (good, same) = whole_slice-eq-some x encoded slice in
      rw (good, decoded, same)
        (Emits->>= n out (write_response env id (found_collection total)) _ s
          (write_response-Emits env n fit id (found_collection total) s i total_fits h)
          λ t _ th.
            Emits->>= n out (on_writer (write_buf encoded)) _ t
              (Emits-on n out (write_buf-Emits n encoded t.writer fits th) refl)
              λ u _ uh. send_blobs-missing db before after b xs id u i serves absent uh)
