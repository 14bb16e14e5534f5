-- ===== src/Provider/Session/Entries.antt =====
-- The database of src/provider.rs as the map that it is: which entries it has, not where. `handle_stream`
-- depends on nothing else.
use sendme.Base.{
  ℕ, ◌≡◌, ◌≢◌, refl, sym, ap, ◌∙◌, Option, none, some, length, if◌then◌else◌, arith, List, [], ◌∷◌,
}
use mathlib.Core.Path.{fun_ext}
use mathlib.Core.Quot
use mathlib.Core.Quot.{Quot, Quot-set}
use sendme.Io.{Io, ◌>>=◌, ◌>>◌, pure, fail, lift, slice_error}
use sendme.Util.{Hash, hash_eq}
use sendme.Base.Bytes.{Byte}
use sendme.Protocol.Codec.{AuthToken, from_bytes, not_found, found_collection}
use sendme.Blobs.{Blob}
use sendme.Env.{Env}
use sendme.Provider.Database.{
  BlobOrCollection, blob, collection, Database, get, insert, get-insert, hash_eq_sound,
}
use sendme.Provider.Transfer.{
  sent, missing, on_writer, write_response, send_entry, send_blob, send_blobs, transfer_collection,
}
use sendme.Sink.{write_buf, finish}
use sendme.Provider.Session.{
  Session, handle_stream, respond, or_notify, on_recv, on_send, emit, notify_transfer_aborted,
  report, request_received, read_handshake, read_request,
}

-- The same entries, wherever they stand.
abbrev pub SameEntries : Database → Database → Type 0
SameEntries a b = (h : Hash) → get a h ≡ get b h

module _ (env : Env) (a b : Database) (same : SameEntries a b) where
  send_blobs_same :
      (blobs : List Blob) (id : ℕ) → send_blobs env a blobs id ≡ send_blobs env b blobs id
  unfolding send_blobs send_blob
  send_blobs_same [] id = refl
  send_blobs_same (x ∷ blobs) id = λ i. send_entry env (same x.hash i) id >>= λ status.
      elim status [
        | sent ↦ send_blobs_same blobs id i
        | missing ↦ do write_response env id not_found; on_writer finish; pure missing
      ]

  transfer_collection_same :
      (id : ℕ) (outboard content : List Byte)
      → transfer_collection env a id outboard content
        ≡ transfer_collection env b id outboard content
  unfolding transfer_collection
  transfer_collection_same id outboard content = fun_ext λ s.
      let encoded = env.extract content outboard (length content) in
      λ i.
        (if encoded.failed then fail slice_error else do
          c ← lift (from_bytes env.collection content)
          write_response env id (found_collection c.total_blobs_size)
          on_writer (write_buf encoded.bytes)
          send_blobs_same c.blobs id i)
          s

  respond_same :
      (c id : ℕ) (entry : Option BlobOrCollection)
      → respond env a c id entry ≡ respond env b c id entry
  unfolding respond
  respond_same c id (some (collection outboard content)) = λ i. do
    status ←
        or_notify (on_send (transfer_collection_same id outboard content i))
          (notify_transfer_aborted c (some id))
    report c id status
  respond_same c id (some (blob d)) = refl
  respond_same c id none = refl

  -- With two databases that have the same entries, `handle_stream` does the same on every stream: where
  -- the entries stand does not matter.
  pub handle_stream_same :
      (token : AuthToken) (c : ℕ) → handle_stream env a token c ≡ handle_stream env b token c
  unfolding handle_stream
  handle_stream_same token c = λ i. do
    or_notify (on_recv (read_handshake env token)) (notify_transfer_aborted c none)
    request ← or_notify (on_recv (read_request env)) (notify_transfer_aborted c none)
    emit (request_received c request.id request.name)
    (ap (respond env a c request.id) (same request.name)
          ∙ respond_same c request.id (get b request.name))
        i

-- The `HashMap`, which has no order.
abbrev pub HashMap : Type 0
HashMap = Quot SameEntries

insert_same :
    (h : Hash) (v : BlobOrCollection) (a b : Database)
    → SameEntries a b
    → SameEntries (insert h v a) (insert h v b)
insert_same h v a b same k =
    get-insert h k v a
    ∙ ap (λ o. if hash_eq h k then some v else o) (same k)
    ∙ sym (get-insert h k v b)

pub put : Hash → BlobOrCollection → HashMap → HashMap
put h v =
    Quot.lift Quot-set (λ db. Quot.mk (insert h v db))
      (λ a b same. Quot.sound (insert_same h v a b same))

pub insert_comm :
    (h k : Hash) (v w : BlobOrCollection) (db : Database)
    → h ≢ k
    → SameEntries (insert h v (insert k w db)) (insert k w (insert h v db))
insert_comm h k v w db differ j = ground (
  arith,
  get-insert h j v (insert k w db),
  get-insert k j w db,
  get-insert k j w (insert h v db),
  get-insert h j v db,
  hash_eq_sound h j,
  hash_eq_sound k j,
)

-- Entries under two hashes can be put in any order, and a later one replaces an earlier one.
pub put_comm :
    (h k : Hash) (v w : BlobOrCollection) (m : HashMap)
    → h ≢ k
    → put h v (put k w m) ≡ put k w (put h v m)
unfolding put
put_comm h k v w m differ =
    Quot.ind {β = λ m. put h v (put k w m) ≡ put k w (put h v m)} (λ m. Quot-set _ _)
      (λ db. Quot.sound (insert_comm h k v w db differ)) m

pub put_again : (h : Hash) (v w : BlobOrCollection) (m : HashMap) → put h v (put h w m) ≡ put h v m
unfolding put
put_again h v w =
    Quot.ind (λ m. Quot-set _ _)
      (λ db. Quot.sound λ j.
        ground (arith, get-insert h j v (insert h w db), get-insert h j w db, get-insert h j v db))

module _ (env : Env) (token : AuthToken) (c : ℕ) where
  Session-set : IsSet (Io Session (Unit {0}))
  Session-set = hlevel

  -- `handle_stream` on the map.
  pub serve : HashMap → Io Session (Unit {0})
  serve =
      Quot.lift Session-set (λ db. handle_stream env db token c)
        (λ a b same. handle_stream_same env a b same token c)

  -- On the map of a database it is what it is on the database; so the order in which blobs came into
  -- the database does not matter to any stream.
  pub handle_stream-insert_comm :
      (h k : Hash) (v w : BlobOrCollection) (db : Database)
      → h ≢ k
      → handle_stream env (insert h v (insert k w db)) token c
        ≡ handle_stream env (insert k w (insert h v db)) token c
  unfolding serve put
  handle_stream-insert_comm h k v w db differ = ap serve (put_comm h k v w (Quot.mk db) differ)
