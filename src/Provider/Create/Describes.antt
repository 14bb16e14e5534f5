-- ===== src/Provider/Create/Describes.antt =====
-- What a created collection is.
use sendme.Base.{◌+◌, ◌%◌, ◌≡◌, ◌⊎◌, inl, inr, refl, sym, ◌∙◌, true}
use sendme.Base.{some, List, [], ◌∷◌, map, length}
use sendme.Base.{arith, All, Bool-cases}
use sendme.Base.Bytes.{Byte, u64_mod}
use sendme.Io.{ok, chain-eq-ok}
use sendme.Util.{Hash, hash_eq}
use sendme.Protocol.Codec.{to_slice, RoundTrips}
use sendme.Env.{Env}
use sendme.Provider.Database.{collection, Database, get, insert, get-insert, hash_eq_refl}
use sendme.Provider.Create.{DataSource, Outboard, Building, collection_name}
use sendme.Provider.Create.{compute_outboards, built_collection}
use sendme.Provider.Create.{finish_collection, create_collection}
use sendme.Provider.Create.Built.{
  total_size, link, IsStored, length-compute_outboards, create_collection-Created,
}
use sendme.Provider.Create.Ranges.{IsCollection, built-IsCollection, Hashes}

module _ (env : Env) where
  pub finish_collection-parts :
      (b : Building) {db : Database} {h : Hash}
      → finish_collection env b ≡ ok (db, h)
      → let bytes = env.collection.to_bytes (built_collection b) in
        (h ≡ (env.outboard bytes).1)
        × (db ≡ insert h (collection (env.outboard bytes).0 bytes) b.db)
  unfolding finish_collection
  finish_collection-parts b e =
      let (bytes, fits, rest) =
        chain-eq-ok (to_slice env.collection (built_collection b) (b.size_estimate + 10 + 1024)) _
          e in
      let same : bytes ≡ env.collection.to_bytes (built_collection b) = ground arith in
      (ground arith, ground arith)

  -- In the database a collection has just been put into, a blob is still there, unless the hashes agree.
  kept_or_same :
      (h : Hash) (outboard content : List Byte) (db : Database) (all os : List Outboard)
      → All (λ o. IsStored env all db o.hash) os
      → All
          (λ o.
            (hash_eq h o.hash ≡ true)
            ⊎ IsStored env all (insert h (collection outboard content) db) o.hash)
          os
  kept_or_same h outboard content db all [] a = tt
  kept_or_same h outboard content db all (o ∷ os) (s, a) = (
    elim (Bool-cases (hash_eq h o.hash)) [
      | inl same ↦ inl same
      | inr other ↦ inr (record {
        source = s.source;
        listed = s.listed;
        hash = s.hash;
        entry = rw (get-insert, other) s.entry;
      })
    ],
    kept_or_same h outboard content db all os a,
  )

  -- What a creation that succeeds makes of the outboards of its sources: under the returned hash the
  -- database has a collection that decodes to the links, in the order of the sources, and the sum of
  -- the sizes as a `u64`; the collection's outboard and hash are those of its bytes; and under
  -- each link's hash, unless it is the collection's own, the database has a blob with the outboard, the
  -- path and the size of a source of that hash.
  pub record Describes (os : List Outboard) (db : Database) (h : Hash) : Type 0 where
    pub outboard : List Byte
    pub content : List Byte
    pub written :
        content
        ≡ env.collection.to_bytes (record {
          name = collection_name;
          blobs = map (link env) os;
          total_blobs_size = total_size os % u64_mod;
        })
    pub hashed : env.outboard content ≡ (outboard, h)
    pub entry : get db h ≡ some (collection outboard content)
    pub decoded :
        env.collection.of_bytes content
        ≡ some (record {
          name = collection_name;
          blobs = map (link env) os;
          total_blobs_size = total_size os % u64_mod;
        })
    pub served : All (λ o. (hash_eq h o.hash ≡ true) ⊎ IsStored env os db o.hash) os

  pub create_collection-Describes :
      (ds : List DataSource) {db : Database} {h : Hash}
      → RoundTrips env.collection IsCollection
      → Hashes env
      → create_collection env ds ≡ ok (db, h)
      → (os : List Outboard) × (compute_outboards env ds ≡ ok os)
        × (length os ≡ length ds)
        × Describes os db h
  create_collection-Describes ds {db} {h} law hashes e =
      let k = create_collection-Created env ds e in
      let b = k.building in
      let (h_eq, db_eq) = finish_collection-parts b k.finished in
      let bytes = env.collection.to_bytes (built_collection b) in
      (
        k.outboards,
        k.computed,
        length-compute_outboards env ds k.computed,
        record {
          outboard = (env.outboard bytes).0;
          content = bytes;
          written = cc (k.built.links, k.built.total);
          hashed = λ i. ((env.outboard bytes).0, sym h_eq i);
          entry = rw (db_eq, get-insert, hash_eq_refl) refl;
          decoded =
              law (built_collection b) (built-IsCollection env ds b hashes k.computed k.built)
              ∙ cc (k.built.links, k.built.total);
          served = rw db_eq (
              kept_or_same h (env.outboard bytes).0 bytes b.db k.outboards k.outboards
                k.built.stored);
        },
      )
