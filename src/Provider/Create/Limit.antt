-- ===== src/Provider/Create/Limit.antt =====
-- How many files a collection can have.
use sendme.Base.{◌+◌, ◌*◌, ◌≡◌, ◌≢◌, ◌≤◌, ap}
use sendme.Base.{List, length}
use sendme.Base.{length-map, arith}
use sendme.Io.{ok}
use sendme.Util.{Hash}
use sendme.Blobs.{Blob, Collection}
use sendme.Env.{Env}
use sendme.Provider.Database.{Database}
use sendme.Provider.Create.{DataSource, Building}
use sendme.Provider.Create.{built_collection}
use sendme.Provider.Create.{finish_collection, create_collection}
use sendme.Provider.Create.Built.{
  links_size, link, length-compute_outboards, create_collection-Created,
}
use sendme.Provider.Create.Ranges.{IsCollection, built-IsCollection, Hashes}

module _ (env : Env) where
  -- What postcard's wire format needs at the least: a length of one byte or more before the name, the
  -- list, and each link's name and hash, and one byte or more for the total.
  abbrev pub WireSize : Type 0
  WireSize =
      (c : Collection)
      → IsCollection c
      → length c.name + links_size c.blobs + 2 * length c.blobs + 3
        ≤ length (env.collection.to_bytes c)

  finish_collection-fits :
      (b : Building) {db : Database} {h : Hash}
      → finish_collection env b ≡ ok (db, h)
      → length (env.collection.to_bytes (built_collection b)) ≤ b.size_estimate + 10 + 1024
  unfolding finish_collection
  finish_collection-fits b e = ground arith

  -- From 511 files on, no collection is created, whatever the files, given that postcard spends two
  -- bytes on each link beside its name and hash and that hashes have 32 bytes: the encoding does not fit
  -- the buffer that the estimate allots to it.
  pub create_collection_too_many :
      (ds : List DataSource) (r : Database × Hash)
      → WireSize
      → Hashes env
      → 511 ≤ length ds
      → create_collection env ds ≢ ok r
  create_collection_too_many ds (db, h) wire hashes many e =
      let k = create_collection-Created env ds e in
      let b = k.building in
      omega (
        arith,
        finish_collection-fits b k.finished,
        wire (built_collection b) (built-IsCollection env ds b hashes k.computed k.built),
        k.built.estimate,
        length-compute_outboards env ds k.computed,
        ap (λ (l : List Blob). length l) k.built.links,
        length-map k.outboards (link env),
      )
