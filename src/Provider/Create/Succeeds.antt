-- ===== src/Provider/Create/Succeeds.antt =====
-- When a creation succeeds.
use sendme.Base.{
  ◌+◌, ◌≡◌, ◌≤◌, ◌<◌, refl, ap, ◌∙◌, true, Option, none, some, List, [], ◌∷◌, length, take, leb,
  arith, ◌==◌, ==_iff,
}
use sendme.Base.Bytes.{Byte, from_le, u64_mod, total_length}
use sendme.Io.{ok}
use sendme.Protocol.Codec.{to_slice}
use sendme.Env.{Env}
use sendme.Provider.Database.{Database, collection, insert}
use sendme.Provider.Create.{
  DataSource, file, named_file, compute_outboard, Building, outboard_of, outboard_size,
  compute_outboards, add_outboards, add_sized, finish_collection, create_collection, empty_building,
  built_collection,
}
use sendme.Provider.Create.Built.{links_size, IsBuilt, total_size, add_outboards-IsBuilt}
use sendme.Provider.Create.Files.{
  Reads, source_path, source_blobs, source_collection, outboards_for, outboard_for,
  links-outboards_for,
}

module _ (env : Env) where
  -- The sources are files with these contents.
  abbrev pub AreFiles : List DataSource → List (List Byte) → Type 0
  AreFiles [] [] = Unit
  AreFiles (d ∷ ds) (y ∷ ys) =
      (env.is_file (source_path d) ≡ true)
      × (env.file_len (source_path d) ≡ some (length y))
      × (env.read_file (source_path d) ≡ some y)
      × AreFiles ds ys
  AreFiles [] (_ ∷ _) = ⊥
  AreFiles (_ ∷ _) [] = ⊥

  -- The outboards of the contents begin with their lengths, as words.
  abbrev pub Heads : List (List Byte) → Type 0
  Heads [] = Unit
  Heads (y ∷ ys) =
      (8 ≤ length (env.outboard y).0) × (from_le (take 8 (env.outboard y).0) ≡ length y) × Heads ys

  pub Reads-AreFiles :
      (ds : List DataSource) (ys : List (List Byte)) → AreFiles ds ys → Reads env ds ys
  Reads-AreFiles [] [] r = tt
  Reads-AreFiles [] (_ ∷ _) r = elim r [ ]
  Reads-AreFiles (_ ∷ _) [] r = elim r [ ]
  Reads-AreFiles (d ∷ ds) (y ∷ ys) r = (r.2, Reads-AreFiles ds ys r.3)

  compute_outboard_file :
      (path : List Byte) (name : Option (List Byte)) (y : List Byte)
      → env.is_file path ≡ true
      → env.file_len path ≡ some (length y)
      → env.read_file path ≡ some y
      → compute_outboard env path name
        ≡ ok (record {
          path = path;
          name = name;
          hash = (env.outboard y).1;
          bytes = (env.outboard y).0;
        })
  unfolding compute_outboard
  compute_outboard_file path name y there len read =
      let same : (length y == length y) ≡ true = (==_iff (length y) (length y)).1 refl in
      rw (there, len, read, same) refl

  outboard_of_file :
      (d : DataSource) (y : List Byte)
      → env.is_file (source_path d) ≡ true
      → env.file_len (source_path d) ≡ some (length y)
      → env.read_file (source_path d) ≡ some y
      → outboard_of env d ≡ ok (outboard_for env d y)
  outboard_of_file (file path) y there len read = compute_outboard_file path none y there len read
  outboard_of_file (named_file path name) y there len read =
      compute_outboard_file path (some name) y there len read

  compute_outboards_files :
      (ds : List DataSource) (ys : List (List Byte))
      → AreFiles ds ys
      → compute_outboards env ds ≡ ok (outboards_for env ds ys)
  unfolding compute_outboards
  compute_outboards_files [] [] r = refl
  compute_outboards_files [] (_ ∷ _) r = elim r [ ]
  compute_outboards_files (_ ∷ _) [] r = elim r [ ]
  compute_outboards_files (d ∷ ds) (y ∷ ys) r =
      rw (outboard_of_file d y r.0 r.1 r.2, compute_outboards_files ds ys r.3) refl

  add_outboards-Heads :
      (ds : List DataSource) (ys : List (List Byte)) (b : Building)
      → Heads ys
      → (b' : Building) × (add_outboards env (outboards_for env ds ys) b ≡ ok b')
  unfolding add_outboards outboard_size
  add_outboards-Heads [] ys b h = (b, refl)
  add_outboards-Heads (d ∷ ds) [] b h = (b, refl)
  add_outboards-Heads (d ∷ ds) (y ∷ ys) b (long, head, h) =
      let o = outboard_for env d y in
      let long' : leb 8 (length o.bytes) ≡ true = ground arith in
      let (b', e) = add_outboards-Heads ds ys (add_sized env o (from_le (take 8 o.bytes)) b) h in
      (b', rw long' e)

  total_size-Heads :
      (ds : List DataSource) (ys : List (List Byte))
      → Heads ys
      → AreFiles ds ys
      → total_size (outboards_for env ds ys) ≡ total_length ys
  total_size-Heads [] [] h r = refl
  total_size-Heads [] (_ ∷ _) h r = elim r [ ]
  total_size-Heads (_ ∷ _) [] h r = elim r [ ]
  total_size-Heads (d ∷ ds) (y ∷ ys) h r = omega (arith, h.1, total_size-Heads ds ys h.2 r.3)

  -- A collection is created when every source is a file that can be read and that keeps its length,
  -- the outboards begin with the lengths, which sum up to a `u64`, and the collection's encoding is at
  -- most 1034 bytes longer than its names and hashes. Its hash is that of the encoding.
  pub create_collection_succeeds :
      (ds : List DataSource) (ys : List (List Byte))
      → AreFiles ds ys
      → Heads ys
      → total_length ys < u64_mod
      → let bytes = env.collection.to_bytes (source_collection env ds ys) in
        length bytes ≤ links_size (source_blobs env ds ys) + 10 + 1024
        → (db : Database) × (create_collection env ds
            ≡ ok (db, (env.outboard (env.collection.to_bytes (source_collection env ds ys))).1))
  unfolding create_collection finish_collection to_slice
  create_collection_succeeds ds ys files heads short fits =
      let (b, added) = add_outboards-Heads ds ys empty_building heads in
      let start : IsBuilt env [] empty_building = record {
        links = refl;
        estimate = refl;
        total = refl;
        stored = tt;
      } in
      let built =
        add_outboards-IsBuilt env [] (outboards_for env ds ys) empty_building start added in
      let links = built.links ∙ links-outboards_for env ds ys in
      let total : b.total_blobs_size ≡ total_length ys =
        omega (arith, built.total, total_size-Heads ds ys heads files) in
      let whole : built_collection b ≡ source_collection env ds ys = cc (links, total) in
      let room : leb (length (env.collection.to_bytes (built_collection b)))
            (b.size_estimate + 10 + 1024)
          ≡ true =
        rw whole (ground (arith, built.estimate, ap links_size links)) in
      let bytes = env.collection.to_bytes (source_collection env ds ys) in
      (
        insert (env.outboard bytes).1 (collection (env.outboard bytes).0 bytes) b.db,
        rw (compute_outboards_files ds ys files, added, room, whole) refl,
      )
