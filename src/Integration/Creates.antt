-- ===== src/Integration/Creates.antt =====
-- The test `test_create_collection` of src/provider.rs, as a program like the integration tests.
use sendme.Base.{
  ◌≡◌, ◌≢◌, ◌≤◌, ◌+◌, ◌<◌, refl, sym, ap, ◌∙◌, Bool, true, false, Option, none, some, List, [], ◌∷◌,
  length, arith, ◌==◌, ==_iff, ◌&&◌, bytes_eq, bytes_eq_refl, inl, inr,
}
use mathlib.Core.Path.{subst}
use sendme.Base.Bytes.{Byte, u64_mod}
use sendme.Io.{Io, Outcome, ok, panic, chain, ◌>>◌}
use sendme.Util.{Hash, hash_eq}
use sendme.Protocol.Codec.{RoundTrips, from_bytes}
use sendme.Blobs.{Blob, Collection, collection_of_bytes}
use sendme.Env.{Env}
use sendme.Cli.{Files}
use sendme.Cli.Saving.{Distinct}
use sendme.Provider.Database.{Database, BlobOrCollection, blob, collection, get, hash_eq_refl}
use sendme.Provider.Create.{DataSource, file, named_file, create_collection, collection_name}
use sendme.Provider.Create.Built.{links_size}
use sendme.Provider.Create.Ranges.{IsCollection, Hashes}
use sendme.Provider.Create.Files.{In, source_collection}
use sendme.Provider.Create.Succeeds.{AreFiles, Reads-AreFiles, create_collection_succeeds}
use sendme.Get.{Decoding}
use sendme.Exchange.Created.{Abao, create_collection-Offers}
use sendme.Integration.{on_disk}
use sendme.Integration.Saved.{Writes, paths_of, saved, saved-Hold}
use sendme.Integration.Conditions.{on_disk-Abao, contents-Heads}

-- The derived `==` of `Blob` and of `Collection`
abbrev blobs_eq : List Blob → List Blob → Bool
blobs_eq [] [] = true
blobs_eq (a ∷ rest) (b ∷ bs) = bytes_eq a.name b.name && hash_eq a.hash b.hash && blobs_eq rest bs
blobs_eq [] (_ ∷ _) = false
blobs_eq (_ ∷ _) [] = false

abbrev collection_eq : Collection → Collection → Bool
collection_eq a b =
    bytes_eq a.name b.name && blobs_eq a.blobs b.blobs && (a.total_blobs_size == b.total_blobs_size)

blobs_eq_refl : (bs : List Blob) → blobs_eq bs bs ≡ true
blobs_eq_refl [] = refl
blobs_eq_refl (b ∷ bs) = rw (bytes_eq_refl b.name, hash_eq_refl b.hash, blobs_eq_refl bs) refl

collection_eq_refl : (c : Collection) → collection_eq c c ≡ true
collection_eq_refl c =
    rw
      (
        bytes_eq_refl c.name,
        blobs_eq_refl c.blobs,
        (==_iff c.total_blobs_size c.total_blobs_size).1 refl,
      )
      refl

abbrev assert_eq : Bool → Outcome (Unit {0})
assert_eq true = ok tt
assert_eq false = panic

abbrev foo : List Byte
foo = b'f' ∷ b'o' ∷ b'o' ∷ []

abbrev bar : List Byte
bar = b'b' ∷ b'a' ∷ b'r' ∷ []

abbrev bat : List Byte
bat = b'b' ∷ b'a' ∷ b't' ∷ []

abbrev baz : List Byte
baz = b'b' ∷ b'a' ∷ b'z' ∷ []

-- The files, which are all empty.
abbrev empty_files : List (List Byte × List Byte)
empty_files = (foo, []) ∷ (bar, []) ∷ (baz, []) ∷ []

module _ {F : Type 0} (env : Env) (files : Files F) (dir : List Byte) where
  abbrev empty_sources : List DataSource
  empty_sources =
      file (files.join dir foo)
      ∷ named_file (files.join dir bar) bat
      ∷ named_file (files.join dir baz) []
      ∷ []

  abbrev expect_collection : Collection
  expect_collection =
      let hash = (env.outboard []).1 in
      record {
        name = collection_name;
        blobs =
            record { name = foo; hash = hash }
            ∷ record { name = bat; hash = hash }
            ∷ record { name = []; hash = hash }
            ∷ [];
        total_blobs_size = 0;
      }

  -- What the test does with what it finds in the database.
  abbrev compare : Collection → Option BlobOrCollection → Outcome (Unit {0})
  compare expected none = panic
  compare expected (some (blob d)) = panic
  compare expected (some (collection outboard bytes)) =
      chain (collection_of_bytes env.collection bytes) λ c. assert_eq (collection_eq expected c)

  unfoldable check_created : F → Outcome (Unit {0})
  unfolding collection_of_bytes
  check_created f =
      chain (create_collection (on_disk env files f) empty_sources)
        λ created. compare expect_collection (get created.0 created.1)

  unfoldable test_create_collection : Io F (Unit {0})
  unfolding check_created
  test_create_collection = do
    files.write (files.join dir foo) []
    files.write (files.join dir bar) []
    files.write (files.join dir baz) []
    λ f. (check_created f, f)

abbrev empties : List (List Byte)
empties = [] ∷ [] ∷ [] ∷ []

In-empties : (y : List Byte) → In y empties → y ≡ []
In-empties y (inl e) = e
In-empties y (inr (inl e)) = e
In-empties y (inr (inr (inl e))) = e
In-empties y (inr (inr (inr m))) = elim m [ ]

module _ {F : Type 0} (env : Env) (files : Files F) (dir : List Byte) where
  check_created_lem :
      (f : F) (db : Database) (h : Hash) (outboard bytes : List Byte)
      → create_collection (on_disk env files f) (empty_sources env files dir) ≡ ok (db, h)
      → get db h ≡ some (collection outboard bytes)
      → env.collection.of_bytes bytes ≡ some (expect_collection env files dir)
      → check_created env files dir f ≡ ok tt
  unfolding check_created collection_of_bytes from_bytes
  check_created_lem f db h outboard bytes created entry decoded =
      rw (created, entry, decoded, collection_eq_refl (expect_collection env files dir)) refl

module _ {D F : Type 0} (dec : Decoding D) (env : Env) (files : Files F) (dir : List Byte) where
  -- The test `test_create_collection` passes: the collection that is found under the hash that
  -- `create_collection` returns has the three names, the second and third as they were given, the hash
  -- of the empty content three times, and the size 0. (The codecs, abao and the file system do as
  -- documented; the paths differ; the encoding fits its buffer and has not the hash of the empty
  -- content.)
  test_create_collection_passes :
      (start : F)
      → Abao env dec
      → RoundTrips env.collection IsCollection
      → Hashes env
      → Writes files
      → Distinct (paths_of files dir empty_files)
      → env.file_name (files.join dir foo) ≡ some foo
      → let c = expect_collection env files dir in
        length (env.collection.to_bytes c) ≤ links_size c.blobs + 10 + 1024
        → (env.outboard (env.collection.to_bytes c)).1 ≢ (env.outboard []).1
        → test_create_collection env files dir start ≡ (ok tt, saved files dir empty_files start)
  unfolding test_create_collection collection_of_bytes
  test_create_collection_passes start abao roundtrips hashes writes apart named room other =
      let f = saved files dir empty_files start in
      let seen = on_disk env files f in
      let seen_abao = on_disk-Abao env dec files f abao in
      let ds = empty_sources env files dir in
      let (read1, kind1, (read2, kind2, (read3, kind3, _))) =
        saved-Hold files dir writes empty_files start apart in
      let same : source_collection seen ds empties ≡ expect_collection env files dir =
        rw named refl in
      let are_files : AreFiles seen ds empties = (
        kind1,
        rw read1 refl,
        rw read1 refl,
        (kind2, rw read2 refl, rw read2 refl, (kind3, rw read3 refl, rw read3 refl, tt)),
      ) in
      let (db, created) =
        create_collection_succeeds seen ds empties are_files
          (contents-Heads seen dec seen_abao empties (omega arith)) (omega arith)
          (subst
            (λ (c : Collection).
              length (env.collection.to_bytes c) ≤ links_size c.blobs + 10 + 1024)
            (sym same) room) in
      let small : length (env.collection.to_bytes (source_collection seen ds empties)) < u64_mod =
        subst (λ (c : Collection). length (env.collection.to_bytes c) < u64_mod) (sym same)
          (omega (arith, room)) in
      let differs : (env.outboard (env.collection.to_bytes (source_collection seen ds empties))).1
          ≢ (env.outboard []).1 =
        subst
          (λ (c : Collection). (env.outboard (env.collection.to_bytes c)).1 ≢ (env.outboard []).1)
          (sym same) other in
      let o =
        create_collection-Offers seen dec seen_abao roundtrips hashes ds empties created
          (Reads-AreFiles seen ds empties are_files) (omega arith) small
          (λ y z a b e. In-empties y a ∙ sym (In-empties z b))
          (λ y m e. differs (e ∙ ap (λ (x : List Byte). (env.outboard x).1) (In-empties y m))) in
      let g = (files.write (files.join dir foo) [] start).1 in
      let g' = (files.write (files.join dir bar) [] g).1 in
      let checked =
        check_created_lem env files dir f db _ o.has.outboard o.has.bytes created o.has.entry
          (o.has.decodes ∙ ap some same) in
      rw
        (
          writes.wrote (files.join dir foo) [] start,
          writes.wrote (files.join dir bar) [] g,
          writes.wrote (files.join dir baz) [] g',
          checked,
        )
        refl
