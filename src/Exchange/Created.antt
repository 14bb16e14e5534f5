-- ===== src/Exchange/Created.antt =====
-- From the files of a provider to the blobs of a client: `create_collection` and `handle_stream` of
-- src/provider.rs with `run` of src/get.rs.
use sendme.Base.{
  ℕ, ◌%◌, ◌≡◌, ◌≢◌, ◌≤◌, ◌<◌, refl, sym, ap, ◌∙◌, ◌⊎◌, inl, inr, true, some, List, [], ◌∷◌, ◌++◌,
  All, length, take, map, arith,
}
use mathlib.Core.Path.{subst}
use sendme.Base.Bytes.{Byte, from_le, u64_mod, total_length}
use sendme.Io.{ok}
use sendme.Stream.{Reader}
use sendme.Sink.{Writer, IsWilling}
use sendme.Util.{Hash, IsHash, hash_eq}
use sendme.Protocol.Codec.{AuthToken, IsToken, RoundTrips}
use sendme.Blobs.{Collection}
use sendme.Env.{Env}
use sendme.Provider.Database.{get, blob, Data, Database, hash_eq_sound}
use sendme.Provider.Create.{Outboard, DataSource, create_collection}
use sendme.Provider.Create.Built.{data_of, link, total_size, IsStored}
use sendme.Provider.Create.Ranges.{IsCollection, Hashes}
use sendme.Provider.Create.Describes.{create_collection-Describes}
use sendme.Provider.Create.Files.{
  In, Reads, source_blobs, source_collection, outboards_for, links-outboards_for,
  compute_outboards-Reads, FromFiles, create_collection-FromFiles,
}
use sendme.Provider.Session.{Session}
use sendme.Provider.Session.Serve.{Has}
use sendme.Provider.Transfer.Wire.{whole_slice, slice_of, Serves}
use sendme.Get.{Decoding, run, max_data_size}
use sendme.Get.Opens.{Verifies, AllVerify}
use sendme.Get.Receive.{Item, collecting, items}
use sendme.Exchange.{IsLawful, first_request, asking, AskingFits, Carries, run_gets_collection}

module _ {D : Type 0} (env : Env) (dec : Decoding D) where
  -- What abao's documentation says of a content: the slice made with its outboard is whole, the
  -- decoder verifies it against its hash, and the outboard begins with its length, as a word.
  pub record Encodes (y : List Byte) : Type 0 where
    pub slice : List Byte
    pub extracted : whole_slice (env.extract y (env.outboard y).0 (length y)) ≡ some slice
    pub verified : Verifies dec (env.outboard y).1 slice y
    pub worded : 8 ≤ length (env.outboard y).0
    pub headed : from_le (take 8 (env.outboard y).0) ≡ length y

  abbrev pub Abao : Type 0
  Abao = (y : List Byte) → length y < u64_mod → Encodes y

-- The hashes tell the contents apart.
abbrev pub Injective : Env → List (List Byte) → Type 0
Injective env ys =
    (y z : List Byte) → In y ys → In z ys → (env.outboard y).1 ≡ (env.outboard z).1 → y ≡ z

length-le-total : (y : List Byte) (ys : List (List Byte)) → In y ys → length y ≤ total_length ys
length-le-total y [] m = elim m [ ]
length-le-total y (z ∷ zs) (inl e) = omega (arith, ap (λ (l : List Byte). length l) e)
length-le-total y (z ∷ zs) (inr m) = omega (arith, length-le-total y zs m)

-- What a database offers of a collection, with the contents of its blobs.
pub record Offers {D : Type 0} (env : Env) (dec : Decoding D) (db : Database) (h : Hash)
    (c : Collection) (ys : List (List Byte)) : Type 0 where
  pub encoded : List Byte
  pub slices : List (List Byte)
  pub has : Has env db (first_request h) c encoded slices
  pub extracted :
      let bytes = env.collection.to_bytes c in
      whole_slice (env.extract bytes (env.outboard bytes).0 (length bytes)) ≡ some encoded
  pub whole : Verifies dec h encoded has.bytes
  pub verified : AllVerify dec c.blobs slices ys
  pub hashed : IsHash h

module _ {D : Type 0} (env : Env) (dec : Decoding D) (abao : Abao env dec)
    (roundtrips : RoundTrips env.collection IsCollection) (hashes : Hashes env) where
  stored_served :
      (all : List (List Byte)) (db : Database) (y : List Byte) (d : Data)
      → total_length all < u64_mod
      → Injective env all
      → FromFiles env all db
      → In y all
      → get db (env.outboard y).1 ≡ some (blob d)
      → (x : List Byte) × (slice_of env db (env.outboard y).1 ≡ some x)
        × Verifies dec (env.outboard y).1 x y
  stored_served all db y d short apart from m e =
      let f = from (env.outboard y).1 d e in
      let z = f.content in
      let enc = abao z (omega (arith, length-le-total z all f.listed)) in
      let same : z ≡ y = sym (apart y z m f.listed f.hash) in
      (
        enc.slice,
        rw (e, f.read, f.outboard, f.size ∙ enc.headed) enc.extracted,
        subst (λ c. Verifies dec (env.outboard c).1 enc.slice c) same enc.verified,
      )

  all_served :
      (os : List Outboard) (all : List (List Byte)) (db : Database) (h : Hash)
      (ds : List DataSource) (ys : List (List Byte))
      → total_length all < u64_mod
      → Injective env all
      → FromFiles env all db
      → ((y : List Byte) → In y all → h ≢ (env.outboard y).1)
      → ((y : List Byte) → In y ys → In y all)
      → Reads env ds ys
      → All (λ o. (hash_eq h o.hash ≡ true) ⊎ IsStored env os db o.hash) (outboards_for env ds ys)
      → (xs : List (List Byte)) × Serves env db (source_blobs env ds ys) xs
        × AllVerify dec (source_blobs env ds ys) xs ys
  all_served os all db h [] [] short apart from other within r stored = ([], tt, tt)
  all_served os all db h [] (_ ∷ _) short apart from other within r stored = elim r [ ]
  all_served os all db h (_ ∷ _) [] short apart from other within r stored = elim r [ ]
  all_served os all db h (d ∷ ds) (y ∷ ys) short apart from other within r (inl same, stored) =
      absurd (other y (within y (inl refl)) (hash_eq_sound h (env.outboard y).1 same))
  all_served os all db h (d ∷ ds) (y ∷ ys) short apart from other within r (inr here, stored) =
      let (x, slice, v) =
        stored_served all db y (data_of env here.source) short apart from (within y (inl refl))
          here.entry in
      let (xs, serves, vs) =
        all_served os all db h ds ys short apart from other (λ z m. within z (inr m)) r.1 stored in
      (x ∷ xs, (slice, serves), (v, vs))

  total_size-outboards_for :
      (ds : List DataSource) (ys : List (List Byte))
      → total_length ys < u64_mod
      → Reads env ds ys
      → total_size (outboards_for env ds ys) ≡ total_length ys
  total_size-outboards_for [] [] short r = refl
  total_size-outboards_for [] (_ ∷ _) short r = elim r [ ]
  total_size-outboards_for (_ ∷ _) [] short r = elim r [ ]
  total_size-outboards_for (d ∷ ds) (y ∷ ys) short r =
      omega (arith, (abao y (omega arith)).headed, total_size-outboards_for ds ys (omega arith) r.1)

  -- The database of a collection that was created offers it.
  pub create_collection-Offers :
      (ds : List DataSource) (ys : List (List Byte)) {db : Database} {h : Hash}
      → create_collection env ds ≡ ok (db, h)
      → Reads env ds ys
      → total_length ys < u64_mod
      → length (env.collection.to_bytes (source_collection env ds ys)) < u64_mod
      → Injective env ys
      → ((y : List Byte) → In y ys → h ≢ (env.outboard y).1)
      → Offers env dec db h (source_collection env ds ys) ys
  create_collection-Offers ds ys {db} {h} e r short small apart other =
      let (os, computed, _, descr) = create_collection-Describes env ds roundtrips hashes e in
      let c = source_collection env ds ys in
      let os_eq = compute_outboards-Reads env ds ys r computed in
      let links : map (link env) os ≡ source_blobs env ds ys =
        ap (λ l. map (link env) l) os_eq ∙ links-outboards_for env ds ys in
      let total : total_size os % u64_mod ≡ total_length ys =
        omega (arith, ap total_size os_eq, total_size-outboards_for ds ys short r) in
      let bytes_eq : descr.content ≡ env.collection.to_bytes c =
        descr.written ∙ cc (links, total) in
      let enc = abao (env.collection.to_bytes c) small in
      let outboard_eq : descr.outboard ≡ (env.outboard (env.collection.to_bytes c)).0 =
        cc (descr.hashed, bytes_eq) in
      let h_eq : (env.outboard (env.collection.to_bytes c)).1 ≡ h = cc (descr.hashed, bytes_eq) in
      let (xs, serves, vs) =
        all_served os ys db h ds ys short apart (create_collection-FromFiles env ds ys r e) other
          (λ y m. m) r
          (subst (All (λ o. (hash_eq h o.hash ≡ true) ⊎ IsStored env os db o.hash)) os_eq
            descr.served) in
      record {
        encoded = enc.slice;
        slices = xs;
        has = record {
          outboard = descr.outboard;
          bytes = descr.content;
          entry = descr.entry;
          slice = rw (outboard_eq, bytes_eq) enc.extracted;
          decodes = descr.decoded ∙ cc (links, total);
          serves = serves;
        };
        extracted = enc.extracted;
        whole = rw (bytes_eq, ← h_eq) enc.verified;
        verified = vs;
        hashed = subst IsHash h_eq (hashes (env.collection.to_bytes c));
      }

module _ {D : Type 0} (env : Env) (n : ℕ) (law : IsLawful env) (dec : Decoding D)
    (abao : Abao env dec) (roundtrips : RoundTrips env.collection IsCollection)
    (hashes : Hashes env) where
  -- When a collection of some files was created, a client with the right token that asks its
  -- provider for it gets, in the order of the files, the name, the hash and the whole content of each,
  -- and `run` returns the sum of their lengths, however the bytes are cut on the way. (The files still
  -- have their contents, of together at most `MAX_DATA_SIZE` bytes; their hashes tell them apart, and
  -- from the collection; abao does as documented; of the two sides and the stream between them the
  -- same is asked as for the run of the client.)
  pub run_gets_sources :
      (ds : List DataSource) (ys : List (List Byte)) (db : Database) (h : Hash) (token : AuthToken)
      (connection_id : ℕ) (w : Writer) (s : Session) (answer : List Byte → Reader)
      (kept : List Item)
      → create_collection env ds ≡ ok (db, h)
      → Reads env ds ys
      → total_length ys ≤ max_data_size
      → length (env.collection.to_bytes (source_collection env ds ys)) < u64_mod
      → Injective env ys
      → ((y : List Byte) → In y ys → h ≢ (env.outboard y).1)
      → IsToken token
      → AskingFits env h token
      → IsWilling 0 w
      → w.sent ≡ []
      → ((encoded : List Byte)
          → let bytes = env.collection.to_bytes (source_collection env ds ys) in
            whole_slice (env.extract bytes (env.outboard bytes).0 (length bytes)) ≡ some encoded
            → length encoded ≤ n)
      → IsWilling n s.send.writer
      → Carries env db token connection_id (asking env h token) s (answer (asking env h token))
      → let p = run env dec (collecting dec) (ok w) answer h token kept in
        (p.0 ≡ ok (total_length ys)) × (p.1 ≡ kept ++ items (source_blobs env ds ys) ys)
  run_gets_sources ds ys db h token connection_id w s answer kept e r limit small apart other t
        asking_fits ww w0 at_once willing carries =
      let o =
        create_collection-Offers env dec abao roundtrips hashes ds ys e r (omega arith) small apart
          other in
      run_gets_collection env n law dec db h token connection_id (source_collection env ds ys)
        o.encoded o.slices ys w s answer kept o.hashed t asking_fits ww w0 o.has o.whole o.verified
        (omega arith) limit (at_once o.encoded o.extracted) willing carries
