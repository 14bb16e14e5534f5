-- ===== src/Provider/Create/Files.antt =====
-- Which files a creation has read, and what its database says of them.
use sendme.Base.{◌≡◌, refl, sym, ap, ◌⊎◌, inl, inr, Option, none, some, List, [], ◌∷◌}
use sendme.Base.{arith, map, take, Bool-cases}
use mathlib.Core.Path.{subst}
use sendme.Base.Bytes.{Byte, from_le, total_length}
use sendme.Io.{ok, chain-eq-ok, or_err, or_err-eq-ok, file_error}
use sendme.Util.{Hash, hash_eq}
use sendme.Blobs.{Blob, Collection}
use sendme.Env.{Env}
use sendme.Provider.Database.{
  Data, blob, collection, Database, get, insert, get-insert, hash_eq_sound,
}
use sendme.Provider.Create.{
  DataSource, file, named_file, compute_outboard, encode_file, Outboard, Building, outboard_of,
  outboard_size, compute_outboards, add_outboards, add_sized, name_of, create_collection,
  empty_building, collection_name,
}
use sendme.Provider.Create.Built.{link, create_collection-Created, outboard_size-ok}
use sendme.Provider.Create.Describes.{finish_collection-parts}

-- One of the contents.
abbrev pub In : List Byte → List (List Byte) → Type 0
In y [] = ⊥
In y (z ∷ zs) = (y ≡ z) ⊎ In y zs

abbrev pub source_path : DataSource → List Byte
source_path (file path) = path
source_path (named_file path name) = path

abbrev given_name : DataSource → Option (List Byte)
given_name (file path) = none
given_name (named_file path name) = some name

module _ (env : Env) where
  -- The name that a source has in the collection: the given one, or that of the file.
  abbrev pub source_name : DataSource → List Byte
  source_name d = name_of env (source_path d) (given_name d)

  -- The files of the sources hold the contents.
  abbrev pub Reads : List DataSource → List (List Byte) → Type 0
  Reads [] [] = Unit
  Reads (d ∷ ds) (y ∷ ys) = (env.read_file (source_path d) ≡ some y) × Reads ds ys
  Reads [] (_ ∷ _) = ⊥
  Reads (_ ∷ _) [] = ⊥

  -- The links of a collection of the sources with these contents.
  abbrev pub source_blobs : List DataSource → List (List Byte) → List Blob
  source_blobs [] ys = []
  source_blobs (d ∷ ds) [] = []
  source_blobs (d ∷ ds) (y ∷ ys) =
      record { name = source_name d; hash = (env.outboard y).1 } ∷ source_blobs ds ys

  -- The collection of the sources.
  abbrev pub source_collection : List DataSource → List (List Byte) → Collection
  source_collection ds ys = record {
    name = collection_name;
    blobs = source_blobs ds ys;
    total_blobs_size = total_length ys;
  }

  abbrev pub outboard_for : DataSource → List Byte → Outboard
  outboard_for d y = record {
    path = source_path d;
    name = given_name d;
    hash = (env.outboard y).1;
    bytes = (env.outboard y).0;
  }

  abbrev pub outboards_for : List DataSource → List (List Byte) → List Outboard
  outboards_for [] ys = []
  outboards_for (d ∷ ds) [] = []
  outboards_for (d ∷ ds) (y ∷ ys) = outboard_for d y ∷ outboards_for ds ys

  pub links-outboards_for :
      (ds : List DataSource) (ys : List (List Byte))
      → map (link env) (outboards_for ds ys) ≡ source_blobs ds ys
  links-outboards_for [] ys = refl
  links-outboards_for (d ∷ ds) [] = refl
  links-outboards_for (d ∷ ds) (y ∷ ys) =
      ap (λ l. record { name = source_name d; hash = (env.outboard y).1 } ∷ l)
        (links-outboards_for ds ys)

  compute_outboard_same :
      (path : List Byte) (name : Option (List Byte)) (y : List Byte) {o : Outboard}
      → env.read_file path ≡ some y
      → compute_outboard env path name ≡ ok o
      → o
        ≡ record { path = path; name = name; hash = (env.outboard y).1; bytes = (env.outboard y).0 }
  unfolding compute_outboard
  compute_outboard_same path name y {o} read e = elim (Bool-cases (env.is_file path)) [
    | inl there ↦
        let (len, _, rest) =
          chain-eq-ok (or_err (env.file_len path) file_error) _ (rw there at e) in
        let (content, got, made) =
          chain-eq-ok (or_err (env.read_file path) file_error) (encode_file env path name len)
            rest in
        let same : content ≡ y = cc (or_err-eq-ok (env.read_file path) file_error got, read) in
        let made' : encode_file env path name len y ≡ ok o =
          subst (λ c. encode_file env path name len c ≡ ok o) same made in
        ground arith
    | inr missing ↦ absurd (cc (rw missing at e))
  ]

  outboard_of_same :
      (d : DataSource) (y : List Byte) {o : Outboard}
      → env.read_file (source_path d) ≡ some y
      → outboard_of env d ≡ ok o
      → o ≡ outboard_for d y
  outboard_of_same (file path) y read e = compute_outboard_same path none y read e
  outboard_of_same (named_file path name) y read e = compute_outboard_same path (some name) y read e

  -- The outboards are those of the contents that the files hold.
  pub compute_outboards-Reads :
      (ds : List DataSource) (ys : List (List Byte)) {os : List Outboard}
      → Reads ds ys
      → compute_outboards env ds ≡ ok os
      → os ≡ outboards_for ds ys
  unfolding compute_outboards
  compute_outboards-Reads [] [] r e = ground arith
  compute_outboards-Reads [] (_ ∷ _) r e = elim r [ ]
  compute_outboards-Reads (_ ∷ _) [] r e = elim r [ ]
  compute_outboards-Reads (d ∷ ds) (y ∷ ys) r e =
      let (o, first, rest) = chain-eq-ok (outboard_of env d) _ e in
      let (os, tail, whole) = chain-eq-ok (compute_outboards env ds) _ rest in
      cc (outboard_of_same d y r.0 first, compute_outboards-Reads ds ys r.1 tail, whole)

  -- What the database has under a hash as a blob comes from a file with one of the contents.
  pub record FileOf (all : List (List Byte)) (key : Hash) (d : Data) : Type 0 where
    pub content : List Byte
    pub listed : In content all
    pub read : env.read_file d.path ≡ some content
    pub outboard : d.outboard ≡ (env.outboard content).0
    pub hash : key ≡ (env.outboard content).1
    pub size : d.size ≡ from_le (take 8 (env.outboard content).0)

  abbrev pub FromFiles : List (List Byte) → Database → Type 0
  FromFiles all db = (key : Hash) (d : Data) → get db key ≡ some (blob d) → FileOf all key d

  insert_blob-FromFiles :
      (all : List (List Byte)) (h : Hash) (d : Data) (db : Database)
      → FileOf all h d
      → FromFiles all db
      → FromFiles all (insert h (blob d) db)
  insert_blob-FromFiles all h d db new old key e there = elim (Bool-cases (hash_eq h key)) [
    | inl same ↦
        let found : some (blob d) ≡ some (blob e) = rw (get-insert, same) at there in
        let data_eq : d ≡ e = ground arith in
        subst (λ k. FileOf all k e) (hash_eq_sound h key same)
          (subst (λ x. FileOf all h x) data_eq new)
    | inr other ↦ old key e (rw (get-insert, other) at there)
  ]

  insert_collection-FromFiles :
      (all : List (List Byte)) (h : Hash) (outboard content : List Byte) (db : Database)
      → FromFiles all db
      → FromFiles all (insert h (collection outboard content) db)
  insert_collection-FromFiles all h outboard content db old key e there =
      elim (Bool-cases (hash_eq h key)) [
        | inl same ↦ absurd (cc (rw (get-insert, same) at there))
        | inr other ↦ old key e (rw (get-insert, other) at there)
      ]

  add_outboards-FromFiles :
      (all : List (List Byte)) (ds : List DataSource) (ys : List (List Byte)) (b : Building)
      {b' : Building}
      → ((y : List Byte) → In y ys → In y all)
      → Reads ds ys
      → FromFiles all b.db
      → add_outboards env (outboards_for ds ys) b ≡ ok b'
      → FromFiles all b'.db
  unfolding add_outboards
  add_outboards-FromFiles all [] [] b {b'} within r old e =
      let same : b ≡ b' = ground arith in subst (λ (x : Building). FromFiles all x.db) same old
  add_outboards-FromFiles all [] (_ ∷ _) b within r old e = elim r [ ]
  add_outboards-FromFiles all (_ ∷ _) [] b within r old e = elim r [ ]
  add_outboards-FromFiles all (d ∷ ds) (y ∷ ys) b {b'} within r old e =
      let o = outboard_for d y in
      let (size, sized, rest) = chain-eq-ok (outboard_size o.bytes) _ e in
      let entry : Data = record { outboard = o.bytes; path = o.path; size = size } in
      add_outboards-FromFiles all ds ys (add_sized env o size b) (λ z m. within z (inr m)) r.1
        (insert_blob-FromFiles all o.hash entry b.db
          (record {
            content = y;
            listed = within y (inl refl);
            read = r.0;
            outboard = refl;
            hash = refl;
            size = outboard_size-ok o.bytes sized;
          })
          old)
        rest

  -- So it is in the database of a collection that was created.
  pub create_collection-FromFiles :
      (ds : List DataSource) (ys : List (List Byte)) {db : Database} {h : Hash}
      → Reads ds ys
      → create_collection env ds ≡ ok (db, h)
      → FromFiles ys db
  unfolding get
  create_collection-FromFiles ds ys {db} {h} r e =
      let k = create_collection-Created env ds e in
      let (h_eq, db_eq) = finish_collection-parts env k.building k.finished in
      let added =
        subst (λ os. add_outboards env os empty_building ≡ ok k.building)
          (compute_outboards-Reads ds ys r k.computed) k.added in
      subst (FromFiles ys) (sym db_eq) (
        insert_collection-FromFiles ys h _ _ k.building.db (
          add_outboards-FromFiles ys ds ys empty_building (λ y m. m) r
            (λ key d none_there. absurd (cc none_there)) added))
