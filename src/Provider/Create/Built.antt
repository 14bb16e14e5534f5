-- ===== src/Provider/Create/Built.antt =====
-- The state of the loop of `create_collection` after some outboards.
use sendme.Base.{◌⊎◌, ℕ, ◌+◌, ◌%◌, ◌≡◌, inl, inr, refl}
use sendme.Base.{some, List, [], ◌∷◌, ◌++◌, map, append-nil, append_assoc, length, take}
use mathlib.Core.List.{map-append}
use mathlib.Core.Path.{subst}
use sendme.Base.{arith, All, All-append, Bool-cases}
use sendme.Base.Bytes.{Byte, from_le, u64_mod}
use sendme.Io.{ok, chain-eq-ok}
use sendme.Util.{Hash, hash_eq}
use sendme.Blobs.{Blob}
use sendme.Env.{Env}
use sendme.Provider.Database.{
  Data, blob, Database, get, insert, get-insert, hash_eq_refl, hash_eq_sound,
}
use sendme.Provider.Create.{DataSource, Outboard, Building, outboard_size, outboard_of}
use sendme.Provider.Create.{compute_outboards, name_of, add_sized, add_outboards}
use sendme.Provider.Create.{finish_collection, empty_building, create_collection}

-- The bytes of the names and hashes of the links.
abbrev pub links_size : List Blob → ℕ
links_size [] = 0
links_size (b ∷ bs) = length b.name + 32 + links_size bs

links_size-append : (xs ys : List Blob) → links_size (xs ++ ys) ≡ links_size xs + links_size ys
links_size-append [] ys = omega arith
links_size-append (x ∷ xs) ys = omega (arith, links_size-append xs ys)

-- The size of the file, from the outboard's head.
abbrev pub size_of : Outboard → ℕ
size_of o = from_le (take 8 o.bytes)

abbrev pub total_size : List Outboard → ℕ
total_size [] = 0
total_size (o ∷ os) = size_of o + total_size os

total_size-append : (xs ys : List Outboard) → total_size (xs ++ ys) ≡ total_size xs + total_size ys
total_size-append [] ys = omega arith
total_size-append (x ∷ xs) ys = omega (arith, total_size-append xs ys)

pub outboard_size-ok :
    (bytes : List Byte) {n : ℕ} → outboard_size bytes ≡ ok n → n ≡ from_le (take 8 bytes)
unfolding outboard_size
outboard_size-ok bytes h = ground arith

abbrev pub Among : Outboard → List Outboard → Type 0
Among o [] = ⊥
Among o (x ∷ xs) = (o ≡ x) ⊎ Among o xs

Among-last : (o : Outboard) (xs : List Outboard) → Among o (xs ++ o ∷ [])
Among-last o [] = inl refl
Among-last o (x ∷ xs) = inr (Among-last o xs)

Among-append : (o : Outboard) (xs ys : List Outboard) → Among o xs → Among o (xs ++ ys)
Among-append o [] ys m = elim m [ ]
Among-append o (x ∷ xs) ys (inl e) = inl e
Among-append o (x ∷ xs) ys (inr m) = inr (Among-append o xs ys m)

module _ (env : Env) where
  abbrev pub link : Outboard → Blob
  link o = record { name = name_of env o.path o.name; hash = o.hash }

  -- What the database has of a source: its outboard, its path and its size.
  abbrev pub data_of : Outboard → Data
  data_of o = record { outboard = o.bytes; path = o.path; size = size_of o }

  -- Under a hash the database has a blob with the outboard, the path and the size of a source that has
  -- this hash: of sources with one hash, which have one content, that is the last one.
  pub record IsStored (all : List Outboard) (db : Database) (h : Hash) : Type 0 where
    pub source : Outboard
    pub listed : Among source all
    pub hash : source.hash ≡ h
    pub entry : get db h ≡ some (blob (data_of source))

  -- After one more outboard.
  insert-IsStored :
      (all : List Outboard) (o : Outboard) (h : Hash) (db : Database)
      → IsStored all db h
      → IsStored (all ++ o ∷ []) (insert o.hash (blob (data_of o)) db) h
  insert-IsStored all o h db old = elim (Bool-cases (hash_eq o.hash h)) [
    | inl same ↦ record {
      source = o;
      listed = Among-last o all;
      hash = hash_eq_sound o.hash h same;
      entry = rw (get-insert, same) refl;
    }
    | inr other ↦ record {
      source = old.source;
      listed = Among-append old.source all (o ∷ []) old.listed;
      hash = old.hash;
      entry = rw (get-insert, other) old.entry;
    }
  ]

  insert-AllStored :
      (all : List Outboard) (o : Outboard) (db : Database) (os : List Outboard)
      → All (λ x. IsStored all db x.hash) os
      → All (λ x. IsStored (all ++ o ∷ []) (insert o.hash (blob (data_of o)) db) x.hash) os
  insert-AllStored all o db [] a = tt
  insert-AllStored all o db (x ∷ os) a =
      (insert-IsStored all o x.hash db a.0, insert-AllStored all o db os a.1)

  -- The loop's variables after the outboards `os`.
  pub record IsBuilt (os : List Outboard) (b : Building) : Type 0 where
    pub links : b.blobs ≡ map link os
    pub estimate : b.size_estimate ≡ links_size b.blobs
    pub total : b.total_blobs_size ≡ total_size os % u64_mod
    pub stored : All (λ o. IsStored os b.db o.hash) os

  add_sized-IsBuilt :
      (os : List Outboard) (o : Outboard) (b : Building)
      → IsBuilt os b
      → IsBuilt (os ++ o ∷ []) (add_sized env o (size_of o) b)
  add_sized-IsBuilt os o b h = record {
    links = rw (h.links, map-append) refl;
    estimate = omega (arith, h.estimate, links_size-append b.blobs (link o ∷ []));
    total = omega (arith, h.total, total_size-append os (o ∷ []));
    stored = All-append _ os (o ∷ []) (insert-AllStored os o b.db os h.stored) (
      record {
        source = o;
        listed = Among-last o os;
        hash = refl;
        entry = rw (get-insert, hash_eq_refl) refl;
      },
      tt,
    );
  }

  pub add_outboards-IsBuilt :
      (os more : List Outboard) (b : Building) {b' : Building}
      → IsBuilt os b
      → add_outboards env more b ≡ ok b'
      → IsBuilt (os ++ more) b'
  unfolding add_outboards
  add_outboards-IsBuilt os [] b {b'} h e =
      let same : b ≡ b' = ground arith in subst (IsBuilt (os ++ [])) same (rw append-nil h)
  add_outboards-IsBuilt os (o ∷ more) b {b'} h e =
      let (size, sized, rest) = chain-eq-ok (outboard_size o.bytes) _ e in
      let read : size ≡ size_of o = outboard_size-ok o.bytes sized in
      let rest' : add_outboards env more (add_sized env o (size_of o) b) ≡ ok b' =
        subst (λ n. add_outboards env more (add_sized env o n b) ≡ ok b') read rest in
      subst (λ l. IsBuilt l b') (append_assoc os (o ∷ []) more)
        (add_outboards-IsBuilt (os ++ o ∷ []) more (add_sized env o (size_of o) b)
          (add_sized-IsBuilt os o b h) rest')

  pub length-compute_outboards :
      (ds : List DataSource) {os : List Outboard}
      → compute_outboards env ds ≡ ok os
      → length os ≡ length ds
  unfolding compute_outboards
  length-compute_outboards [] e = ground arith
  length-compute_outboards (d ∷ ds) e =
      let (o, _, rest) = chain-eq-ok (outboard_of env d) _ e in
      let (os, tail, whole) = chain-eq-ok (compute_outboards env ds) _ rest in
      ground (arith, length-compute_outboards ds tail)

  -- The steps of a creation that succeeds.
  pub record Created (ds : List DataSource) (db : Database) (h : Hash) : Type 0 where
    pub outboards : List Outboard
    pub building : Building
    pub computed : compute_outboards env ds ≡ ok outboards
    pub added : add_outboards env outboards empty_building ≡ ok building
    pub built : IsBuilt outboards building
    pub finished : finish_collection env building ≡ ok (db, h)

  pub create_collection-Created :
      (ds : List DataSource) {db : Database} {h : Hash}
      → create_collection env ds ≡ ok (db, h)
      → Created ds db h
  unfolding create_collection
  create_collection-Created ds e =
      let (os, computed, rest) = chain-eq-ok (compute_outboards env ds) _ e in
      let (b, added, finished) = chain-eq-ok (add_outboards env os empty_building) _ rest in
      let start : IsBuilt [] empty_building = record {
        links = refl;
        estimate = refl;
        total = refl;
        stored = tt;
      } in
      record {
        outboards = os;
        building = b;
        computed = computed;
        added = added;
        built = add_outboards-IsBuilt [] os empty_building start added;
        finished = finished;
      }
