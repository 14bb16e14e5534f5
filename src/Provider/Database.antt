-- ===== src/Provider/Database.antt =====
-- `Database`, `BlobOrCollection` and `Data` of src/provider.rs. The `HashMap` is an association list
-- with one entry for a hash; its order stands for the map's unspecified one.
use sendme.Base.{ℕ, ◌≡◌, refl, true, Option, none, some, List, [], ◌∷◌, arith}
use sendme.Base.{bytes_eq_iff, if◌then◌else◌}
use sendme.Base.Bytes.{Byte}
use sendme.Util.{Hash, hash_eq}

pub record Data : Type 0 where
  pub outboard : List Byte
  pub path : List Byte
  pub size : ℕ

pub data BlobOrCollection : Type 0 where
  blob : Data → BlobOrCollection
  collection : List Byte → List Byte → BlobOrCollection

abbrev pub Database : Type 0
Database = List (Hash × BlobOrCollection)

-- `Database::get`
unfoldable pub get : Database → Hash → Option BlobOrCollection
get [] key = none
get ((k, v) ∷ db) key = if hash_eq k key then some v else get db key

-- `HashMap::insert`
unfoldable pub insert : Hash → BlobOrCollection → Database → Database
insert key v [] = (key, v) ∷ []
insert key v ((k, w) ∷ db) = if hash_eq k key then (k, v) ∷ db else (k, w) ∷ insert key v db

-- `Database::blobs`: hash, path and size of each blob
unfoldable pub blobs : Database → List (Hash × List Byte × ℕ)
blobs [] = []
blobs ((k, blob d) ∷ db) = (k, d.path, d.size) ∷ blobs db
blobs ((k, collection _ _) ∷ db) = blobs db

pub hash_eq_refl : (h : Hash) → hash_eq h h ≡ true
unfolding hash_eq
hash_eq_refl h = (bytes_eq_iff h.bytes h.bytes).1 refl

pub hash_eq_sound : (a b : Hash) → hash_eq a b ≡ true → a ≡ b
unfolding hash_eq
hash_eq_sound a b e = let p = (bytes_eq_iff a.bytes b.bytes).0 e in λ i. record { bytes = p i }

-- A lookup after an insertion.
pub get-insert :
    (key j : Hash) (v : BlobOrCollection) (db : Database)
    → get (insert key v db) j ≡ (if hash_eq key j then some v else get db j)
unfolding get insert
get-insert key j v [] = refl
get-insert key j v ((k, w) ∷ db) = ground (
  arith,
  get-insert key j v db,
  hash_eq_sound k key,
  hash_eq_sound k j,
  hash_eq_sound key j,
  hash_eq_refl k,
  hash_eq_refl j,
)
