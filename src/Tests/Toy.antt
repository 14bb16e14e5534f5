-- ===== src/Tests/Toy.antt =====
-- A concrete `Env`, to run the program on: codecs that read back what they write, an outboard that is
-- the size alone, slices that are frames, and a file system in which a file's content is its path.
use sendme.Base.{
  ℕ, zero, suc, ◌+◌, ◌*◌, ◌%◌, ◌≡◌, ◌≤◌, ◌<◌, refl, ap, ◌∙◌, Bool, true, false, Option, none, some,
}
use sendme.Base.{List, [], ◌∷◌, ◌++◌, arith, length, take, drop, replicate, All}
use sendme.Base.{take-append, drop-append, length-append}
use sendme.Base.Bytes.{Byte, to_le, from_le, length-to_le, from_le-to_le_word, u64_mod}
use sendme.Util.{Hash, IsHash}
use sendme.Protocol.Codec.{Handshake, Request, Res, not_found, found, found_collection, Response}
use sendme.Protocol.Codec.{Codec, RoundTrips, IsHandshake, IsRequest, IsRes, IsResponse}
use sendme.Protocol.Frames.Messages.{frame}
use sendme.Blobs.{Blob, Collection}
use sendme.Env.{Env}
use sendme.Provider.Create.Ranges.{IsCollection, Hashes}
use sendme.Provider.Create.Built.{links_size}
use sendme.Provider.Create.Limit.{WireSize}
use sendme.Provider.Transfer.Wire.{ResponsesFit}
use sendme.Exchange.{IsLawful}

-- A word, and what follows it.
pub take_word : (n : ℕ) (rest : List Byte) → n < u64_mod → from_le (take 8 (to_le 8 n ++ rest)) ≡ n
take_word n rest h =
    ap from_le (take-append 8 (to_le 8 n) rest (length-to_le 8 n)) ∙ from_le-to_le_word n h

drop_word : (n : ℕ) (rest : List Byte) → drop 8 (to_le 8 n ++ rest) ≡ rest
drop_word n rest = drop-append 8 (to_le 8 n) rest (length-to_le 8 n)

abbrev pub handshakes : Codec Handshake
handshakes = record {
  to_bytes = λ h. to_le 8 h.version ++ h.token.bytes;
  of_bytes =
      λ l. some (record { version = from_le (take 8 l); token = record { bytes = drop 8 l } });
}

handshakes-RoundTrips : RoundTrips handshakes IsHandshake
handshakes-RoundTrips h (v, _) =
    rw (take_word h.version h.token.bytes v, drop_word h.version h.token.bytes) refl

abbrev pub requests : Codec Request
requests = record {
  to_bytes = λ r. to_le 8 r.id ++ r.name.bytes;
  of_bytes = λ l. some (record { id = from_le (take 8 l); name = record { bytes = drop 8 l } });
}

pub requests-RoundTrips : RoundTrips requests IsRequest
requests-RoundTrips r (i, _) = rw (take_word r.id r.name.bytes i, drop_word r.id r.name.bytes) refl

abbrev res_bytes : Res → List Byte
res_bytes not_found = 0 ∷ []
res_bytes found = 1 ∷ []
res_bytes (found_collection n) = 2 ∷ to_le 8 n

abbrev res_of : List Byte → Option Res
res_of [] = none
res_of (zero ∷ _) = some not_found
res_of (suc zero ∷ _) = some found
res_of (suc (suc _) ∷ l) = some (found_collection (from_le l))

abbrev response_of : ℕ → Option Res → Option Response
response_of id none = none
response_of id (some res) = some (record { id = id; payload = res })

abbrev pub responses : Codec Response
responses = record {
  to_bytes = λ r. to_le 8 r.id ++ res_bytes r.payload;
  of_bytes = λ l. response_of (from_le (take 8 l)) (res_of (drop 8 l));
}

res_of-res_bytes : (p : Res) → IsRes p → res_of (res_bytes p) ≡ some p
res_of-res_bytes not_found h = refl
res_of-res_bytes found h = refl
res_of-res_bytes (found_collection n) h =
    ap (λ m. some (found_collection m)) (from_le-to_le_word n h)

pub responses-RoundTrips : RoundTrips responses IsResponse
responses-RoundTrips r h =
    rw
      (
        take_word r.id (res_bytes r.payload) h.0,
        drop_word r.id (res_bytes r.payload),
        res_of-res_bytes r.payload h.1,
      )
      refl

length-res_bytes : (p : Res) → length (res_bytes p) ≤ 9
length-res_bytes not_found = omega arith
length-res_bytes found = omega arith
length-res_bytes (found_collection n) = omega (arith, length-to_le 8 n)

-- A field: each byte behind a 1, and a 0 at the end.
abbrev field : List Byte → List Byte → List Byte
field [] rest = 0 ∷ rest
field (b ∷ bs) rest = 1 ∷ b ∷ field bs rest

abbrev onto_first : Byte → List (List Byte) → List (List Byte)
onto_first b [] = (b ∷ []) ∷ []
onto_first b (f ∷ fs) = (b ∷ f) ∷ fs

abbrev fields : List Byte → List (List Byte)
fields [] = []
fields (zero ∷ r) = [] ∷ fields r
fields (suc _ ∷ []) = []
fields (suc _ ∷ b ∷ r) = onto_first b (fields r)

fields-field : (f rest : List Byte) → fields (field f rest) ≡ f ∷ fields rest
fields-field [] rest = refl
fields-field (b ∷ f) rest = ap (onto_first b) (fields-field f rest)

length-field : (f rest : List Byte) → length (field f rest) ≡ 2 * length f + 1 + length rest
length-field [] rest = omega arith
length-field (b ∷ f) rest = omega (arith, length-field f rest)

abbrev links_bytes : List Blob → List Byte
links_bytes [] = []
links_bytes (b ∷ bs) = field b.name (field b.hash.bytes (links_bytes bs))

abbrev links_of : List (List Byte) → List Blob
links_of [] = []
links_of (n ∷ []) = []
links_of (n ∷ h ∷ r) = record { name = n; hash = record { bytes = h } } ∷ links_of r

links_of-links_bytes : (bs : List Blob) → links_of (fields (links_bytes bs)) ≡ bs
links_of-links_bytes [] = refl
links_of-links_bytes (b ∷ bs) =
    rw
      (
        fields-field b.name (field b.hash.bytes (links_bytes bs)),
        fields-field b.hash.bytes (links_bytes bs),
      )
      (ap (λ l. b ∷ l) (links_of-links_bytes bs))

length-links_bytes :
    (bs : List Blob)
    → All (λ b. IsHash b.hash) bs
    → links_size bs + 2 * length bs ≤ length (links_bytes bs)
length-links_bytes [] h = omega arith
length-links_bytes (b ∷ bs) (h, hs) = omega (
  arith,
  h,
  length-links_bytes bs hs,
  length-field b.name (field b.hash.bytes (links_bytes bs)),
  length-field b.hash.bytes (links_bytes bs),
)

abbrev collection_of : ℕ → List (List Byte) → Option Collection
collection_of total [] = none
collection_of total (name ∷ fs) =
    some (record { name = name; blobs = links_of fs; total_blobs_size = total })

abbrev pub collections : Codec Collection
collections = record {
  to_bytes = λ c. to_le 8 c.total_blobs_size ++ field c.name (links_bytes c.blobs);
  of_bytes = λ l. collection_of (from_le (take 8 l)) (fields (drop 8 l));
}

pub collections-RoundTrips : RoundTrips collections IsCollection
collections-RoundTrips c (h, t) =
    let rest = field c.name (links_bytes c.blobs) in
    rw (take_word c.total_blobs_size rest t, drop_word c.total_blobs_size rest)
      (rw (fields-field c.name (links_bytes c.blobs), links_of-links_bytes c.blobs) refl)

abbrev hash_of : ℕ → Hash
hash_of n = record { bytes = replicate 32 (n % 256) }

length-replicate : (n : ℕ) (b : Byte) → length (replicate n b) ≡ n
length-replicate zero b = refl
length-replicate (suc n) b = ap suc (length-replicate n b)

abbrev path_is_file : List Byte → Bool
path_is_file [] = false
path_is_file (_ ∷ _) = true

abbrev pub toy : Env
toy = record {
  handshake = handshakes;
  request = requests;
  response = responses;
  collection = collections;
  request_max_size = 40;
  handshake_max_size = 40;
  outboard = λ l. (to_le 8 (length l), hash_of (length l));
  extract = λ l outboard size. record { bytes = frame l; failed = false };
  read_file = λ path. some path;
  is_file = path_is_file;
  file_name = λ path. some path;
  file_len = λ path. some (length path);
}

pub toy-ResponsesFit : ResponsesFit toy
toy-ResponsesFit r h = omega (
  arith,
  length-append (to_le 8 r.id) (res_bytes r.payload),
  length-to_le 8 r.id,
  length-res_bytes r.payload,
)

pub toy-IsLawful : IsLawful toy
toy-IsLawful = record {
  handshakes = handshakes-RoundTrips;
  requests = requests-RoundTrips;
  responses = responses-RoundTrips;
  responses_fit = toy-ResponsesFit;
}

pub toy-Hashes : Hashes toy
toy-Hashes l = length-replicate 32 (length l % 256)

pub toy-WireSize : WireSize toy
toy-WireSize c (h, _) = omega (
  arith,
  length-append (to_le 8 c.total_blobs_size) (field c.name (links_bytes c.blobs)),
  length-to_le 8 c.total_blobs_size,
  length-field c.name (links_bytes c.blobs),
  length-links_bytes c.blobs h,
)
