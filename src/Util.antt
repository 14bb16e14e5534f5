-- ===== src/Util.antt =====
-- src/util.rs: the hash of 32 bytes and its text form. base64 and blake3 are parameters.
use sendme.Base.{
  ℕ, arith, ◌≡◌, Bool, Option, none, some, List, length, ◌==◌, bytes_eq, if◌then◌else◌,
}
use sendme.Base.Bytes.{Byte}

-- blake3::Hash is an array of 32 bytes.
pub record Hash : Type 0 where
  pub bytes : List Byte

abbrev pub IsHash : Hash → Type 0
IsHash h = length h.bytes ≡ 32

-- The derived `==`
unfoldable pub hash_eq : Hash → Hash → Bool
hash_eq a b = bytes_eq a.bytes b.bytes

-- The base64 engine URL_SAFE_NO_PAD; `none` is a `DecodeError`.
pub record Base64 : Type 0 where
  pub encode : List Byte → List Byte
  pub decode : List Byte → Option (List Byte)

-- Every text that the engine writes it reads back.
abbrev pub Decodes : Base64 → Type 0
Decodes b = (bytes : List Byte) → b.decode (b.encode bytes) ≡ some bytes

pub data HashParseError : Type 0 where
  invalid_base64 : HashParseError
  invalid_length : ℕ → HashParseError

pub data Parsed (E A : Type 0) : Type 0 where
  parsed : A → Parsed E A
  refused : E → Parsed E A

module _ (b : Base64) where
  unfoldable pub encode : List Byte → List Byte
  encode buf = b.encode buf

  unfoldable pub decode : List Byte → Option (List Byte)
  decode buf = b.decode buf

  -- `Display for Hash`
  unfoldable pub hash_to_string : Hash → List Byte
  unfolding encode
  hash_to_string h = encode h.bytes

  -- ensure!(val.len() == 32), then the copy
  abbrev pub hash_of_decoded : Option (List Byte) → Parsed HashParseError Hash
  hash_of_decoded none = refused invalid_base64
  hash_of_decoded (some val) =
      if length val == 32
      then parsed (record { bytes = val })
      else refused (invalid_length (length val))

  -- `FromStr for Hash`
  unfoldable pub hash_from_str : List Byte → Parsed HashParseError Hash
  unfolding decode
  hash_from_str s = hash_of_decoded (decode s)

  -- The text of a hash of 32 bytes is parsed as that hash, given that base64 reads back what it writes.
  pub hash_from_str-hash_to_string :
      (h : Hash) → Decodes b → IsHash h → hash_from_str (hash_to_string h) ≡ parsed h
  unfolding hash_from_str hash_to_string
  hash_from_str-hash_to_string h law long = ground (arith, law h.bytes)

-- `HashVisitor::visit_bytes`; `none` is the error of `try_into`
unfoldable pub visit_bytes : List Byte → Option Hash
visit_bytes v = if length v == 32 then some (record { bytes = v }) else none

-- A serde format, as far as bytes go: what `serialize_bytes` writes, and `deserialize_bytes`, which hands
-- the bytes that it reads to a visitor; `none` is an error.
pub record Format : Type 1 where
  pub serialize_bytes : List Byte → List Byte
  pub deserialize_bytes : {A : Type 0} → (List Byte → Option A) → List Byte → Option A

-- What is written is handed to the visitor.
abbrev HandsOn : Format → Type 1
HandsOn fmt =
    (A : Type 0) (visit : List Byte → Option A) (bytes : List Byte)
    → fmt.deserialize_bytes visit (fmt.serialize_bytes bytes) ≡ visit bytes

module _ (fmt : Format) where
  -- `Serialize for Hash`
  unfoldable pub serialize : Hash → List Byte
  serialize h = fmt.serialize_bytes h.bytes

  -- `Deserialize for Hash`
  unfoldable pub deserialize : List Byte → Option Hash
  unfolding visit_bytes
  deserialize input = fmt.deserialize_bytes visit_bytes input

  -- A hash of 32 bytes is read as it was written, and no other length is, in a format that hands on.
  pub deserialize-serialize :
      (h : Hash)
      → HandsOn fmt
      → deserialize (serialize h) ≡ (if length h.bytes == 32 then some h else none)
  unfolding deserialize serialize visit_bytes
  deserialize-serialize h law = law Hash visit_bytes h.bytes
