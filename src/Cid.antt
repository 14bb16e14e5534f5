-- ===== src/Cid.antt =====
-- `Blake3Cid` of src/main.rs: a hash as a content identifier, and its text. The base32 engine and the
-- multibase crate are parameters.
use sendme.Base.{ℕ, ◌+◌, ◌-◌, ◌≡◌, ◌≤◌, ◌↔◌, ◌⊎◌, inl, inr, refl, ap, sym, Bool, true, false, ◌&&◌}
use sendme.Base.{
  Option, none, some, List, [], ◌∷◌, ◌++◌, map, arith, length, take, drop, ◌==◌, leb, bytes_eq,
}
use sendme.Base.{if◌then◌else◌, All, bytes_eq_sound, length-map}
use sendme.Base.{take-append-drop, Bool-cases}
use sendme.Base.Bytes.{Byte, IsByte}
use sendme.Base.Tests.{bytes_eq}
use sendme.Util.{Hash, IsHash, Parsed, parsed, refused}

pub record Blake3Cid : Type 0 where
  pub hash : Hash

-- CID_PREFIX
abbrev pub cid_prefix : List Byte
cid_prefix = 1 ∷ 85 ∷ 30 ∷ 32 ∷ []

pub data CidError : Type 0 where
  invalid_cid_length : ℕ → CidError
  invalid_cid_prefix invalid_base32 multibase_error : CidError

-- `Blake3Cid::as_bytes`
unfoldable pub as_bytes : Blake3Cid → List Byte
as_bytes cid = cid_prefix ++ cid.hash.bytes

-- `Blake3Cid::from_bytes`
unfoldable pub cid_from_bytes : List Byte → Parsed CidError Blake3Cid
cid_from_bytes bytes =
    if length bytes == 36
    then if bytes_eq (take 4 bytes) cid_prefix
      then parsed (record { hash = record { bytes = drop 4 bytes } })
      else refused invalid_cid_prefix
    else refused (invalid_cid_length (length bytes))

-- `make_ascii_lowercase` and `make_ascii_uppercase`, by bytes
abbrev pub lower : Byte → Byte
lower b = if leb 65 b && leb b 90 then b + 32 else b

abbrev pub upper : Byte → Byte
upper b = if leb 97 b && leb b 122 then b - 32 else b

abbrev starts_with_b : List Byte → Bool
starts_with_b [] = false
starts_with_b (b ∷ _) = b == 98

-- BASE32_NOPAD of data_encoding, and `multibase::decode`; `none` is an error.
pub record Engines : Type 0 where
  pub encode_base32 : List Byte → List Byte
  pub decode_base32 : List Byte → Option (List Byte)
  pub decode_multibase : List Byte → Option (List Byte)

-- A character of the alphabet, from A to Z or from 2 to 7.
abbrev pub IsBase32Digit : Byte → Type 0
IsBase32Digit b = ((65 ≤ b) × (b ≤ 90)) ⊎ ((50 ≤ b) × (b ≤ 55))

-- What the documentation says of BASE32_NOPAD, for 36 bytes: five bits for each character of the
-- alphabet, and decoding takes an encoding back.
pub record IsBase32 (e : Engines) : Type 0 where
  pub decodes :
      (l : List Byte) → length l ≡ 36 → All IsByte l → e.decode_base32 (e.encode_base32 l) ≡ some l
  pub length_of_36 : (l : List Byte) → length l ≡ 36 → length (e.encode_base32 l) ≡ 58
  pub alphabet : (l : List Byte) → All IsBase32Digit (e.encode_base32 l)

abbrev cid_of_decoded : CidError → Option (List Byte) → Parsed CidError Blake3Cid
cid_of_decoded failure none = refused failure
cid_of_decoded failure (some bytes) = cid_from_bytes bytes

length-as_bytes : (cid : Blake3Cid) → IsHash cid.hash → length (as_bytes cid) ≡ 36
unfolding as_bytes
length-as_bytes cid h = omega (arith, h)

as_bytes-AllByte : (cid : Blake3Cid) → All IsByte cid.hash.bytes → All IsByte (as_bytes cid)
unfolding as_bytes
as_bytes-AllByte cid h = (omega arith, (omega arith, (omega arith, (omega arith, h))))

-- Accepted bytes are those of a content identifier, and no others.
pub cid_from_bytes_iff :
    (bytes : List Byte) (cid : Blake3Cid)
    → (cid_from_bytes bytes ≡ parsed cid) ↔ ((as_bytes cid ≡ bytes) × IsHash cid.hash)
unfolding cid_from_bytes as_bytes bytes_eq
cid_from_bytes_iff bytes cid = (to, from)
  where
    to : cid_from_bytes bytes ≡ parsed cid → (as_bytes cid ≡ bytes) × IsHash cid.hash
    to h = elim (Bool-cases (length bytes == 36)) [
      | inl long ↦ elim (Bool-cases (bytes_eq (take 4 bytes) cid_prefix)) [
        | inl begins ↦
            let rest : drop 4 bytes ≡ cid.hash.bytes = ground arith in
            let front : cid_prefix ≡ take 4 bytes =
              sym (bytes_eq_sound (take 4 bytes) cid_prefix begins) in
            let whole : cid_prefix ++ cid.hash.bytes ≡ bytes =
              cc (front, rest, take-append-drop 4 bytes) in
            (whole, ground (arith, ap (λ (l : List Byte). length l) whole))
        | inr other ↦ absurd (cc (rw (long, other) at h))
      ]
      | inr other ↦ absurd (cc (rw other at h))
    ]

    from : (as_bytes cid ≡ bytes) × IsHash cid.hash → cid_from_bytes bytes ≡ parsed cid
    from (e, h) =
        let long : (length (cid_prefix ++ cid.hash.bytes) == 36) ≡ true = ground arith in
        rw (← e) (rw long refl)

module _ (e : Engines) where
  -- `Display for Blake3Cid`
  unfoldable pub cid_to_string : Blake3Cid → List Byte
  unfolding as_bytes
  cid_to_string cid = 98 ∷ map lower (e.encode_base32 (as_bytes cid))

  -- `FromStr for Blake3Cid`
  unfoldable pub cid_from_str : List Byte → Parsed CidError Blake3Cid
  unfolding cid_from_bytes
  cid_from_str s =
      if (length s == 59) && starts_with_b s
      then cid_of_decoded invalid_base32 (e.decode_base32 (map upper (drop 1 s)))
      else cid_of_decoded multibase_error (e.decode_multibase s)

  upper-lower : (l : List Byte) → All IsBase32Digit l → map upper (map lower l) ≡ l
  upper-lower [] h = refl
  upper-lower (b ∷ l) (h, hs) =
      let same : upper (lower b) ≡ b = ground arith in cc (same, upper-lower l hs)

  -- The text of a content identifier of 32 bytes is parsed as that identifier, given what
  -- BASE32_NOPAD's documentation says.
  pub cid_from_str-cid_to_string :
      (cid : Blake3Cid)
      → IsBase32 e
      → IsHash cid.hash
      → All IsByte cid.hash.bytes
      → cid_from_str (cid_to_string cid) ≡ parsed cid
  unfolding cid_from_str cid_to_string
  cid_from_str-cid_to_string cid law h small =
      let text = e.encode_base32 (as_bytes cid) in
      let bytes : length (as_bytes cid) ≡ 36 = length-as_bytes cid h in
      let long : (length (98 ∷ map lower text) == 59) ≡ true =
        ground (arith, law.length_of_36 (as_bytes cid) bytes, length-map text lower) in
      let back : cid_from_bytes (as_bytes cid) ≡ parsed cid =
        (cid_from_bytes_iff (as_bytes cid) cid).1 (refl, h) in
      rw
        (
          long,
          upper-lower text (law.alphabet (as_bytes cid)),
          law.decodes (as_bytes cid) bytes (as_bytes-AllByte cid small),
        )
        back
