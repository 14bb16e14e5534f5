-- ===== src/Protocol/Token.antt =====
-- The text form of `AuthToken` in src/protocol.rs.
use sendme.Base.{ℕ, ◌≡◌, ◌↔◌, Option, none, some, List, arith}
use sendme.Base.{length, ◌==◌, if◌then◌else◌, Option-cases, inl, inr}
use sendme.Base.Bytes.{Byte}
use sendme.Util.{Base64, Decodes, Parsed, parsed, refused, encode, decode}
use sendme.Protocol.Codec.{AuthToken, IsToken}

pub data AuthTokenParseError : Type 0 where
  base64_error : AuthTokenParseError
  length_error : ℕ → AuthTokenParseError

-- `AuthToken::generate`, with the array that rand gives
unfoldable pub generate_token : List Byte → AuthToken
generate_token random = record { bytes = random }

-- `decoded.try_into()` into `[u8; 32]`
abbrev pub token_of_decoded : Option (List Byte) → Parsed AuthTokenParseError AuthToken
token_of_decoded none = refused base64_error
token_of_decoded (some v) =
    if length v == 32 then parsed (record { bytes = v }) else refused (length_error (length v))

module _ (b : Base64) where
  -- `Display for AuthToken`
  unfoldable pub token_to_string : AuthToken → List Byte
  unfolding encode
  token_to_string t = encode b t.bytes

  -- `FromStr for AuthToken`
  unfoldable pub token_from_str : List Byte → Parsed AuthTokenParseError AuthToken
  unfolding decode
  token_from_str s = token_of_decoded (decode b s)

  -- The text of a token of 32 bytes is parsed as that token, given that base64 reads back what it writes.
  pub token_from_str-token_to_string :
      (t : AuthToken) → Decodes b → IsToken t → token_from_str (token_to_string t) ≡ parsed t
  unfolding token_from_str token_to_string
  token_from_str-token_to_string t law h = ground (arith, law t.bytes)

  -- A text is accepted as a token exactly when it decodes to 32 bytes, which are then the token's; so what is
  -- accepted is a token.
  pub token_from_str_iff :
      (s : List Byte) (t : AuthToken)
      → (token_from_str s ≡ parsed t) ↔ ((b.decode s ≡ some t.bytes) × IsToken t)
  unfolding token_from_str
  token_from_str_iff s t = elim (Option-cases (b.decode s)) [
    | inl bad ↦ ground arith
    | inr (v, good) ↦ ground arith
  ]
