-- ===== src/Tls/PeerId.antt =====
-- `PeerId` of src/tls.rs and its text form.
use sendme.Base.{◌≡◌, refl, Option, none, some, List}
use sendme.Base.Bytes.{Byte}
use sendme.Util.{Base64, Decodes, Parsed, parsed, refused, encode, decode}
use sendme.Tls.{PublicKey, Crypto}

pub record PeerId : Type 0 where
  pub key : PublicKey

pub data PeerIdError : Type 0 where
  base64 : PeerIdError
  key_error : PeerIdError

module _ (b : Base64) (c : Crypto) where
  -- `Display for PeerId`
  unfoldable pub peer_id_to_string : PeerId → List Byte
  unfolding encode
  peer_id_to_string p = encode b p.key.bytes

  -- By what the text and then the key came to.
  abbrev pub peer_id_of_key : Option PublicKey → Parsed PeerIdError PeerId
  peer_id_of_key none = refused key_error
  peer_id_of_key (some key) = parsed (record { key = key })

  abbrev pub peer_id_of_decoded : Option (List Byte) → Parsed PeerIdError PeerId
  peer_id_of_decoded none = refused base64
  peer_id_of_decoded (some bytes) = peer_id_of_key (c.public_key_from_bytes bytes)

  -- `FromStr for PeerId`
  unfoldable pub peer_id_from_str : List Byte → Parsed PeerIdError PeerId
  unfolding decode
  peer_id_from_str s = peer_id_of_decoded (decode b s)

  -- The text of a peer id whose key ed25519 accepts is parsed as that peer id, given that base64 reads
  -- back what it writes.
  pub peer_id_from_str-peer_id_to_string :
      (p : PeerId)
      → Decodes b
      → c.public_key_from_bytes p.key.bytes ≡ some p.key
      → peer_id_from_str (peer_id_to_string p) ≡ parsed p
  unfolding peer_id_from_str peer_id_to_string
  peer_id_from_str-peer_id_to_string p law key = rw (law p.key.bytes, key) refl
