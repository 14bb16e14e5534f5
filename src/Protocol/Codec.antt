-- ===== src/Protocol/Codec.antt =====
-- The messages of src/protocol.rs, and postcard as a parameter.
use sendme.Base.{ℕ, ◌≡◌, ◌<◌, ◌*◌, Bool, Option, some, List, length, leb, bytes_eq}
use sendme.Base.{if◌then◌else◌}
use sendme.Base.Bytes.{Byte, u64_mod}
use sendme.Io.{Outcome, ok, err, serialize_error, deserialize_error, or_err}
use sendme.Util.{Hash, IsHash}

-- MAX_MESSAGE_SIZE
abbrev pub max_message_size : ℕ
max_message_size = 1024 * 1024 * 100

-- VERSION
abbrev pub protocol_version : ℕ
protocol_version = 1

-- An array of 32 bytes.
pub record AuthToken : Type 0 where
  pub bytes : List Byte

abbrev pub IsToken : AuthToken → Type 0
IsToken t = length t.bytes ≡ 32

-- The derived `==`
unfoldable pub token_eq : AuthToken → AuthToken → Bool
token_eq a b = bytes_eq a.bytes b.bytes

pub record Handshake : Type 0 where
  pub version : ℕ
  pub token : AuthToken

-- `Handshake::new`
unfoldable pub new_handshake : AuthToken → Handshake
new_handshake token = record { version = protocol_version; token = token }

pub record Request : Type 0 where
  pub id : ℕ
  pub name : Hash

pub data Res : Type 0 where
  not_found found : Res
  found_collection : ℕ → Res

pub record Response : Type 0 where
  pub id : ℕ
  pub payload : Res

-- postcard's encoding of one type: `from_bytes` reads a value from the front of a slice.
pub record Codec (T : Type 0) : Type 0 where
  pub to_bytes : T → List Byte
  pub of_bytes : List Byte → Option T

module _ {T : Type 0} (c : Codec T) where
  -- `postcard::from_bytes(slice)?`
  unfoldable pub from_bytes : List Byte → Outcome T
  from_bytes slice = or_err (c.of_bytes slice) deserialize_error

  -- `postcard::to_slice(&value, buffer)?` with a buffer of `room` bytes: the used part of it
  unfoldable pub to_slice : T → ℕ → Outcome (List Byte)
  to_slice value room =
      if leb (length (c.to_bytes value)) room then ok (c.to_bytes value) else err serialize_error

  -- The encoding of every value that the program makes is read back as that value.
  abbrev pub RoundTrips : (T → Type 0) → Type 0
  RoundTrips P = (value : T) → P value → c.of_bytes (c.to_bytes value) ≡ some value

-- The ranges of the fields.
abbrev pub IsHandshake : Handshake → Type 0
IsHandshake h = (h.version < u64_mod) × IsToken h.token

abbrev pub IsRequest : Request → Type 0
IsRequest r = (r.id < u64_mod) × IsHash r.name

abbrev pub IsRes : Res → Type 0
IsRes not_found = Unit
IsRes found = Unit
IsRes (found_collection n) = n < u64_mod

abbrev pub IsResponse : Response → Type 0
IsResponse r = (r.id < u64_mod) × IsRes r.payload
