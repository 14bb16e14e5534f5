-- ===== src/Ticket.antt =====
-- `Ticket` of src/provider.rs: all that a client needs to get a collection, as one text. The type of a
-- socket address is a parameter, as are postcard's codec for tickets and base64.
use sendme.Base.{◌≡◌, Option, none, some, List}
use sendme.Base.Bytes.{Byte}
use sendme.Util.{Hash, IsHash, Base64, Parsed, parsed, refused, encode, decode}
use sendme.Protocol.Codec.{AuthToken, IsToken, Codec}
use sendme.Tls.PeerId.{PeerId}
use sendme.Base.{length}

pub record Ticket (Address : Type 0) : Type 0 where
  pub hash : Hash
  pub peer : PeerId
  pub addr : Address
  pub token : AuthToken

pub data TicketError : Type 0 where
  invalid_base64 postcard_error : TicketError

-- The ranges of the fields.
abbrev pub IsTicket : {Address : Type 0} → Ticket Address → Type 0
IsTicket t = IsHash t.hash × (length t.peer.key.bytes ≡ 32) × IsToken t.token

module _ {Address : Type 0} (b : Base64) (c : Codec (Ticket Address)) where
  abbrev ticket_of : Option (Ticket Address) → Parsed TicketError (Ticket Address)
  ticket_of none = refused postcard_error
  ticket_of (some t) = parsed t

  -- `Ticket::from_bytes`
  unfoldable pub ticket_from_bytes : List Byte → Parsed TicketError (Ticket Address)
  ticket_from_bytes bytes = ticket_of (c.of_bytes bytes)

  -- `Ticket::to_bytes`
  unfoldable pub ticket_to_bytes : Ticket Address → List Byte
  ticket_to_bytes t = c.to_bytes t

  -- `Display for Ticket`
  unfoldable pub ticket_to_string : Ticket Address → List Byte
  unfolding encode ticket_to_bytes
  ticket_to_string t = encode b (ticket_to_bytes t)

  abbrev ticket_of_decoded : Option (List Byte) → Parsed TicketError (Ticket Address)
  ticket_of_decoded none = refused invalid_base64
  ticket_of_decoded (some bytes) = ticket_from_bytes bytes

  -- `FromStr for Ticket`
  unfoldable pub ticket_from_str : List Byte → Parsed TicketError (Ticket Address)
  unfolding decode ticket_from_bytes
  ticket_from_str s = ticket_of_decoded (decode b s)
