-- ===== src/Tests/Setup.antt =====
-- A provider with one collection of one blob, and a client that asks for it.
use sendme.Base.{ℕ, ◌≡◌, refl, false, none, List, [], ◌∷◌}
use sendme.Base.{arith, replicate, append-nil}
use sendme.Base.Bytes.{Byte, to_le, from_le}
use sendme.Base.Tests.{bytes_eq}
use sendme.Stream.{Reader, eof, chunk, Recv}
use sendme.Stream.View.{content, ending}
use sendme.Sink.{Writer}
use sendme.Util.{Hash, hash_eq}
use sendme.Protocol.Codec.{AuthToken, Request}
use sendme.Protocol.Frames.Messages.{frame}
use sendme.Blobs.{Collection}
use sendme.Provider.Database.{Database, blob, collection, get}
use sendme.Provider.Transfer.{Send}
use sendme.Provider.Transfer.Wire.{collection_wire}
use sendme.Provider.Session.{Session, handle_stream}
use sendme.Provider.Session.Serve.{Asks, Has}
use sendme.Env.{Env}
use sendme.Exchange.{first_request, asking, Carries}
use sendme.Tests.Toy.{toy, collections}

-- A stream with the bytes in one chunk, and then its end.
abbrev pub arriving : List Byte → Reader
arriving [] = eof
arriving (b ∷ bs) = chunk b bs eof

pub content-arriving : (bytes : List Byte) → content (arriving bytes) ≡ bytes
content-arriving [] = refl
content-arriving (b ∷ bs) = append-nil (b ∷ bs)

pub ending-arriving : (bytes : List Byte) → ending (arriving bytes) ≡ none
ending-arriving [] = refl
ending-arriving (b ∷ bs) = refl

abbrev pub at_start : List Byte → Recv
at_start bytes = record { reader = arriving bytes; buffer = [] }

abbrev pub writer : Writer
writer = record { sent = []; finished = false; answers = [] }

abbrev pub send : Send
send = record { writer = writer; out_buffer = 1024 }

abbrev pub session : List Byte → Session
session bytes = record { recv = at_start bytes; send = send; events = [] }

-- A stream that brings all that is sent, both ways.
pub session-Carries :
    (env : Env) (d : Database) (t : AuthToken) (connection_id : ℕ) (sent : List Byte)
    → let bytes = (handle_stream env d t connection_id (session sent)).1.send.writer.sent in
      Carries env d t connection_id sent (session sent) (arriving bytes)
session-Carries env d t connection_id sent =
    let bytes = (handle_stream env d t connection_id (session sent)).1.send.writer.sent in
    record {
      empty = refl;
      there = content-arriving sent;
      there_ended = ending-arriving sent;
      fresh = refl;
      back = content-arriving bytes;
      back_ended = ending-arriving bytes;
    }

abbrev pub token : AuthToken
token = record { bytes = replicate 32 5 }

abbrev pub photo : Hash
photo = record { bytes = replicate 32 7 }

abbrev pub photos : Hash
photos = record { bytes = replicate 32 9 }

abbrev pub album : Collection
album = record {
  name = 97 ∷ [];
  blobs = record { name = 112 ∷ []; hash = photo } ∷ [];
  total_blobs_size = 3;
}

abbrev pub album_bytes : List Byte
album_bytes = collections.to_bytes album

abbrev pub contents : List (List Byte)
contents = (1 ∷ 2 ∷ 3 ∷ []) ∷ []

abbrev pub slices : List (List Byte)
slices = frame (1 ∷ 2 ∷ 3 ∷ []) ∷ []

abbrev pub db : Database
db =
    (photo, blob (record { outboard = to_le 8 3; path = 1 ∷ 2 ∷ 3 ∷ []; size = 3 }))
    ∷ (photos, collection [] album_bytes)
    ∷ []

abbrev pub request : Request
request = first_request photos

abbrev pub asked : List Byte
asked = asking toy photos token

abbrev pub album_wire : List Byte
album_wire = collection_wire toy 1 album (frame album_bytes) slices

pub Asks-asked : Asks toy token request (at_start asked)
unfolding to_le from_le
Asks-asked = record {
  empty = refl;
  arrived = content-arriving asked;
  ended = refl;
  short_handshake = omega arith;
  short_request = omega arith;
  handshake_decodes = refl;
  request_decodes = refl;
}

unfoldable pub has_db : Has toy db request album (frame album_bytes) slices
unfolding get hash_eq bytes_eq to_le from_le
has_db = record {
  outboard = [];
  bytes = album_bytes;
  entry = refl;
  slice = refl;
  decodes = refl;
  serves = (refl, tt);
}

-- The provider as the other side of the client's stream.
abbrev pub answer : List Byte → Reader
answer bytes = arriving (handle_stream toy db token 0 (session bytes)).1.send.writer.sent
