-- ===== src/Tests/Parts.antt =====
-- The theorems on creation, progress and the text forms at concrete inputs.
use sendme.Base.{ℕ, zero, suc, ◌≡◌, ◌≢◌, refl, some, List, [], ◌∷◌, arith, length, replicate}
use sendme.Base.{◌↔◌, ◌%◌}
use sendme.Base.Bytes.{Byte, to_le}
use sendme.Blobs.{Collection}
use sendme.Io.{ok}
use sendme.Util.{Hash, Base64, parsed}
use sendme.Protocol.Codec.{AuthToken, IsToken}
use sendme.Protocol.Closed.{try_from, to_varint, closed, provider_terminating, try_from_iff}
use sendme.Protocol.Token.{token_from_str}
use sendme.Protocol.Token.{token_from_str_iff}
use sendme.Provider.Database.{Database, blob, collection}
use sendme.Provider.Create.{collection_name, DataSource, file, named_file}
use sendme.Provider.Create.{create_collection}
use sendme.Provider.Create.Limit.{create_collection_too_many}
use sendme.Provider.Create.Describes.{Describes}
use sendme.Progress.{new, inc_all}
use sendme.Progress.Climb.{Climbs, share, inc_all_events}
use sendme.Tests.Toy.{toy, toy-Hashes, toy-WireSize, collections}

abbrev sources : List DataSource
sources = file (1 ∷ 2 ∷ 3 ∷ []) ∷ named_file (4 ∷ []) (112 ∷ []) ∷ []

length-sources_many : (n : ℕ) (d : DataSource) → length (replicate n d) ≡ n
length-sources_many zero d = refl
length-sources_many (suc n) d = omega (arith, length-sources_many n d)

create_collection_too_many_example :
    create_collection toy (replicate 511 (file (1 ∷ []))) ≢ ok ([], record { bytes = [] })
create_collection_too_many_example =
    create_collection_too_many toy (replicate 511 (file (1 ∷ []))) ([], record { bytes = [] })
      toy-WireSize toy-Hashes (omega (arith, length-sources_many 511 (file (1 ∷ []))))

abbrev hash : ℕ → Hash
hash n = record { bytes = replicate 32 n }

abbrev album : Collection
album = record {
  name = collection_name;
  blobs =
      record { name = 1 ∷ 2 ∷ 3 ∷ []; hash = hash 3 }
      ∷ record { name = 112 ∷ []; hash = hash 1 }
      ∷ [];
  total_blobs_size = 4;
}

abbrev album_bytes : List Byte
album_bytes = collections.to_bytes album

abbrev db : Database
db =
    (hash 3, blob (record { outboard = to_le 8 3; path = 1 ∷ 2 ∷ 3 ∷ []; size = 3 }))
    ∷ (hash 1, blob (record { outboard = to_le 8 1; path = 4 ∷ []; size = 1 }))
    ∷ (hash (length album_bytes % 256), collection (to_le 8 (length album_bytes)) album_bytes)
    ∷ []

-- The identity in base64's place.
abbrev pub plain : Base64
plain = record { encode = λ l. l; decode = λ l. some l }

abbrev token : AuthToken
token = record { bytes = replicate 32 5 }

token_from_str_iff_example :
    (token_from_str plain (replicate 32 5) ≡ parsed token)
    ↔ ((some (replicate {A = Byte} 32 5) ≡ some (replicate 32 5)) × IsToken token)
token_from_str_iff_example = token_from_str_iff plain (replicate 32 5) token

try_from_iff_example :
    (try_from 1 ≡ closed provider_terminating) ↔ (to_varint provider_terminating ≡ 1)
try_from_iff_example = try_from_iff 1 provider_terminating

inc_all_events_example :
    let p = inc_all (100 ∷ 0 ∷ 50 ∷ []) (new 200 100) in
    (p.0 ≡ ok tt) × Climbs 0 p.1.events (share 150 200 100)
inc_all_events_example =
    inc_all_events 200 100 (100 ∷ 0 ∷ 50 ∷ []) (omega arith, omega arith, omega arith) (omega arith)
