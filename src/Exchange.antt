-- ===== src/Exchange.antt =====
-- The client of src/get.rs against the provider of src/provider.rs, over one stream.
pub mod Refused
pub mod Created
pub mod Unread
use sendme.Base.{All, ℕ, ◌≡◌, ◌≤◌, ◌<◌, refl, ap, ◌∙◌, true, none, List, [], ◌∷◌, ◌++◌}
use sendme.Base.{append-nil, length, arith, leb}
use sendme.Base.Bytes.{total_length, Byte, u64_mod}
use sendme.Io.{ok}
use sendme.Stream.{Reader, Recv}
use sendme.Stream.View.{content, ending}
use sendme.Sink.{Writer, finish, IsWilling}
use sendme.Sink.Emits.{Emits, Emits->>=, finish-Emits}
use sendme.Util.{Hash, IsHash}
use sendme.Protocol.Codec.{AuthToken, IsToken, Handshake, Request, new_handshake, protocol_version}
use sendme.Protocol.Codec.{
  to_slice, max_message_size, RoundTrips, IsHandshake, IsRequest, IsResponse,
}
use sendme.Protocol.Frames.{write_lp}
use sendme.Protocol.Frames.Messages.{frame}
use sendme.Protocol.Frames.Writing.{write_lp-Emits}
use sendme.Blobs.{Collection}
use sendme.Env.{Env}
use sendme.Provider.Database.{Database}
use sendme.Provider.Session.{Session, handle_stream, request_received, transfer_completed}
use sendme.Provider.Session.Serve.{Asks, Has, handle_stream_serves}
use sendme.Provider.Transfer.Wire.{ResponsesFit, collection_wire}
use sendme.Get.{Decoding, Client, send_request, run, max_data_size, max_size}
use sendme.Get.{Callbacks, receive}
use sendme.Get.Opens.{Verifies, AllVerify, Before}
use sendme.Get.Keeps.{Keeps, put_all, receive_keeps}
use sendme.Get.Receive.{Item, collecting, items, collecting-Keeps, put_all-items}

-- What the crates' documentation says of the codecs: values are read back, and encodings stay within
-- the derived sizes and the buffer of the responses.
pub record IsLawful (env : Env) : Type 0 where
  pub handshakes : RoundTrips env.handshake IsHandshake
  pub requests : RoundTrips env.request IsRequest
  pub responses : RoundTrips env.response IsResponse
  pub responses_fit : ResponsesFit env

-- The request that `run` makes.
abbrev pub first_request : Hash → Request
first_request hash = record { id = 1; name = hash }

abbrev pub asking : Env → Hash → AuthToken → List Byte
asking env hash token =
    frame (env.handshake.to_bytes (record { version = protocol_version; token = token }))
    ++ frame (env.request.to_bytes (first_request hash))

-- The two encodings fit the client's buffer.
abbrev pub AskingFits : Env → Hash → AuthToken → Type 0
AskingFits env hash token =
    let room = max_size env.request_max_size env.handshake_max_size in
    (length (env.handshake.to_bytes (record { version = protocol_version; token = token })) ≤ room)
    × (length (env.request.to_bytes (first_request hash)) ≤ room)
    × (room < max_message_size)

-- A client whose transport does not fail sends the handshake and the request, and ends its side.
pub send_request-Emits :
    (env : Env) (hash : Hash) (token : AuthToken) (w : Writer)
    → AskingFits env hash token
    → IsWilling 0 w
    → Emits 0 (λ v. v) true (asking env hash token) tt w (send_request env hash token w)
unfolding send_request to_slice new_handshake
send_request-Emits env hash token w (h, r, m) willing =
    let room = max_size env.request_max_size env.handshake_max_size in
    let hs = env.handshake.to_bytes (record { version = protocol_version; token = token }) in
    let rq = env.request.to_bytes (first_request hash) in
    let h' : leb (length hs) room ≡ true = ground arith in
    let r' : leb (length rq) room ≡ true = ground arith in
    rw (h', r')
      (Emits->>= 0 (λ v. v) (write_lp hs) _ w (write_lp-Emits 0 hs w (omega arith) willing)
        λ t _ th. rw (← append-nil (frame rq)) (
          Emits->>= 0 (λ v. v) (write_lp rq) (λ _. finish) t
            (write_lp-Emits 0 rq t (omega arith) th) λ u _ uh. finish-Emits 0 u uh))

-- The stream between the two: what the client sent has arrived whole at the provider, what the
-- provider sent arrives whole at the client, and both directions end.
pub record Carries (env : Env) (db : Database) (token : AuthToken) (connection_id : ℕ)
    (sent : List Byte) (s : Session) (answer : Reader) : Type 0 where
  pub empty : s.recv.buffer ≡ []
  pub there : content s.recv.reader ≡ sent
  pub there_ended : ending s.recv.reader ≡ none
  pub fresh : s.send.writer.sent ≡ []
  pub back : content answer ≡ (handle_stream env db token connection_id s).1.send.writer.sent
  pub back_ended : ending answer ≡ none

module _ (env : Env) (n : ℕ) (law : IsLawful env) where
  -- What the provider does with what the client sent.
  pub provider_serves :
      (db : Database) (hash : Hash) (token : AuthToken) (connection_id : ℕ) (c : Collection)
      (encoded : List Byte) (slices : List (List Byte)) (s : Session)
      → IsHash hash
      → IsToken token
      → AskingFits env hash token
      → s.recv.buffer ≡ []
      → content s.recv.reader ≡ asking env hash token
      → ending s.recv.reader ≡ none
      → Has env db (first_request hash) c encoded slices
      → c.total_blobs_size < u64_mod
      → length encoded ≤ n
      → IsWilling n s.send.writer
      → let done = handle_stream env db token connection_id s in
        (done.0 ≡ ok tt)
        × (done.1.send.writer.sent ≡ s.send.writer.sent ++ collection_wire env 1 c encoded slices)
        × (done.1.send.writer.finished ≡ true)
        × (done.1.events
            ≡ s.events
              ++ request_received connection_id 1 hash ∷ transfer_completed connection_id 1 ∷ [])
  provider_serves db hash token connection_id c encoded slices s h t (fits_h, fits_r, m) b arrived
        ended has total fits willing =
      let shake : Handshake = record { version = protocol_version; token = token } in
      let asks : Asks env token (first_request hash) s.recv = record {
        empty = b;
        arrived = arrived;
        ended = ended;
        short_handshake = omega arith;
        short_request = omega arith;
        handshake_decodes = law.handshakes shake (omega arith, t);
        request_decodes = law.requests (first_request hash) (omega arith, h);
      } in
      handle_stream_serves env n law.responses_fit db token connection_id (first_request hash) c
        encoded slices s asks has (omega arith) total fits willing

  -- The run up to the answer, once the caller has been told of the connection.
  pub run_opens :
      {D U : Type 0} (dec : Decoding D) (callbacks : Callbacks D U) (db : Database) (hash : Hash)
      (token : AuthToken) (connection_id : ℕ) (c : Collection) (encoded : List Byte)
      (slices : List (List Byte)) (w : Writer) (s : Session) (answer : List Byte → Reader)
      (user u : U)
      → callbacks.on_connected user ≡ (ok tt, u)
      → IsHash hash
      → IsToken token
      → AskingFits env hash token
      → IsWilling 0 w
      → w.sent ≡ []
      → Has env db (first_request hash) c encoded slices
      → c.total_blobs_size ≤ max_data_size
      → length encoded ≤ n
      → IsWilling n s.send.writer
      → Carries env db token connection_id
          (asking env hash token)
          s
          (answer (asking env hash token))
      → (v : Recv) × Before (collection_wire env 1 c encoded slices) none v
        × (let p = receive env dec callbacks hash (record { recv = v; user = u }) in
            run env dec callbacks (ok w) answer hash token user ≡ (p.0, p.1.user))
  unfolding run
  run_opens dec callbacks db hash token connection_id c encoded slices w s answer user u connected h
        t asking_fits ww w0 has small whole willing carries =
      let e = send_request-Emits env hash token w asking_fits ww in
      let sent : (send_request env hash token w).1.sent ≡ asking env hash token =
        e.wrote ∙ ap (λ (x : List Byte). x ++ asking env hash token) w0 in
      let wire =
        (provider_serves db hash token connection_id c encoded slices s h t asking_fits
          carries.empty carries.there carries.there_ended has (omega arith) whole willing).1 in
      (
        record { reader = answer (asking env hash token); buffer = [] },
        record {
          empty = refl;
          left =
              carries.back
              ∙ wire
              ∙ ap (λ (x : List Byte). x ++ collection_wire env 1 c encoded slices) carries.fresh;
          end = carries.back_ended;
        },
        rw (connected, e.result, sent) refl,
      )

  -- The run with a caller that takes whole blobs.
  pub run_keeps :
      {D U : Type 0} (dec : Decoding D) (callbacks : Callbacks D U) (keeps : Keeps dec callbacks)
      (db : Database) (hash : Hash) (token : AuthToken) (connection_id : ℕ) (c : Collection)
      (encoded : List Byte) (slices contents : List (List Byte)) (w : Writer) (s : Session)
      (answer : List Byte → Reader) (user : U)
      → keeps.Ready user
      → IsHash hash
      → IsToken token
      → AskingFits env hash token
      → IsWilling 0 w
      → w.sent ≡ []
      → (has : Has env db (first_request hash) c encoded slices)
      → Verifies dec hash encoded has.bytes
      → keeps.Accepts c contents
      → AllVerify dec c.blobs slices contents
      → total_length contents ≤ c.total_blobs_size
      → c.total_blobs_size ≤ max_data_size
      → length encoded ≤ n
      → IsWilling n s.send.writer
      → Carries env db token connection_id
          (asking env hash token)
          s
          (answer (asking env hash token))
      → let p = run env dec callbacks (ok w) answer hash token user in
        (p.0 ≡ ok c.total_blobs_size)
        × (p.1 ≡ put_all keeps.put c.blobs contents (keeps.begin c (keeps.welcome user)))
        × keeps.Fine [] [] p.1
  run_keeps dec callbacks keeps db hash token connection_id c encoded slices contents w s answer
        user ready h t asking_fits ww w0 has v accepts vs fits small whole willing carries =
      let (connected, fine') = keeps.connects user ready in
      let (recv, before, opened) =
        run_opens dec callbacks db hash token connection_id c encoded slices w s answer user
          (keeps.welcome user) connected h t asking_fits ww w0 has small whole willing carries in
      let (done, got, fine'') =
        receive_keeps env dec callbacks keeps law.responses_fit law.responses 1 hash c encoded
          has.bytes slices contents (record { recv = recv; user = keeps.welcome user }) fine'
          (omega arith) v has.decodes accepts vs fits small before in
      (rw opened done, rw opened got, rw opened fine'')

  -- A client with the right token that asks a provider for a collection that it has, over transports
  -- that do not fail, with slices that abao's decoder verifies and sizes within the announced total,
  -- gets every blob of the collection, in order, with its name and whole content, and `run` returns
  -- the announced size, however the bytes are cut on both ways. (The codecs read back what they write,
  -- the encodings fit their buffers, the provider's transport takes the collection's slice at once,
  -- and the announced size is within the client's limit.)
  pub run_gets_collection :
      {D : Type 0} (dec : Decoding D) (db : Database) (hash : Hash) (token : AuthToken)
      (connection_id : ℕ) (c : Collection) (encoded : List Byte)
      (slices contents : List (List Byte)) (w : Writer) (s : Session) (answer : List Byte → Reader)
      (kept : List Item)
      → IsHash hash
      → IsToken token
      → AskingFits env hash token
      → IsWilling 0 w
      → w.sent ≡ []
      → (has : Has env db (first_request hash) c encoded slices)
      → Verifies dec hash encoded has.bytes
      → AllVerify dec c.blobs slices contents
      → total_length contents ≤ c.total_blobs_size
      → c.total_blobs_size ≤ max_data_size
      → length encoded ≤ n
      → IsWilling n s.send.writer
      → Carries env db token connection_id
          (asking env hash token)
          s
          (answer (asking env hash token))
      → let p = run env dec (collecting dec) (ok w) answer hash token kept in
        (p.0 ≡ ok c.total_blobs_size) × (p.1 ≡ kept ++ items c.blobs contents)
  run_gets_collection dec db hash token connection_id c encoded slices contents w s answer kept h t
        asking_fits ww w0 has v vs fits small whole willing carries =
      let (done, got, fine) =
        run_keeps dec (collecting dec) (collecting-Keeps dec) db hash token connection_id c encoded
          slices contents w s answer kept tt h t asking_fits ww w0 has v tt vs fits small whole
          willing carries in
      (done, got ∙ put_all-items dec c.blobs contents kept)
