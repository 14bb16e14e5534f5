-- ===== src/Cli/Ticketed.antt =====
-- The command line from end to end: the files that a provider is created with, its ticket, and
-- `sendme get-ticket` with a directory.
use sendme.Base.{Option, Bool, ℕ, ◌≡◌, ◌≢◌, ◌≤◌, ◌<◌, refl, some, List, [], All, arith, length, map}
use sendme.Base.Bytes.{total_length, Byte, u64_mod}
use sendme.Io.{ok}
use sendme.Sink.{Writer, IsWilling}
use sendme.Util.{Hash, Base64}
use sendme.Protocol.Codec.{IsToken, RoundTrips}
use sendme.Env.{Env}
use sendme.Tls.{Crypto}
use sendme.Tls.Keypair.{Keypair, KeyCrates}
use sendme.Tls.Config.{Rcgen, Rustls, TlsConfig, make_server_config}
use sendme.Provider.Create.{DataSource, create_collection}
use sendme.Provider.Create.Ranges.{IsCollection, Hashes}
use sendme.Provider.Create.Files.{In, Reads, source_blobs, source_collection}
use sendme.Provider.Session.{Session}
use sendme.Provider.Service.{
  Builder, Provider, Listen, server_config, started, spawn, ticket, provider_peer_id,
}
use sendme.Provider.Transfer.Wire.{whole_slice}
use sendme.Get.{Decoding, max_data_size}
use sendme.Get.Setup.{Options, Quinn, setup}
use sendme.Exchange.{IsLawful, asking, AskingFits, Carries}
use sendme.Exchange.Created.{Abao, Injective, create_collection-Offers}
use sendme.Cli.{Files, Message, Outputs}
use sendme.Cli.Output.{Copying, get_interactive}
use sendme.Cli.Saved.{Works}
use sendme.Cli.Saving.{Copies, Distinct, path_of, AllSaved}
use sendme.Cli.Delivered.{get_interactive_saves}
use sendme.Cli.Dispatch
use sendme.Cli.Dispatch.{get_ticket, dispatch}

-- The options of `get-ticket`.
abbrev pub ticket_options :
    {Address : Type 0} → Provider Address → Hash → (keylog : Bool) → Options Address
ticket_options p h keylog = record {
  addr = (ticket p h).addr;
  peer_id = some (ticket p h).peer;
  keylog = keylog;
}

module _ {K D F Address C : Type 0} (crypto : Crypto) (k : KeyCrates) (rcgen : Rcgen K)
    (rustls : Rustls) (listen : Listen Address) (quinn : Quinn Address C) (env : Env) (n : ℕ)
    (law : IsLawful env) (dec : Decoding D) (abao : Abao env dec)
    (roundtrips : RoundTrips env.collection IsCollection) (hashes : Hashes env)
    (copying : Copying D) (b : Base64) (files : Files F) (render : Message Address → List Byte)
    {Fine : F → Type 0} {IsTarget : List Byte → Type 0} (works : Works files Fine IsTarget)
    (copies : Copies dec copying) where
  -- What a provider was created with is what `sendme get-ticket` saves: when the collection of some
  -- files was created, a provider is spawned with it, and getting with its ticket and a directory
  -- calls `get_interactive` with the ticket's hash, peer, address and token, which succeeds and leaves
  -- in the directory, for every file, one with its whole content under its name, or its hash's text
  -- where the name is empty, however the bytes are cut on the way. (The files still have their
  -- contents, of together at most `MAX_DATA_SIZE` bytes; their hashes tell them apart, and from the
  -- collection; the provider can be configured and listens, `setup` connects and a stream can be
  -- opened; no two of the paths are the same, and files can be moved to each; abao, the codecs and the
  -- file system do as documented and STDERR takes what is written; of the two sides and the stream
  -- between them the same is asked as for the run of the client.)
  pub get_ticket_saves_sources :
      (ds : List DataSource) (ys : List (List Byte)) (h : Hash) (builder : Builder Address)
      (own own' : Option K) (tls : TlsConfig) (addr default_addr : Address) (client : Keypair)
      (keylog : Bool) (conn : C) (dir : List Byte) (connection_id : ℕ) (w : Writer) (s : Session)
      (outputs : Outputs F)
      → create_collection env ds ≡ ok (builder.db, h)
      → Reads env ds ys
      → total_length ys ≤ max_data_size
      → length (env.collection.to_bytes (source_collection env ds ys)) < u64_mod
      → Injective env ys
      → ((y : List Byte) → In y ys → h ≢ (env.outboard y).1)
      → make_server_config crypto k rcgen rustls own builder.keypair builder.keylog ≡ ok tls
      → listen (server_config tls) builder.bind_addr ≡ some addr
      → let p = started builder tls addr in
        setup crypto k rcgen rustls quinn client own' (ticket_options p h keylog) ≡ ok conn
        → quinn.open_bi conn ≡ some w
        → Fine outputs.files
        → IsWilling 0 outputs.stderr
        → IsToken builder.auth_token
        → AskingFits env h builder.auth_token
        → IsWilling 0 w
        → w.sent ≡ []
        → All (λ blob. IsTarget (path_of b files dir blob)) (source_blobs env ds ys)
        → Distinct (map (path_of b files dir) (source_blobs env ds ys))
        → ((encoded : List Byte)
            → let bytes = env.collection.to_bytes (source_collection env ds ys) in
              whole_slice (env.extract bytes (env.outboard bytes).0 (length bytes)) ≡ some encoded
              → length encoded ≤ n)
        → IsWilling n s.send.writer
        → Carries env p.task.db p.task.auth_token connection_id
            (asking env h builder.auth_token)
            s
            (quinn.answer conn (asking env h builder.auth_token))
        → (spawn crypto k rcgen rustls listen own builder ≡ ok p)
          × (dispatch b default_addr (get_ticket (some dir) (ticket p h) keylog)
              ≡ ok (
                  Dispatch.get_interactive
                    (ticket p h).hash
                    (ticket_options p h keylog)
                    (ticket p h).token
                    (some dir)))
          × (let r =
                get_interactive crypto k rcgen rustls quinn env dec copying b files render client
                  own'
                  (ticket p h).hash
                  (ticket_options p h keylog)
                  (ticket p h).token
                  (some dir)
                  outputs in
              (r.0 ≡ ok tt) × AllSaved b files dir r.1.files (source_blobs env ds ys) ys)
  unfolding spawn ticket provider_peer_id dispatch
  get_ticket_saves_sources ds ys h builder own own' tls addr default_addr client keylog conn dir
        connection_id w s outputs created r limit small apart other configured listens connected
        opened fine err_willing t asking_fits ww w0 targets distinct at_once willing carries =
      let p = started builder tls addr in
      let o =
        create_collection-Offers env dec abao roundtrips hashes ds ys created r (omega arith) small
          apart other in
      (
        rw (configured, listens) refl,
        refl,
        get_interactive_saves crypto k rcgen rustls quinn env n law dec copying b files render works
            copies client own' (ticket_options p h keylog) conn dir builder.db h builder.auth_token
            connection_id (source_collection env ds ys) o.encoded o.slices ys w s outputs connected
            opened fine err_willing o.hashed t asking_fits ww w0 o.has o.whole targets distinct
            o.verified (omega arith) limit (at_once o.encoded o.extracted) willing carries,
      )
