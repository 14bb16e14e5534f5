-- ===== src/Integration/Passes.antt =====
-- The test `transfer_data` of src/lib.rs passes, whatever the files.
use sendme.Base.{◌+◌, ℕ, ◌≡◌, ◌<◌, refl, ap, ◌∙◌, true, List, [], ◌∷◌, ◌++◌, length, arith}
use sendme.Base.Bytes.{Byte, u64_mod, total_length}
use sendme.Io.{ok}
use sendme.Util.{Hash}
use sendme.Protocol.Codec.{RoundTrips}
use sendme.Protocol.Token.{generate_token}
use sendme.Env.{Env}
use sendme.Tls.{Crypto}
use sendme.Tls.Keypair.{KeyCrates}
use sendme.Tls.Config.{Rcgen, Rustls, TlsConfig}
use sendme.Cli.{Files}
use sendme.Provider.Database.{Database}
use sendme.Provider.Create.{create_collection}
use sendme.Provider.Create.Ranges.{IsCollection, Hashes}
use sendme.Provider.Create.Succeeds.{Reads-AreFiles, create_collection_succeeds}
use sendme.Provider.Session.{handle_stream, request_received, transfer_completed}
use sendme.Provider.Service.{
  Provider, Listen, started, spawn, shutdown, with_db, bind_addr, provider_peer_id,
}
use sendme.Provider.Service.Streams.{spawn_stream}
use sendme.Get.{Decoding, Callbacks}
use sendme.Get.Keeps.{Keeps, put_all}
use sendme.Get.Setup.{Options, Quinn, run_with, run_with_connected}
use sendme.Exchange.{IsLawful, run_keeps, provider_serves}
use sendme.Exchange.Created.{Abao, Offers, create_collection-Offers}
use sendme.Integration.{
  Testbed, join, on_disk, collect_events, assert_events, test_builder, test_options, finish_test,
  transfer_saved, transfer_data, checking,
}
use sendme.Integration.Saved.{
  Writes, contents_of, expects_of, sources_of, saved, save_files_lem, saved-Hold, Hold-AreFiles,
}
use sendme.Integration.Joined.{join_cancelled}
use sendme.Integration.Checked.{count_blobs, length-source_blobs, Hold-Due, checking-Keeps}
use sendme.Integration.Conditions.{
  on_disk-IsLawful, on_disk-Abao, contents-Heads, test_collection, test_hash, Fits, Connects,
}

module _ {K D F Address C : Type 0} (crypto : Crypto) (k : KeyCrates) (rcgen : Rcgen K)
    (rustls : Rustls) (listen : Listen Address) (quinn : Quinn Address C) (env : Env)
    (dec : Decoding D) (files : Files F) (t : Testbed K Address) where
  -- A provider that was shut down ends.
  pub Connects-ends :
      {n : ℕ} {options : Provider Address → Options Address} {dir : List Byte}
      {opts : List (List Byte × List Byte)} {f : F}
      → Connects crypto k rcgen rustls listen quinn env dec files t n options dir opts f
      → (p : Provider Address) → p.cancelled ≡ true
      → join t p ≡ ok tt
  Connects-ends net p c =
      let (before, waiting, after, e) = net.polled p c in join_cancelled t p before waiting after e

  -- The subscriber hears of the stream, of the request and of its completion.
  finish_test_lem :
      (seen : Env) (tls : TlsConfig) (addr : Address) (db : Database) (id : ℕ) (h : Hash)
      → ((p : Provider Address) → p.cancelled ≡ true → join t p ≡ ok tt)
      → (handle_stream seen db (generate_token t.random) t.connection_id t.stream).1.events
        ≡ request_received t.connection_id id h ∷ transfer_completed t.connection_id id ∷ []
      → let p = started (test_builder t db) tls addr in finish_test t seen p ≡ ok tt
  unfolding finish_test collect_events assert_events shutdown spawn_stream with_db bind_addr
  finish_test_lem seen tls addr db id h ends events =
      let b = test_builder t db in rw (events, ends (shutdown (started b tls addr)) refl) refl

  -- From the files that were saved on.
  module _ (n : ℕ) (law : IsLawful env) (abao : Abao env dec)
      (roundtrips : RoundTrips env.collection IsCollection) (hashes : Hashes env)
      (writes : Writes files) (dir : List Byte) (opts : List (List Byte × List Byte)) (start : F)
      (fits : Fits env files dir opts) where
    -- The collection is created and can be served.
    pub offered :
        let f = saved files dir opts start in
        let seen = on_disk env files f in
        (db : Database) × (create_collection seen (sources_of env files dir opts)
          ≡ ok (db, test_hash env files dir opts))
        × Offers seen dec db
            (test_hash env files dir opts)
            (test_collection env files dir opts)
            (contents_of opts)
    offered =
        let f = saved files dir opts start in
        let seen = on_disk env files f in
        let seen_abao = on_disk-Abao env dec files f abao in
        let ds = sources_of env files dir opts in
        let ys = contents_of opts in
        let hold = saved-Hold files dir writes opts start fits.apart in
        let are_files = Hold-AreFiles env files dir opts f hold in
        let short : total_length ys < u64_mod = omega (arith, fits.limit) in
        let (db, created) =
          create_collection_succeeds seen ds ys are_files
            (contents-Heads seen dec seen_abao ys short) short fits.room in
        (
          db,
          created,
          create_collection-Offers seen dec seen_abao roundtrips hashes ds ys created
              (Reads-AreFiles seen ds ys are_files) short fits.short fits.told fits.other,
        )

    -- A client whose caller takes whole blobs gets those of the files, and the provider reports the
    -- transfer.
    pub client_served :
        {U : Type 0} (options : Provider Address → Options Address)
        (net : Connects crypto k rcgen rustls listen quinn env dec files t n options dir opts
          (saved files dir opts start))
        (callbacks : Callbacks D U) (keeps : Keeps dec callbacks) (user : U)
        → keeps.Ready user
        → keeps.Accepts (test_collection env files dir opts) (contents_of opts)
        → let seen = on_disk env files (saved files dir opts start) in
          let db = offered.0 in
          let p = started (test_builder t db) net.tls net.addr in
          let c = test_collection env files dir opts in
          let r =
            run_with crypto k rcgen rustls quinn seen dec callbacks t.client_keypair
              t.client_certificate
              (options p)
              (test_hash env files dir opts)
              (generate_token t.random)
              user in
          (r.0 ≡ ok (total_length (contents_of opts)))
          × (r.1
              ≡ put_all keeps.put c.blobs (contents_of opts) (keeps.begin c (keeps.welcome user)))
          × ((handle_stream seen db (generate_token t.random) t.connection_id t.stream).1.events
              ≡ request_received t.connection_id 1 (test_hash env files dir opts)
                ∷ transfer_completed t.connection_id 1
                ∷ [])
    client_served options net callbacks keeps user ready accepts =
        let seen = on_disk env files (saved files dir opts start) in
        let seen_law = on_disk-IsLawful env files (saved files dir opts start) law in
        let (db, created, o) = offered in
        let c = test_collection env files dir opts in
        let h = test_hash env files dir opts in
        let token = generate_token t.random in
        let carries = net.carries db created in
        let once = net.at_once o.encoded o.extracted in
        let (got, kept, _) =
          run_keeps seen n seen_law dec callbacks keeps db h token t.connection_id c o.encoded
            o.slices (contents_of opts) net.w t.stream (quinn.answer net.conn) user ready o.hashed
            net.token net.asks net.willing net.blank o.has o.whole accepts o.verified (omega arith)
            fits.limit once net.provider_willing carries in
        let p = started (test_builder t db) net.tls net.addr in
        let running =
          run_with_connected crypto k rcgen rustls quinn seen dec callbacks t.client_keypair
            t.client_certificate (options p) h token user net.conn net.w (net.dials db) net.opens in
        let served =
          provider_serves seen n seen_law db h token t.connection_id c o.encoded o.slices t.stream
            o.hashed net.token net.asks carries.empty carries.there carries.there_ended o.has
            (omega (arith, fits.limit)) once net.provider_willing in
        (
          ap (λ q. q.0) running ∙ got,
          ap (λ q. q.1) running ∙ kept,
          served.3
              ∙ ap
                  (λ l.
                    l
                    ++ request_received t.connection_id 1 h
                      ∷ transfer_completed t.connection_id 1
                      ∷ [])
                  net.silent,
        )

    transfer_saved_passes :
        Connects crypto k rcgen rustls listen quinn env dec files t n
          (test_options t)
          dir
          opts
          (saved files dir opts start)
        → transfer_saved crypto k rcgen rustls listen quinn env dec files t
            (saved files dir opts start)
            (length opts)
            (expects_of env files dir opts)
          ≡ ok (length opts)
    unfolding transfer_saved spawn with_db bind_addr provider_peer_id
    transfer_saved_passes net =
        let f = saved files dir opts start in
        let seen = on_disk env files f in
        let (db, created, o) = offered in
        let expects = expects_of env files dir opts in
        let hold = saved-Hold files dir writes opts start fits.apart in
        let (got, kept, events) =
          client_served (test_options t) net (checking dec files f expects (length opts))
            (checking-Keeps dec files f expects (length opts)) 0 refl
            (
              length-source_blobs env files dir opts,
              Hold-Due env files dir f opts hold fits.named,
            ) in
        let start_at : 0 + length opts ≡ length opts = omega arith in
        let counted = kept ∙ count_blobs env files dir opts 0 ∙ start_at in
        let finished =
          finish_test_lem seen net.tls net.addr db 1 (test_hash env files dir opts)
            (Connects-ends net) events in
        rw (created, net.configured, net.listens, got, finished, counted) refl

  -- The integration test `transfer_data` passes for all files that `Fits` describes, over all networks
  -- that `Connects` describes, and at its end the counter of its callbacks is the number of files: for
  -- every file the callbacks were given a blob and have found its hash, its name and its content to be
  -- those of the file at its place. (The test passes only if the provider reports the connection, the
  -- request and its completion, in this order and nothing else, and if it ends when it is shut down.
  -- The codecs, abao, the file system and the cancellation token do as documented.)
  pub transfer_data_passes :
      (n : ℕ) (dir : List Byte) (opts : List (List Byte × List Byte)) (start : F)
      → IsLawful env
      → Abao env dec
      → RoundTrips env.collection IsCollection
      → Hashes env
      → Writes files
      → Fits env files dir opts
      → Connects crypto k rcgen rustls listen quinn env dec files t n
          (test_options t)
          dir
          opts
          (saved files dir opts start)
      → let f = saved files dir opts start in
        (transfer_saved crypto k rcgen rustls listen quinn env dec files t f
            (length opts)
            (expects_of env files dir opts)
          ≡ ok (length opts))
        × (transfer_data crypto k rcgen rustls listen quinn env dec files t dir opts start
            ≡ (ok tt, f))
  unfolding transfer_data
  transfer_data_passes n dir opts start law abao roundtrips hashes writes fits net =
      let counted =
        transfer_saved_passes n law abao roundtrips hashes writes dir opts start fits net in
      (counted, rw (save_files_lem env files dir opts start writes, counted) refl)
