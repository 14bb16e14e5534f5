-- ===== src/Integration/Others.antt =====
-- The other integration tests of src/lib.rs: a caller that does not read, a provider that is closed after
-- its transfer, and several clients.
use sendme.Base.{◌++◌, drop, ℕ, true, none, List, [], ◌∷◌, map}
use sendme.Base.{bytes_eq}
use sendme.Base.Bytes.{Byte}
use sendme.Io.{
  Io, Outcome, ok, err, panic, chain, pure, lift, unwrap, with_result, callback_error, ◌>>=◌, ◌>>◌,
}
use sendme.Util.{Hash, hash_eq}
use sendme.Env.{Env}
use sendme.Tls.{Crypto}
use sendme.Tls.Keypair.{KeyCrates}
use sendme.Tls.Config.{Rcgen, Rustls}
use sendme.Cli.{Files}
use sendme.Provider.Create.{file, create_collection}
use sendme.Provider.Session.{
  Event, client_connected, request_received, transfer_completed, transfer_aborted,
}
use sendme.Provider.Service.{Provider, Listen, spawn, shutdown}
use sendme.Get.{Decoding, Callbacks}
use sendme.Get.Receive.{Item}
use sendme.Get.Setup.{Options, Quinn, run_with}
use sendme.Integration.{
  Testbed, Expected, assert, join, on_disk, save_files, test_builder, test_options, heard,
}

-- `expect_err`
abbrev pub expect_err : {A : Type 0} → Outcome A → Outcome (Unit {0})
expect_err (ok a) = panic
expect_err (err e) = ok tt
expect_err panic = panic

module _ {D : Type 0} where
  -- "evil: do nothing with the stream!"
  abbrev pub ignoring : Callbacks D (Unit {0})
  ignoring = record {
    on_connected = pure tt;
    on_collection = λ c. pure tt;
    on_blob = λ h stream name. pure stream;
  }

module _ {D : Type 0} (dec : Decoding D) where
  -- `io::copy` of the stream to a sink, with what was copied
  abbrev pub sinking : Callbacks D (List (List Byte))
  sinking = record {
    on_connected = pure tt;
    on_collection = λ c. pure tt;
    on_blob = λ h stream name. do
      let read = dec.read_to_end stream
      got ← lift read.0
      λ copied. (ok read.1, copied ++ got ∷ []);
  }

  -- The callbacks of `run_client`, with the blobs that passed its assertions.
  abbrev pub client_calls : Hash → List Byte → List Byte → Callbacks D (List Item)
  client_calls file_hash name content = record {
    on_connected = pure tt;
    on_collection = λ c. pure tt;
    on_blob = λ got_hash reader got_name. do
      assert (hash_eq file_hash got_hash)
      let read = dec.read_to_end reader
      got ← lift read.0
      assert (bytes_eq content got)
      assert (bytes_eq name got_name)
      let item : Item = record { hash = got_hash; name = got_name; bytes = got }
      λ passed. (ok read.1, passed ++ item ∷ []);
  }

-- The options of a client that accepts any peer.
abbrev pub any_peer : {Address : Type 0} → Provider Address → Options Address
any_peer provider = record { addr = provider.listen_addr; peer_id = none; keylog = true }

module _ {K Address : Type 0} (t : Testbed K Address) where
  -- The task that closes the provider, over the events that it receives. After the last one it waits for
  -- the provider's end, which `select!` polls first; the wait times out when the provider goes on. (A
  -- provider that was shut down may be found to have ended before the last event: the result is the
  -- same, but when that event is an abortion, which never follows a completion on one stream.)
  unfoldable pub supervise : List Event → Provider Address → Outcome (Unit {0})
  unfolding shutdown join
  supervise [] provider = join t provider
  supervise (transfer_completed _ _ ∷ events) provider = supervise events (shutdown provider)
  supervise (transfer_aborted _ _ ∷ events) provider = unwrap (err (callback_error 0))
  supervise (client_connected _ ∷ events) provider = supervise events provider
  supervise (request_received _ _ _ ∷ events) provider = supervise events provider

  -- What the supervisor receives, who subscribes when some events have been sent.
  abbrev pub received : Env → Provider Address → List Event
  received seen provider = drop t.missed (heard t seen provider)

module _ {K D F Address C : Type 0} (crypto : Crypto) (k : KeyCrates) (rcgen : Rcgen K)
    (rustls : Rustls) (listen : Listen Address) (quinn : Quinn Address C) (env : Env)
    (dec : Decoding D) (files : Files F) (t : Testbed K Address) where
  -- The run of a test's client.
  abbrev pub test_client :
      {U : Type 0} → Env → Callbacks D U → Options Address → Hash → Provider Address → Io U ℕ
  test_client seen calls options hash provider =
      run_with crypto k rcgen rustls quinn seen dec calls t.client_keypair t.client_certificate
        options hash provider.auth_token

  -- `run_client`, with the blobs that passed
  unfoldable pub run_client :
      Env → Hash → Hash → List Byte → List Byte → Provider Address → Outcome (List Item)
  run_client seen hash file_hash name content provider =
      let calls = client_calls dec file_hash name content in
      let run = test_client seen calls (test_options t provider) hash provider [] in
      chain run.0 λ _. ok run.1

  -- The start of a test: the collection of the files that were saved, and its provider.
  abbrev pub served :
      {A : Type 0} → F → List Expected → (Hash → Provider Address → Outcome A) → Outcome A
  served f expects test =
      chain (create_collection (on_disk env files f) (map (λ x. file x.path) expects)) λ created.
        chain (spawn crypto k rcgen rustls listen t.certificate (test_builder t created.0))
          (test created.1)

  -- `test_blob_reader_partial`, up to the provider, which is shut down at the end
  unfoldable pub reader_partial : F → List Expected → Outcome (Provider Address)
  unfolding spawn shutdown
  reader_partial f expects = served f expects λ hash provider.
      let run = test_client (on_disk env files f) ignoring (any_peer provider) hash provider tt in
      chain (expect_err run.0) λ _. ok (shutdown provider)

  unfoldable pub test_blob_reader_partial :
      List Byte → List (List Byte × List Byte) → Io F (Unit {0})
  unfolding reader_partial save_files
  test_blob_reader_partial dir file_opts = do
    expects ← save_files env files dir file_opts
    λ f. (chain (reader_partial f expects) (λ provider. ok tt), f)

  -- `test_server_close`, with what its client copied
  unfoldable pub server_close : F → List Expected → Outcome (List (List Byte))
  unfolding spawn supervise
  server_close f expects = unwrap (
      served f expects λ hash provider.
        let seen = on_disk env files f in
        let run = test_client seen (sinking dec) (any_peer provider) hash provider [] in
        chain (unwrap run.0)
          λ _. chain (supervise t (received t seen provider) provider) λ _. ok run.1)

  unfoldable pub test_server_close : List Byte → List (List Byte × List Byte) → Io F (Unit {0})
  unfolding server_close save_files
  test_server_close dir file_opts = do
    expects ← with_result unwrap (save_files env files dir file_opts)
    λ f. (chain (server_close f expects) (λ copied. ok tt), f)
