-- ===== src/Integration.antt =====
-- The integration tests of src/lib.rs, as programs over what they use: quinn, the file system and the
-- crates are parameters. A failed assertion is a panic.
pub mod Saved
pub mod Checked
pub mod Joined
pub mod Conditions
pub mod Passes
pub mod Others
pub mod OthersPass
pub mod Creates
pub mod Several
pub mod SeveralPass
use sendme.Base.{
  ℕ, ◌+◌, Bool, true, false, Option, none, some, List, [], ◌∷◌, map, length, get_elem?, ◌==◌,
  bytes_eq,
}
use sendme.Base.Bytes.{Byte}
use sendme.Io.{Io, Outcome, ok, err, panic, chain, pure, lift, ◌>>=◌, ◌>>◌}
use sendme.Util.{Hash, hash_eq}
use sendme.Env.{Env}
use sendme.Tls.{Crypto}
use sendme.Tls.Keypair.{Keypair, KeyCrates}
use sendme.Tls.Config.{Rcgen, Rustls}
use sendme.Cli.{Files}
use sendme.Provider.Database.{Database}
use sendme.Provider.Create.{DataSource, file, create_collection}
use sendme.Provider.Session.{
  Event, client_connected, request_received, transfer_completed, transfer_aborted, Session,
}
use sendme.Provider.Service.{
  Builder, Provider, Listen, with_db, bind_addr, spawn, shutdown, provider_peer_id,
}
use sendme.Provider.Service.Loop.{Turn, run_loop}
use sendme.Provider.Service.Streams.{spawn_stream}
use sendme.Get.{Decoding, Callbacks}
use sendme.Get.Setup.{Options, Quinn, run_with}

-- assert!(b)
abbrev pub assert : {S : Type 0} → Bool → Io S (Unit {0})
assert true s = (ok tt, s)
assert false s = (panic, s)

-- The values that `transfer_data` keeps of each file.
pub record Expected : Type 0 where
  pub name : List Byte
  pub path : List Byte
  pub hash : Hash

abbrev readable : Outcome (List Byte) → Option (List Byte)
readable (ok bytes) = some bytes
readable (err e) = none
readable panic = none

abbrev length_of : Outcome (List Byte) → Option ℕ
length_of (ok bytes) = some (length bytes)
length_of (err e) = none
length_of panic = none

-- The files as the program sees them.
abbrev pub on_disk : {F : Type 0} → Env → Files F → F → Env
on_disk env files f = record env {
  read_file = λ path. readable (files.read path f);
  is_file = λ path. files.is_file path f;
  file_len = λ path. length_of (files.read path f);
}

-- The events up to the first that ends a transfer; `none` when none does, and the wait times out.
unfoldable pub collect_events : List Event → Option (List Event)
collect_events [] = none
collect_events (transfer_completed c id ∷ _) = some (transfer_completed c id ∷ [])
collect_events (transfer_aborted c id ∷ _) = some (transfer_aborted c id ∷ [])
collect_events (client_connected c ∷ es) = elim (collect_events es) [
  | none ↦ none
  | some more ↦ some (client_connected c ∷ more)
]
collect_events (request_received c id h ∷ es) = elim (collect_events es) [
  | none ↦ none
  | some more ↦ some (request_received c id h ∷ more)
]

unfoldable pub assert_events : List Event → Outcome (Unit {0})
assert_events (client_connected _ ∷ request_received _ _ _ ∷ transfer_completed _ _ ∷ []) = ok tt
assert_events _ = panic

-- `.expect(..)` on the events
abbrev pub or_panic : Option (List Event) → Outcome (List Event)
or_panic none = panic
or_panic (some events) = ok events

-- What a run of a test is given: what is generated, the addresses, what the client's stream brings to
-- the provider, what the accept loop of a provider finds in its turns, and how many events were sent
-- before the supervisor of `test_server_close` has subscribed.
pub record Testbed (K Address : Type 0) : Type 0 where
  pub generated : Keypair
  pub random : List Byte
  pub certificate : Option K
  pub default_addr : Address
  pub addr : Address
  pub client_keypair : Keypair
  pub client_certificate : Option K
  pub connection_id : ℕ
  pub stream : Session
  pub turns : Provider Address → List (Turn ℕ)
  pub missed : ℕ

module _ {F : Type 0} (env : Env) (files : Files F) where
  -- The loop that creates and saves the files.
  unfoldable pub save_files : List Byte → List (List Byte × List Byte) → Io F (List Expected)
  save_files dir [] = pure []
  save_files dir ((name, content) ∷ file_opts) = do
    let path = files.join dir name
    let hash = (env.outboard content).1
    files.write path content
    rest ← save_files dir file_opts
    pure (record { name = name; path = path; hash = hash } ∷ rest)

module _ {D F : Type 0} (dec : Decoding D) (files : Files F) (f : F) (expects : List Expected) where
  -- The callback for a blob, by what was expected at its place.
  unfoldable pub check_blob : Option Expected → Hash → D → List Byte → Io ℕ D
  check_blob none got_hash reader got_name = lift panic
  check_blob (some x) got_hash reader got_name = do
    assert (hash_eq x.hash got_hash)
    expect ← lift (files.read x.path f)
    let read = dec.read_to_end reader
    got ← lift read.0
    assert (bytes_eq expect got)
    assert (bytes_eq x.name got_name)
    λ i. (ok read.1, i + 1)

  unfoldable pub check_next : Hash → D → List Byte → Io ℕ D
  unfolding check_blob
  check_next got_hash reader got_name i =
      check_blob (get_elem? expects i) got_hash reader got_name i

  -- The callbacks, over the counter of the blobs.
  abbrev pub checking : ℕ → Callbacks D ℕ
  checking num_blobs = record {
    on_connected = pure tt;
    on_collection = λ c. assert (length c.blobs == num_blobs);
    on_blob = check_next;
  }

abbrev pub ended : {A : Type 0} → Option A → Outcome (Unit {0})
ended none = panic
ended (some closing) = ok tt

module _ {K Address : Type 0} (t : Testbed K Address) where
  -- `Provider::builder(db).bind_addr(addr)`
  abbrev pub test_builder : Database → Builder Address
  test_builder db = bind_addr t.addr (with_db t.default_addr t.generated t.random db)

  -- `provider.await`: the task of `Builder::run` ends when its loop does; a wait that nothing ends is a
  -- panic.
  unfoldable pub join : Provider Address → Outcome (Unit {0})
  unfolding run_loop
  join provider = ended (run_loop (t.turns provider)).closed

  -- What the subscriber hears of the one stream, from the connection on.
  abbrev pub heard : Env → Provider Address → List Event
  heard seen provider =
      let task =
        spawn_stream seen provider.task.db provider.task.auth_token t.connection_id t.stream in
      client_connected t.connection_id ∷ task.pending

  -- The options of the client.
  abbrev pub test_options : Provider Address → Options Address
  test_options provider = record {
    addr = provider.listen_addr;
    peer_id = some (provider_peer_id provider);
    keylog = true;
  }

  -- What follows the run of the client.
  unfoldable pub finish_test : Env → Provider Address → Outcome (Unit {0})
  unfolding collect_events assert_events shutdown spawn_stream join
  finish_test seen provider =
      chain (or_panic (collect_events (heard seen provider)))
        λ events. chain (join (shutdown provider)) λ _. assert_events events

module _ {K D F Address C : Type 0} (crypto : Crypto) (k : KeyCrates) (rcgen : Rcgen K)
    (rustls : Rustls) (listen : Listen Address) (quinn : Quinn Address C) (env : Env)
    (dec : Decoding D) (files : Files F) (t : Testbed K Address) where
  -- From `create_collection` on, with the files that were saved: the counter of the callbacks at the end.
  unfoldable pub transfer_saved : F → ℕ → List Expected → Outcome ℕ
  unfolding finish_test bind_addr with_db provider_peer_id
  transfer_saved f num_blobs expects =
      let seen = on_disk env files f in
      chain (create_collection seen (map (λ x. file x.path) expects)) λ created.
        chain (spawn crypto k rcgen rustls listen t.certificate (test_builder t created.0))
          λ provider.
            let calls = checking dec files f expects num_blobs in
            let client =
              run_with crypto k rcgen rustls quinn seen dec calls t.client_keypair
                t.client_certificate (test_options t provider) created.1 provider.auth_token in
            let run = client 0 in chain run.0 λ _. chain (finish_test t seen provider) λ _. ok run.1

  unfoldable pub transfer_data : List Byte → List (List Byte × List Byte) → Io F (Unit {0})
  unfolding transfer_saved save_files
  transfer_data dir file_opts = do
    expects ← save_files env files dir file_opts
    λ f. (chain (transfer_saved f (length file_opts) expects) (λ _. ok tt), f)
