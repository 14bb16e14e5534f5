-- ===== src/Integration/Several.antt =====
-- The test `multiple_clients` of src/lib.rs: one file, one provider, and clients that connect to it
-- each by its own connection.
use sendme.Base.{ℕ, List, [], ◌∷◌, map}
use sendme.Base.Bytes.{Byte}
use sendme.Io.{Io, Outcome, ok, chain, ◌>>◌}
use sendme.Util.{Hash}
use sendme.Env.{Env}
use sendme.Tls.{Crypto}
use sendme.Tls.Keypair.{KeyCrates}
use sendme.Tls.Config.{Rcgen, Rustls}
use sendme.Cli.{Files}
use sendme.Provider.Create.{file, create_collection}
use sendme.Provider.Session.{Session}
use sendme.Provider.Service.{Provider, Listen, spawn}
use sendme.Get.{Decoding}
use sendme.Get.Receive.{Item}
use sendme.Get.Setup.{Quinn}
use sendme.Integration.{Testbed, on_disk, test_builder}
use sendme.Integration.Others.{run_client}

-- The connection of one client: its id at the provider, the stream that arrives there, and how quinn
-- connects the two.
pub record Visit (Address C : Type 0) : Type 0 where
  pub connection_id : ℕ
  pub stream : Session
  pub quinn : Quinn Address C

-- The run as this client's connection sees it.
abbrev pub visited :
    {K Address C : Type 0} → Testbed K Address → Visit Address C → Testbed K Address
visited t v = record t { connection_id = v.connection_id; stream = v.stream }

module _ {K F Address : Type 0} (crypto : Crypto) (k : KeyCrates) (rcgen : Rcgen K)
    (rustls : Rustls) (listen : Listen Address) (env : Env) (files : Files F)
    (t : Testbed K Address) where
  -- `create_collection` and `spawn`
  unfoldable pub launched : F → List Byte → Outcome (Hash × Provider Address)
  unfolding spawn
  launched f path = chain (create_collection (on_disk env files f) (file path ∷ [])) λ created.
      chain (spawn crypto k rcgen rustls listen t.certificate (test_builder t created.0))
        λ provider. ok (created.1, provider)

module _ {K D F Address C : Type 0} (crypto : Crypto) (k : KeyCrates) (rcgen : Rcgen K)
    (rustls : Rustls) (listen : Listen Address) (env : Env) (dec : Decoding D) (files : Files F)
    (t : Testbed K Address) where
  -- What the clients return, as `join_all` collects it.
  unfoldable pub client_results :
      F
      → List Byte
      → List Byte
      → List Byte
      → List (Visit Address C)
      → Outcome (List (Outcome (List Item)))
  unfolding launched run_client
  client_results f path name content visits = chain (files.read path f) λ bytes.
      chain (launched crypto k rcgen rustls listen env files t f path) λ served.
        let expect_hash = (env.outboard bytes).1 in
        ok (
          map
            (λ v.
              run_client crypto k rcgen rustls listen v.quinn env dec files t (on_disk env files f)
                served.0 expect_hash name content served.1)
            visits)

  -- `multiple_clients`, for any name and content
  unfoldable pub multiple_clients :
      List Byte → List Byte → List Byte → List (Visit Address C) → Io F (Unit {0})
  unfolding client_results
  multiple_clients dir name content visits =
      let path = files.join dir name in
      files.write path content >> λ f.
      (chain (client_results f path name content visits) (λ results. ok tt), f)
