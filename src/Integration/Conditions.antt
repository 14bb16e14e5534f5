-- ===== src/Integration/Conditions.antt =====
-- What the integration tests of src/lib.rs ask of their files and of the network.
use sendme.Base.{ℕ, ◌+◌, ◌≡◌, ◌≢◌, ◌≤◌, ◌<◌, false, true, some, List, [], ◌∷◌, length, arith}
use sendme.Base.{All, Option, ◌++◌}
use sendme.Base.Bytes.{Byte, u64_mod, total_length}
use sendme.Io.{ok}
use sendme.Sink.{Writer, IsWilling}
use sendme.Util.{Hash}
use sendme.Protocol.Codec.{IsToken}
use sendme.Protocol.Token.{generate_token}
use sendme.Blobs.{Collection}
use sendme.Env.{Env}
use sendme.Tls.{Crypto}
use sendme.Tls.Keypair.{KeyCrates}
use sendme.Tls.Config.{Rcgen, Rustls, TlsConfig, make_server_config}
use sendme.Cli.{Files}
use sendme.Cli.Saving.{Distinct}
use sendme.Provider.Database.{Database}
use sendme.Provider.Create.{create_collection}
use sendme.Provider.Create.Built.{links_size}
use sendme.Provider.Create.Files.{In, source_collection}
use sendme.Provider.Create.Succeeds.{Heads}
use sendme.Provider.Service.{Provider, Listen, server_config, started}
use sendme.Provider.Service.Loop.{Turn, turns_of}
use sendme.Provider.Transfer.Wire.{whole_slice}
use sendme.Get.{Decoding, max_data_size}
use sendme.Get.Setup.{Options, Quinn, setup}
use sendme.Exchange.{IsLawful, asking, AskingFits, Carries}
use sendme.Exchange.Created.{Abao, Injective}
use sendme.Integration.{Testbed, on_disk, test_builder}
use sendme.Integration.Saved.{contents_of, sources_of, paths_of}
use sendme.Integration.Checked.{Named}

-- What is asked of the crates holds whatever the files are.
pub on_disk-IsLawful :
    {F : Type 0} (env : Env) (files : Files F) (f : F)
    → IsLawful env
    → IsLawful (on_disk env files f)
on_disk-IsLawful env files f law = record {
  handshakes = law.handshakes;
  requests = law.requests;
  responses = law.responses;
  responses_fit = law.responses_fit;
}

pub on_disk-Abao :
    {D F : Type 0} (env : Env) (dec : Decoding D) (files : Files F) (f : F)
    → Abao env dec
    → Abao (on_disk env files f) dec
on_disk-Abao env dec files f abao y short =
    let e = abao y short in
    record {
      slice = e.slice;
      extracted = e.extracted;
      verified = e.verified;
      worded = e.worded;
      headed = e.headed;
    }

pub contents-Heads :
    {D : Type 0} (env : Env) (dec : Decoding D)
    → Abao env dec
    → (ys : List (List Byte)) → total_length ys < u64_mod
    → Heads env ys
contents-Heads env dec abao [] short = tt
contents-Heads env dec abao (y ∷ ys) short =
    let e = abao y (omega arith) in
    (e.worded, e.headed, contents-Heads env dec abao ys (omega arith))

module _ {F : Type 0} (env : Env) (files : Files F) (dir : List Byte)
    (opts : List (List Byte × List Byte)) where
  abbrev pub test_collection : Collection
  test_collection = source_collection env (sources_of env files dir opts) (contents_of opts)

  abbrev pub test_hash : Hash
  test_hash = (env.outboard (env.collection.to_bytes test_collection)).1

  -- What is asked of the files that the test is given: no two have one path, their names are read from
  -- their paths, the collection of them fits its buffer and the limit of the client, and the hashes
  -- tell them apart, and from the collection.
  pub record Fits : Type 0 where
    pub apart : Distinct (paths_of files dir opts)
    pub named : Named env files dir opts
    pub limit : total_length (contents_of opts) ≤ max_data_size
    pub room :
        length (env.collection.to_bytes test_collection)
        ≤ links_size test_collection.blobs + 10 + 1024
    pub short : length (env.collection.to_bytes test_collection) < u64_mod
    pub told : Injective env (contents_of opts)
    pub other : (y : List Byte) → In y (contents_of opts) → test_hash ≢ (env.outboard y).1

module _ {K D F Address C : Type 0} (crypto : Crypto) (k : KeyCrates) (rcgen : Rcgen K)
    (rustls : Rustls) (listen : Listen Address) (quinn : Quinn Address C) (env : Env)
    (dec : Decoding D) (files : Files F) (t : Testbed K Address) where
  -- What is asked of the network: the provider is configured and listens, the client connects to it
  -- with its options and opens a stream, neither transport fails, the provider's takes up to `n` bytes
  -- at once, as many as the collection's slice has, the stream carries what is sent, and the accept
  -- loop finds its token cancelled, after some connections, when the provider was shut down, and only
  -- then.
  pub record Connects (n : ℕ) (options : Provider Address → Options Address) (dir : List Byte)
      (opts : List (List Byte × List Byte)) (f : F) : Type 0 where
    pub tls : TlsConfig
    pub configured :
        make_server_config crypto k rcgen rustls t.certificate t.generated false ≡ ok tls
    pub addr : Address
    pub listens : listen (server_config tls) t.addr ≡ some addr
    pub conn : C
    pub dials :
        (db : Database)
        → setup crypto k rcgen rustls quinn t.client_keypair t.client_certificate
            (options (started (test_builder t db) tls addr))
          ≡ ok conn
    pub w : Writer
    pub opens : quinn.open_bi conn ≡ some w
    pub willing : IsWilling 0 w
    pub blank : w.sent ≡ []
    pub provider_willing : IsWilling n t.stream.send.writer
    pub at_once :
        (encoded : List Byte)
        → let bytes = env.collection.to_bytes (test_collection env files dir opts) in
          whole_slice (env.extract bytes (env.outboard bytes).0 (length bytes)) ≡ some encoded
          → length encoded ≤ n
    pub silent : t.stream.events ≡ []
    pub token : IsToken (generate_token t.random)
    pub asks : AskingFits env (test_hash env files dir opts) (generate_token t.random)
    pub carries :
        let sent = asking env (test_hash env files dir opts) (generate_token t.random) in
        let seen = on_disk env files f in
        (db : Database)
        → create_collection seen (sources_of env files dir opts)
          ≡ ok (db, test_hash env files dir opts)
        → Carries seen db
            (generate_token t.random)
            t.connection_id
            sent
            t.stream
            (quinn.answer conn sent)
    pub polled :
        (p : Provider Address)
        → p.cancelled ≡ true
        → (before : List ℕ) × (waiting : Option ℕ) × (after : List (Turn ℕ)) × (t.turns p
            ≡ turns_of before ++ record { cancelled = true; accepted = waiting } ∷ after)
    pub unpolled :
        (p : Provider Address)
        → p.cancelled ≡ false
        → All (λ (turn : Turn ℕ). turn.cancelled ≡ false) (t.turns p)
