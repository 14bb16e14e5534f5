-- ===== src/Provider/Service.antt =====
-- `Builder` and `Provider` of src/provider.rs: the service and its accept loop. The endpoint of quinn and
-- the crates of the TLS configuration are parameters; random keys and tokens are arguments.
pub mod Loop
pub mod Streams
pub mod Counts
pub mod Log
pub mod Spawned
use sendme.Base.{ℕ, Bool, true, false, Option, none, some, List, [], ◌∷◌, ◌++◌}
use sendme.Io.{Outcome, ok, err, chain, or_err, bind_error}
use sendme.Util.{Hash}
use sendme.Base.Bytes.{Byte}
use sendme.Protocol.Codec.{AuthToken}
use sendme.Protocol.Token.{generate_token}
use sendme.Tls.{Crypto}
use sendme.Tls.PeerId.{PeerId}
use sendme.Tls.Keypair.{Keypair, KeyCrates}
use sendme.Tls.Config.{Rcgen, Rustls, TlsConfig, make_server_config}
use sendme.Ticket.{Ticket}
use sendme.Provider.Database.{Database}

-- MAX_CONNECTIONS
abbrev pub max_connections : ℕ
max_connections = 1024

-- MAX_STREAMS
abbrev pub max_streams : ℕ
max_streams = 10

-- What `spawn` sets of quinn's `ServerConfig`.
pub record ServerConfig : Type 0 where
  pub crypto : TlsConfig
  pub max_concurrent_bidi_streams : ℕ
  pub max_concurrent_uni_streams : ℕ
  pub concurrent_connections : ℕ

-- `Endpoint::server`, as the address that it is bound to; `none` is an error.
abbrev pub Listen : Type 0 → Type 0
Listen Address = ServerConfig → Address → Option Address

pub record Builder (Address : Type 0) : Type 0 where
  pub bind_addr : Address
  pub keypair : Keypair
  pub auth_token : AuthToken
  pub db : Database
  pub keylog : Bool

-- What the task that runs the service is given.
pub record ServiceTask : Type 0 where
  pub config : ServerConfig
  pub db : Database
  pub auth_token : AuthToken

pub record Provider (Address : Type 0) : Type 0 where
  pub listen_addr : Address
  pub keypair : Keypair
  pub auth_token : AuthToken
  pub task : ServiceTask
  pub cancelled : Bool

-- The configuration that `spawn` makes.
abbrev pub server_config : TlsConfig → ServerConfig
server_config crypto = record {
  crypto = crypto;
  max_concurrent_bidi_streams = max_streams;
  max_concurrent_uni_streams = 0;
  concurrent_connections = max_connections;
}

module _ {Address : Type 0} where
  -- `Builder::with_db`, with "127.0.0.1:4433" and what was generated: the key pair, and the bytes of the token
  unfoldable pub with_db : Address → Keypair → List Byte → Database → Builder Address
  with_db default_addr generated_keypair random db = record {
    bind_addr = default_addr;
    keypair = generated_keypair;
    auth_token = generate_token random;
    db = db;
    keylog = false;
  }

  -- The setters of the builder.
  unfoldable pub bind_addr : Address → Builder Address → Builder Address
  bind_addr addr b = record b { bind_addr = addr }

  unfoldable pub keypair : Keypair → Builder Address → Builder Address
  keypair pair b = record b { keypair = pair }

  unfoldable pub auth_token : AuthToken → Builder Address → Builder Address
  auth_token token b = record b { auth_token = token }

  unfoldable pub keylog : Bool → Builder Address → Builder Address
  keylog log b = record b { keylog = log }

  -- What `spawn` returns once the endpoint listens.
  abbrev pub started : Builder Address → TlsConfig → Address → Provider Address
  started b crypto listen_addr = record {
    listen_addr = listen_addr;
    keypair = b.keypair;
    auth_token = b.auth_token;
    task = record { config = server_config crypto; db = b.db; auth_token = b.auth_token };
    cancelled = false;
  }

  -- `Provider::peer_id`
  unfoldable pub provider_peer_id : Provider Address → PeerId
  provider_peer_id p = record { key = p.keypair.public }

  -- `Provider::ticket`
  unfoldable pub ticket : Provider Address → Hash → Ticket Address
  unfolding provider_peer_id
  ticket p hash = record {
    hash = hash;
    peer = provider_peer_id p;
    addr = p.listen_addr;
    token = p.auth_token;
  }

  -- `Provider::shutdown`
  unfoldable pub shutdown : Provider Address → Provider Address
  shutdown p = record p { cancelled = true }

module _ {K Address : Type 0} (c : Crypto) (k : KeyCrates) (rcgen : Rcgen K) (rustls : Rustls)
    (listen : Listen Address) where
  -- `Builder::spawn`, with what rcgen generates for the certificate
  unfoldable pub spawn : Option K → Builder Address → Outcome (Provider Address)
  unfolding make_server_config
  spawn certificate_keypair b =
      chain (make_server_config c k rcgen rustls certificate_keypair b.keypair b.keylog) λ crypto.
        chain (or_err (listen (server_config crypto) b.bind_addr) bind_error)
          λ listen_addr. ok (started b crypto listen_addr)
