-- ===== src/Provider/Service/Spawned.antt =====
-- `Builder::spawn` and `Provider::ticket` of src/provider.rs with `make_client_config` of src/tls.rs.
use sendme.Base.{◌≡◌, refl, Bool, some, List, [], ◌∷◌}
use sendme.Base.Bytes.{Byte}
use sendme.Io.{ok}
use sendme.Util.{Hash}
use sendme.Tls.{passed, Crypto}
use sendme.Tls.Keypair.{Keypair, KeyCrates}
use sendme.Tls.Verifier.{verify_server_cert}
use sendme.Tls.Generated.{IsLawful}
use sendme.Tls.Config.{Rcgen, Rustls, TlsConfig, make_client_config}
use sendme.Tls.Configured.{Certifies, Builds, configs_meet}
use sendme.Provider.Service.{
  Builder, Provider, Listen, ServerConfig, server_config, started, spawn, ticket, provider_peer_id,
}

module _ {K Address : Type 0} (c : Crypto) (k : KeyCrates) (rcgen : Rcgen K) (rustls : Rustls)
    (certifies : Certifies c rcgen) (builds : Builds rustls) (listen : Listen Address) where
  -- Where the endpoint can listen, a provider is spawned whose ticket for a hash has that hash, the
  -- address that the endpoint listens on, and the token that the service checks; and a client that is
  -- configured for the peer of the ticket accepts the certificate that the service presents. (rcgen
  -- and rustls do as documented, and so do the encodings and the identities' signatures.)
  pub spawn-ticket :
      (own own' : K) (b : Builder Address) (client : Keypair) (addr : Address) (hash : Hash)
      (keylog : Bool)
      → IsLawful c (k.sign b.keypair) b.keypair.public
      → IsLawful c (k.sign client) client.public
      → ((config : ServerConfig) → listen config b.bind_addr ≡ some addr)
      → (p : Provider Address) × (t : TlsConfig) × (der : List Byte) × (spawn c k rcgen rustls
            listen
            (some own)
            b
          ≡ ok p)
        × (ticket p hash ≡ record {
          hash = hash;
          peer = record { key = b.keypair.public };
          addr = addr;
          token = p.task.auth_token;
        })
        × (p.task.db ≡ b.db)
        × (make_client_config c k rcgen rustls (some own') client (some (ticket p hash).peer) keylog
            ≡ ok t)
        × (p.task.config.crypto.cert_chain ≡ der ∷ [])
        × (verify_server_cert c t.verifier.remote_peer_id der [] ≡ passed tt)
  unfolding spawn ticket provider_peer_id
  spawn-ticket own own' b client addr hash keylog law law' listens =
      let (s, t, der, der', made, made', chain_s, _, accepts, _, _, _, _, _) =
        configs_meet c k rcgen rustls certifies builds own own' b.keypair client
          (some (record { key = b.keypair.public })) b.keylog keylog law law' in
      (
        started b s addr,
        t,
        der,
        rw (made, listens (server_config s)) refl,
        refl,
        refl,
        made',
        chain_s,
        accepts.1 refl,
      )
