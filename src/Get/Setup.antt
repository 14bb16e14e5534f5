-- ===== src/Get/Setup.antt =====
-- `Options` and `setup` of src/get.rs, and `run` with the connection that `setup` makes. The endpoint
-- of quinn is a parameter; the generated key pairs are arguments.
use sendme.Base.{
  ℕ, ◌≡◌, ◌≢◌, refl, ap, sym, ◌∙◌, Bool, false, Option, none, some, List, [], inl, inr,
}
use mathlib.Core.Path.{subst}
use sendme.Base.Bytes.{Byte}
use sendme.Io.{
  Io, Outcome, ok, chain, or_err, or_err-eq-ok, lift, ◌>>=◌, >>=-ok, bind_error, connect_error,
  Outcome-cases, chain-eq-ok,
}
use sendme.Stream.{Reader}
use sendme.Sink.{Writer}
use sendme.Util.{Hash}
use sendme.Protocol.Codec.{AuthToken}
use sendme.Tls.{Crypto, passed}
use sendme.Tls.PeerId.{PeerId}
use sendme.Tls.Keypair.{Keypair, KeyCrates}
use sendme.Tls.Config.{Rcgen, Rustls, TlsConfig, make_client_config, make_client_config_verifier}
use sendme.Tls.Certificate.{P2pCertificate, parse_unverified, peer_id}
use sendme.Tls.Verifier.{verify_server_cert}
use sendme.Tls.Accepted.{IsProven, verify_server_cert-ok}
use sendme.Env.{Env}
use sendme.Get.{Decoding, Callbacks, run}

pub record Options (Address : Type 0) : Type 0 where
  pub addr : Address
  pub peer_id : Option PeerId
  pub keylog : Bool

-- `Options::default`, with "127.0.0.1:4433"
abbrev pub default_options : {Address : Type 0} → Address → Options Address
default_options addr = record { addr = addr; peer_id = none; keylog = false }

-- What `setup` sets of quinn's `ClientConfig`; the interval is in seconds.
pub record ClientConfig : Type 0 where
  pub crypto : TlsConfig
  pub keep_alive_interval : Option ℕ

-- quinn, with `C` for its connections; `none` is an error.
pub record Quinn (Address C : Type 0) : Type 0 where
  -- "0.0.0.0:0"
  pub unspecified : Address
  -- `Endpoint::client`
  pub client : Address → Option (Unit {0})
  -- `connect` to the address and the server name "localhost", awaited
  pub connect : Address → ClientConfig → Option C
  -- the sending half of `open_bi`, and what arrives on the other for the bytes that were sent
  pub open_bi : C → Option Writer
  pub answer : C → List Byte → Reader
  -- the certificates that the server presented in the handshake: its own, and the others
  pub end_entity : C → List Byte
  pub intermediates : C → List (List Byte)

module _ {K Address C : Type 0} (c : Crypto) (k : KeyCrates) (rcgen : Rcgen K) (rustls : Rustls)
    (quinn : Quinn Address C) where
  -- The client's part of `setup` after the TLS configuration.
  abbrev pub dial : Address → TlsConfig → Outcome C
  dial addr crypto = chain (or_err (quinn.client quinn.unspecified) bind_error) λ _.
      or_err (quinn.connect addr (record { crypto = crypto; keep_alive_interval = some 1 }))
        connect_error

  unfoldable pub setup : Keypair → Option K → Options Address → Outcome C
  unfolding make_client_config
  setup keypair certificate_keypair opts =
      chain
        (make_client_config c k rcgen rustls certificate_keypair keypair opts.peer_id opts.keylog)
        (dial opts.addr)

  module _ {D U : Type 0} (env : Env) (dec : Decoding D) (callbacks : Callbacks D U) where
    -- `run`
    unfoldable pub run_with : Keypair → Option K → Options Address → Hash → AuthToken → Io U ℕ
    run_with keypair certificate_keypair opts hash auth_token = do
      connection ← lift (setup keypair certificate_keypair opts)
      run env dec callbacks (or_err (quinn.open_bi connection) connect_error)
          (quinn.answer connection) hash auth_token

  module _ {D U : Type 0} (env : Env) (dec : Decoding D) (callbacks : Callbacks D U) where
    -- With a connection and a stream on it, `run` is what it does on that stream.
    pub run_with_connected :
        (keypair : Keypair) (own : Option K) (opts : Options Address) (hash : Hash)
        (token : AuthToken) (user : U) (conn : C) (w : Writer)
        → setup keypair own opts ≡ ok conn
        → quinn.open_bi conn ≡ some w
        → run_with env dec callbacks keypair own opts hash token user
          ≡ run env dec callbacks (ok w) (quinn.answer conn) hash token user
    unfolding run_with
    run_with_connected keypair own opts hash token user conn w made opened =
        >>=-ok (lift (setup keypair own opts)) _ user made
        ∙ ap (λ (r : Outcome Writer). run env dec callbacks r (quinn.answer conn) hash token user)
            (ap (λ o. or_err o connect_error) opened)

  -- What rustls' documentation says of a connection: the server's certificates passed the verifier.
  abbrev pub Verified : Type 0
  Verified =
      (addr : Address) (cfg : ClientConfig) (conn : C)
      → quinn.connect addr cfg ≡ some conn
      → verify_server_cert c cfg.crypto.verifier.remote_peer_id (quinn.end_entity conn)
          (quinn.intermediates conn)
        ≡ passed tt

  setup_verified :
      (keypair : Keypair) (own : Option K) (opts : Options Address) (conn : C)
      → Verified
      → setup keypair own opts ≡ ok conn
      → verify_server_cert c opts.peer_id (quinn.end_entity conn) (quinn.intermediates conn)
        ≡ passed tt
  unfolding setup make_client_config
  setup_verified keypair own opts conn verified e =
      let (crypto, made, dialled) =
        chain-eq-ok (make_client_config c k rcgen rustls own keypair opts.peer_id opts.keylog)
          (dial opts.addr) e in
      let cfg : ClientConfig = record { crypto = crypto; keep_alive_interval = some 1 } in
      let (_, _, connected) =
        chain-eq-ok (or_err (quinn.client quinn.unspecified) bind_error)
          (λ _. or_err (quinn.connect opts.addr cfg) connect_error) dialled in
      let peer =
        make_client_config_verifier c k rcgen rustls own keypair opts.peer_id opts.keylog made in
      subst
        (λ (p : Option PeerId).
          verify_server_cert c p (quinn.end_entity conn) (quinn.intermediates conn) ≡ passed tt)
        peer
        (verified opts.addr cfg conn
          (or_err-eq-ok (quinn.connect opts.addr cfg) connect_error connected))

  module _ {D U : Type 0} (env : Env) (dec : Decoding D) (callbacks : Callbacks D U) where
    -- If `run` for a peer has called its caller in a way that changed the caller's state, then the
    -- connection is to a server that presented a single certificate, which passes all checks of
    -- `verify` and has the key of that peer. (A connection is made only to a server whose certificates
    -- passed the verifier.)
    pub run_with_authenticated :
        (keypair : Keypair) (own : Option K) (opts : Options Address) (peer : PeerId) (hash : Hash)
        (token : AuthToken) (user : U)
        → Verified
        → opts.peer_id ≡ some peer
        → (run_with env dec callbacks keypair own opts hash token user).1 ≢ user
        → (conn : C) × (setup keypair own opts ≡ ok conn)
          × (quinn.intermediates conn ≡ [])
          × (cert : P2pCertificate) × (parse_unverified c (quinn.end_entity conn) ≡ passed cert)
          × IsProven c cert
          × (peer_id cert ≡ peer)
    unfolding run_with
    run_with_authenticated keypair own opts peer hash token user verified asks changed =
        elim (Outcome-cases (setup keypair own opts)) [
          | inl (conn, made) ↦
              let accepted =
                ap (λ p. verify_server_cert c p (quinn.end_entity conn) (quinn.intermediates conn))
                  (sym asks)
                ∙ setup_verified keypair own opts conn verified made in
              let (alone, cert, parsed, proven, same) =
                verify_server_cert-ok c peer (quinn.end_entity conn) (quinn.intermediates conn)
                  accepted in
              (conn, made, alone, cert, parsed, proven, same)
          | inr (inl (e, refused)) ↦ absurd (changed (rw refused refl))
          | inr (inr panicked) ↦ absurd (changed (rw panicked refl))
        ]
