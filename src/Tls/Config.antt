-- ===== src/Tls/Config.antt =====
-- The TLS configurations of src/tls.rs, with `generate` of src/tls/certificate.rs and the constants of
-- src/tls/verifier.rs. rcgen and rustls are parameters; `K` is rcgen's key pair of a certificate.
use sendme.Base.{◌≡◌, ap, arith, Bool, true, false, Option, none, List, [], ◌∷◌}
use sendme.Base.Bytes.{Byte}
use sendme.Io.{chain-eq-ok, Outcome, ok, panic, chain, or_err, gen_error}
use sendme.Tls.{Extension, Crypto}
use sendme.Tls.PeerId.{PeerId}
use sendme.Tls.Keypair.{Keypair, KeyCrates}
use sendme.Tls.Certificate.{make_libp2p_extension}

pub data CipherSuite : Type 0 where
  tls13_chacha20_poly1305_sha256 tls13_aes_256_gcm_sha384 tls13_aes_128_gcm_sha256 : CipherSuite

pub data ProtocolVersion : Type 0 where
  tls12 tls13 : ProtocolVersion

-- CIPHERSUITES
abbrev pub ciphersuites : List CipherSuite
ciphersuites =
    tls13_chacha20_poly1305_sha256 ∷ tls13_aes_256_gcm_sha384 ∷ tls13_aes_128_gcm_sha256 ∷ []

-- PROTOCOL_VERSIONS
abbrev pub protocol_versions : List ProtocolVersion
protocol_versions = tls13 ∷ []

-- P2P_ALPN, "n0/iroh/1"
abbrev pub p2p_alpn : List Byte
p2p_alpn = b'n' ∷ b'0' ∷ b'/' ∷ b'i' ∷ b'r' ∷ b'o' ∷ b'h' ∷ b'/' ∷ b'1' ∷ []

-- `rcgen::SignatureAlgorithm`
pub data CertificateAlgorithm : Type 0 where
  pkcs_ecdsa_p256_sha256 pkcs_ecdsa_p384_sha384 pkcs_ed25519 pkcs_rsa_sha256 : CertificateAlgorithm

-- P2P_SIGNATURE_ALGORITHM
abbrev pub p2p_signature_algorithm : CertificateAlgorithm
p2p_signature_algorithm = pkcs_ecdsa_p256_sha256

-- `rcgen::CertificateParams` without names.
pub record CertificateParams (K : Type 0) : Type 0 where
  pub custom_extensions : List Extension
  pub alg : CertificateAlgorithm
  pub key_pair : K

pub record Rcgen (K : Type 0) : Type 0 where
  pub serialize_der : K → List Byte
  pub public_key_der : K → List Byte
  -- `Certificate::from_params` and its `serialize_der`; `none` is an error
  pub certificate : CertificateParams K → Option (List Byte)

-- What the builders of rustls refuse.
pub record Rustls : Type 0 where
  pub with_protocol_versions : List CipherSuite → List ProtocolVersion → Bool
  pub with_single_cert : List (List Byte) → List Byte → Bool

-- `Libp2pCertificateVerifier`
pub record Libp2pCertificateVerifier : Type 0 where
  pub remote_peer_id : Option PeerId

-- `Libp2pCertificateVerifier::new` and `with_remote_peer_id`
abbrev pub new_verifier : Libp2pCertificateVerifier
new_verifier = record { remote_peer_id = none }

abbrev pub with_remote_peer_id : Option PeerId → Libp2pCertificateVerifier
with_remote_peer_id remote_peer_id = record { remote_peer_id = remote_peer_id }

-- What the code sets of `rustls::ClientConfig` and `rustls::ServerConfig`.
pub record TlsConfig : Type 0 where
  pub cipher_suites : List CipherSuite
  pub versions : List ProtocolVersion
  pub verifier : Libp2pCertificateVerifier
  pub cert_chain : List (List Byte)
  pub private_key : List Byte
  pub alpn_protocols : List (List Byte)
  pub key_log : Bool

abbrev pub config : Libp2pCertificateVerifier → List Byte → List Byte → Bool → TlsConfig
config verifier certificate private_key keylog = record {
  cipher_suites = ciphersuites;
  versions = protocol_versions;
  verifier = verifier;
  cert_chain = certificate ∷ [];
  private_key = private_key;
  alpn_protocols = p2p_alpn ∷ [];
  key_log = keylog;
}

module _ {K : Type 0} (c : Crypto) (k : KeyCrates) (rcgen : Rcgen K) where
  -- `certificate::generate`, with what `rcgen::KeyPair::generate` gives: the certificate and its key.
  unfoldable pub generate : Option K → Keypair → Outcome (List Byte × List Byte)
  generate certificate_keypair identity_keypair =
      chain (or_err certificate_keypair gen_error) λ own.
        let rustls_key = rcgen.serialize_der own in
        let extension =
          make_libp2p_extension c (k.sign identity_keypair) identity_keypair.public
            (rcgen.public_key_der own) in
        let params : CertificateParams K = record {
          custom_extensions = extension ∷ [];
          alg = p2p_signature_algorithm;
          key_pair = own;
        } in
        chain (or_err (rcgen.certificate params) gen_error)
          λ certificate. ok (certificate, rustls_key)

-- `.expect(..)` on what a builder returns
abbrev pub expect : {A : Type 0} → Bool → Outcome A → Outcome A
expect true r = r
expect false r = panic

module _ {K : Type 0} (c : Crypto) (k : KeyCrates) (rcgen : Rcgen K) (rustls : Rustls) where
  -- The builder's steps after `generate`, which are the same on both sides but for the verifier.
  abbrev pub build : Libp2pCertificateVerifier → Bool → List Byte × List Byte → Outcome TlsConfig
  build verifier keylog (certificate, private_key) =
      expect (rustls.with_protocol_versions ciphersuites protocol_versions) (
        expect (rustls.with_single_cert (certificate ∷ []) private_key)
          (ok (config verifier certificate private_key keylog)))

  -- `make_client_config`
  unfoldable pub make_client_config : Option K → Keypair → Option PeerId → Bool → Outcome TlsConfig
  unfolding generate
  make_client_config certificate_keypair keypair remote_peer_id keylog =
      chain (generate c k rcgen certificate_keypair keypair)
        (build (with_remote_peer_id remote_peer_id) keylog)

  -- `make_server_config`
  unfoldable pub make_server_config : Option K → Keypair → Bool → Outcome TlsConfig
  unfolding generate
  make_server_config certificate_keypair keypair keylog =
      chain (generate c k rcgen certificate_keypair keypair) (build new_verifier keylog)

  build_verifier :
      (verifier : Libp2pCertificateVerifier) (keylog : Bool) (pair : List Byte × List Byte)
      {crypto : TlsConfig}
      → build verifier keylog pair ≡ ok crypto
      → crypto.verifier ≡ verifier
  build_verifier verifier keylog (certificate, private_key) h = ground arith

  -- A client's configuration has the verifier for the peer that it was made for.
  pub make_client_config_verifier :
      (certificate_keypair : Option K) (keypair : Keypair) (remote_peer_id : Option PeerId)
      (keylog : Bool) {crypto : TlsConfig}
      → make_client_config certificate_keypair keypair remote_peer_id keylog ≡ ok crypto
      → crypto.verifier.remote_peer_id ≡ remote_peer_id
  unfolding make_client_config
  make_client_config_verifier certificate_keypair keypair remote_peer_id keylog h =
      let (pair, made, built) =
        chain-eq-ok (generate c k rcgen certificate_keypair keypair)
          (build (with_remote_peer_id remote_peer_id) keylog) h in
      ap (λ v. v.remote_peer_id)
        (build_verifier (with_remote_peer_id remote_peer_id) keylog pair built)
