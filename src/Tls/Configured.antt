-- ===== src/Tls/Configured.antt =====
-- The client's and the server's configuration of src/tls.rs against each other.
use sendme.Base.{
  ◌≡◌, ◌↔◌, refl, ◌∙◌, sym, Bool, true, false, Option, none, some, List, [], ◌∷◌, bytes_eq_refl,
  bytes_eq_iff, bytes_eq_sound,
}
use sendme.Base.Bytes.{Byte}
use sendme.Base.Tests.{bytes_eq}
use sendme.Io.{ok}
use sendme.Tls.{
  PublicKey, Signature, passed, Extension, X509, Crypto, ecdsa_nistp256_sha256,
  ecdsa_p256_sha256_asn1, check, check-eq-passed, ◌>>◌,
}
use sendme.Tls.PeerId.{PeerId}
use sendme.Tls.Keypair.{Keypair, KeyCrates}
use sendme.Tls.Certificate.{signature_scheme, make_libp2p_extension}
use sendme.Tls.Verifier.{
  verify_server_cert, verify_client_cert, verify_presented_certs, wrong_peer_id,
}
use sendme.Tls.Generated.{IsLawful, IsGenerated, verify_server_cert-generated, parse-made}
use sendme.Tls.Config.{
  CertificateParams, Rcgen, Rustls, TlsConfig, p2p_signature_algorithm, ciphersuites,
  protocol_versions, generate, config, new_verifier, with_remote_peer_id, tls13, make_client_config,
  make_server_config,
}

-- What rcgen's documentation says of a certificate that it makes with the algorithm of the code: it has
-- the given extensions and the public key of the key pair, is valid, and is signed with that key.
pub record IsCertified (c : Crypto) {K : Type 0} (rcgen : Rcgen K) (params : CertificateParams K)
    (der : List Byte) (cert : X509) : Type 0 where
  pub made : rcgen.certificate params ≡ some der
  pub parses : c.x509_from_der der ≡ some cert
  pub extensions : cert.extensions ≡ params.custom_extensions
  pub own_key : cert.subject_pki_raw ≡ rcgen.public_key_der params.key_pair
  pub valid : cert.is_valid ≡ true
  pub pki_algorithm : cert.pki_algorithm ≡ c.registry.key_type_ec_public_key
  pub pki_parameters : cert.pki_parameters ≡ some (some c.registry.ec_p256)
  pub signature_algorithm : cert.signature_algorithm ≡ c.registry.sig_ecdsa_with_sha256
  pub self_signed :
      c.verify_unparsed ecdsa_p256_sha256_asn1 cert.subject_public_key cert.tbs_certificate
        cert.signature_value
      ≡ true

-- The parameters that the code makes.
abbrev pub params_of : {K : Type 0} → Extension → K → CertificateParams K
params_of extension own = record {
  custom_extensions = extension ∷ [];
  alg = p2p_signature_algorithm;
  key_pair = own;
}

abbrev pub Certifies : {K : Type 0} → Crypto → Rcgen K → Type 0
Certifies {K} c rcgen =
    (extension : Extension) (own : K)
    → (der : List Byte) × (cert : X509) × IsCertified c rcgen (params_of extension own) der cert

-- The builders of rustls accept the constants, and every certificate with its key.
pub record Builds (rustls : Rustls) : Type 0 where
  pub versions : rustls.with_protocol_versions ciphersuites protocol_versions ≡ true
  pub certificates :
      (certificate key : List Byte) → rustls.with_single_cert (certificate ∷ []) key ≡ true

-- The peer that a client asks for, if any, has this key.
abbrev pub AsksFor : Option PeerId → PublicKey → Type 0
AsksFor none key = Unit
AsksFor (some p) key = p.key.bytes ≡ key.bytes

module _ {K : Type 0} (c : Crypto) (k : KeyCrates) (rcgen : Rcgen K)
    (certifies : Certifies c rcgen) where
  p256_scheme :
      (params : CertificateParams K) (der : List Byte) (cert : X509)
      → IsCertified c rcgen params der cert
      → signature_scheme c cert ≡ passed ecdsa_nistp256_sha256
  unfolding signature_scheme
  p256_scheme params der cert g =
      rw
        (
          g.pki_algorithm,
          g.pki_parameters,
          g.signature_algorithm,
          bytes_eq_refl c.registry.key_type_ec_public_key,
          bytes_eq_refl c.registry.ec_p256,
          bytes_eq_refl c.registry.sig_ecdsa_with_sha256,
        )
        refl

  -- `generate` gives a certificate that carries the identity.
  generate-IsGenerated :
      (own : K) (keypair : Keypair)
      → (der : List Byte) × (cert : X509) × (generate c k rcgen (some own) keypair
          ≡ ok (der, rcgen.serialize_der own))
        × IsGenerated c (k.sign keypair) keypair.public der cert
  unfolding generate
  generate-IsGenerated own keypair =
      let extension =
        make_libp2p_extension c (k.sign keypair) keypair.public (rcgen.public_key_der own) in
      let params = params_of extension own in
      let (der, cert, g) = certifies extension own in
      (
        der,
        cert,
        rw g.made refl,
        record {
          parses = g.parses;
          extended = rw g.own_key g.extensions;
          valid = g.valid;
          scheme = ecdsa_nistp256_sha256;
          algorithm = ecdsa_p256_sha256_asn1;
          chosen = p256_scheme params der cert g;
          allowed = refl;
          self_signed = g.self_signed;
        },
      )

check_last : {E : Type 0} (b : Bool) (e : E) → (check b e >> passed tt) ≡ check b e
check_last true e = refl
check_last false e = refl

-- Which clients accept a certificate that carries an identity.
verify_server_cert_iff :
    (c : Crypto) (sign : List Byte → Signature) (identity : PublicKey) (remote : Option PeerId)
    (der : List Byte) (cert : X509)
    → IsLawful c sign identity
    → IsGenerated c sign identity der cert
    → (verify_server_cert c remote der [] ≡ passed tt) ↔ AsksFor remote identity
unfolding verify_server_cert verify_presented_certs
verify_server_cert_iff c sign identity none der cert law g =
    (λ _. tt, λ _. rw (parse-made c sign identity law der cert g) refl)
verify_server_cert_iff c sign identity (some p) der cert law g =
    let whole : verify_server_cert c (some p) der []
        ≡ (check (bytes_eq p.key.bytes identity.bytes) wrong_peer_id) =
      rw (parse-made c sign identity law der cert g)
        (check_last (bytes_eq p.key.bytes identity.bytes) wrong_peer_id) in
    (
      λ e.
          bytes_eq_sound p.key.bytes identity.bytes
            (check-eq-passed (bytes_eq p.key.bytes identity.bytes) wrong_peer_id (sym whole ∙ e)),
      λ e. whole ∙ rw ((bytes_eq_iff p.key.bytes identity.bytes).1 e) refl,
    )

module _ {K : Type 0} (c : Crypto) (k : KeyCrates) (rcgen : Rcgen K) (rustls : Rustls)
    (certifies : Certifies c rcgen) (builds : Builds rustls) where
  -- A client and a server can be configured with any identities, and then the server presents one
  -- certificate, which the client accepts exactly if it asks for no peer or for the server's identity;
  -- the client presents one certificate, which the server accepts; and both allow the same cipher
  -- suites, TLS versions and protocol, of which versions there is only TLS 1.3. (rcgen and rustls do
  -- as documented, and so do the encodings and both identities' signatures.)
  pub configs_meet :
      (own own' : K) (server client : Keypair) (remote : Option PeerId) (keylog keylog' : Bool)
      → IsLawful c (k.sign server) server.public
      → IsLawful c (k.sign client) client.public
      → (s : TlsConfig) × (t : TlsConfig) × (der : List Byte) × (der' : List Byte)
        × (make_server_config c k rcgen rustls (some own) server keylog ≡ ok s)
        × (make_client_config c k rcgen rustls (some own') client remote keylog' ≡ ok t)
        × (s.cert_chain ≡ der ∷ [])
        × (t.cert_chain ≡ der' ∷ [])
        × ((verify_server_cert c t.verifier.remote_peer_id der [] ≡ passed tt)
            ↔ AsksFor remote server.public)
        × (verify_client_cert c der' [] ≡ passed tt)
        × (t.cipher_suites ≡ s.cipher_suites)
        × (t.alpn_protocols ≡ s.alpn_protocols)
        × (t.versions ≡ tls13 ∷ [])
        × (s.versions ≡ tls13 ∷ [])
  unfolding make_server_config make_client_config
  configs_meet own own' server client remote keylog keylog' law law' =
      let (der, cert, made, g) = generate-IsGenerated c k rcgen certifies own server in
      let (der', cert', made', g') = generate-IsGenerated c k rcgen certifies own' client in
      let key = rcgen.serialize_der own in
      let key' = rcgen.serialize_der own' in
      (
        config new_verifier der key keylog,
        config (with_remote_peer_id remote) der' key' keylog',
        der,
        der',
        rw (made, builds.versions, builds.certificates der key) refl,
        rw (made', builds.versions, builds.certificates der' key') refl,
        refl,
        refl,
        verify_server_cert_iff c (k.sign server) server.public remote der cert law g,
        (verify_server_cert-generated c (k.sign client) client.public law' der' cert' g').1,
        refl,
        refl,
        refl,
        refl,
      )
