-- ===== src/Tls/Certificate.antt =====
-- src/tls/certificate.rs: the libp2p extension of a certificate, and the checks that `parse` makes.
use sendme.Base.{ℕ, Bool, true, false, ◌&&◌, Option, none, some, List, [], ◌∷◌, ◌++◌, bytes_eq}
use sendme.Base.{if◌then◌else◌}
use sendme.Base.Bytes.{Byte}
use sendme.Tls.{
  PublicKey, Signature, WebpkiError, Checked, passed, failed, ◌>>=◌, ◌>>◌, or_fail, map_failure,
  check,
}
use sendme.Tls.{bad_der, extension_value_invalid, unknown_issuer, unsupported_critical_extension}
use sendme.Tls.{unsupported_signature_algorithm, unsupported_signature_algorithm_for_public_key}
use sendme.Tls.{
  invalid_signature_for_public_key, invalid_cert_validity, signature_algorithm_mismatch,
}
use sendme.Tls.{SignatureScheme, scheme_eq, rsa_pkcs1_sha1, ecdsa_sha1_legacy, rsa_pkcs1_sha256}
use sendme.Tls.{rsa_pkcs1_sha384, rsa_pkcs1_sha512, ecdsa_nistp256_sha256, ecdsa_nistp384_sha384}
use sendme.Tls.{
  ecdsa_nistp521_sha512, rsa_pss_sha256, rsa_pss_sha384, rsa_pss_sha512, ed25519, ed448,
}
use sendme.Tls.{unknown, Extension, X509, VerificationAlgorithm, ecdsa_p256_sha256_asn1}
use sendme.Tls.{ecdsa_p384_sha384_asn1, ed25519_verification, Crypto}
use sendme.Tls.PeerId.{PeerId}

-- P2P_EXT_OID
abbrev pub p2p_ext_oid : List ℕ
p2p_ext_oid = 1 ∷ 3 ∷ 6 ∷ 1 ∷ 4 ∷ 1 ∷ 53594 ∷ 1 ∷ 1 ∷ []

-- P2P_SIGNING_PREFIX, "libp2p-tls-handshake:"
abbrev pub p2p_signing_prefix : List Byte
p2p_signing_prefix =
    b'l' ∷ b'i' ∷ b'b' ∷ b'p' ∷ b'2' ∷ b'p' ∷ b'-' ∷ b't' ∷ b'l' ∷ b's' ∷ b'-' ∷ b'h' ∷ b'a' ∷ b'n'
    ∷ b'd' ∷ b's' ∷ b'h' ∷ b'a' ∷ b'k' ∷ b'e' ∷ b':' ∷ []

pub record P2pExtension : Type 0 where
  pub public_key : PublicKey
  pub signature : Signature

pub record P2pCertificate : Type 0 where
  pub certificate : X509
  pub extension : P2pExtension

-- `P2pCertificate::peer_id`
abbrev pub peer_id : P2pCertificate → PeerId
peer_id cert = record { key = cert.extension.public_key }

abbrev pub is_some : {A : Type 0} → Option A → Bool
is_some none = false
is_some (some _) = true

abbrev pub is_p2p : Extension → Bool
is_p2p ext = bytes_eq ext.oid p2p_ext_oid

module _ (c : Crypto) where
  -- The value of the libp2p extension.
  unfoldable pub read_extension : List Byte → Checked WebpkiError P2pExtension
  read_extension value = do
    signed_key ← or_fail (c.signed_key_from_der value) extension_value_invalid
    public_key ← or_fail (c.public_key_from_bytes signed_key.0) unknown_issuer
    signature ← or_fail (c.signature_from_bytes signed_key.1) unknown_issuer
    passed (record { public_key = public_key; signature = signature })

  -- The loop over the extensions.
  unfoldable pub scan_extensions :
      Option P2pExtension → List Extension → Checked WebpkiError (Option P2pExtension)
  scan_extensions libp2p_extension [] = passed libp2p_extension
  scan_extensions libp2p_extension (ext ∷ exts) =
      let rest = scan_extensions libp2p_extension exts in
      if is_p2p ext
      then if is_some libp2p_extension
        then failed bad_der
        else (do e ← read_extension ext.value; scan_extensions (some e) exts)
      else if ext.critical
      then failed unsupported_critical_extension
      else rest

  unfoldable pub parse_unverified : List Byte → Checked WebpkiError P2pCertificate
  unfolding scan_extensions
  parse_unverified der_input = do
    x509 ← or_fail (c.x509_from_der der_input) bad_der
    libp2p_extension ← scan_extensions none x509.extensions
    extension ← or_fail libp2p_extension bad_der
    passed (record { certificate = x509; extension = extension })

  -- The branch of `signature_scheme` for a key on an elliptic curve.
  abbrev pub ec_scheme : List ℕ → List ℕ → Checked WebpkiError SignatureScheme
  ec_scheme signature_param algorithm =
      if bytes_eq signature_param c.registry.ec_p256
        && bytes_eq algorithm c.registry.sig_ecdsa_with_sha256
      then passed ecdsa_nistp256_sha256
      else if bytes_eq signature_param c.registry.nist_ec_p384
          && bytes_eq algorithm c.registry.sig_ecdsa_with_sha384
      then passed ecdsa_nistp384_sha384
      else if bytes_eq signature_param c.registry.nist_ec_p521
          && bytes_eq algorithm c.registry.sig_ecdsa_with_sha512
      then passed ecdsa_nistp521_sha512
      else failed unsupported_signature_algorithm

  unfoldable pub signature_scheme : X509 → Checked WebpkiError SignatureScheme
  signature_scheme cert =
      if bytes_eq cert.pki_algorithm c.registry.key_type_ec_public_key
      then (do
        parameters ← or_fail cert.pki_parameters bad_der
        signature_param ← or_fail parameters bad_der
        ec_scheme signature_param cert.signature_algorithm)
      else if bytes_eq cert.signature_algorithm c.registry.sig_ed25519
      then passed ed25519
      else if bytes_eq cert.signature_algorithm c.registry.sig_ed448
      then passed ed448
      else failed unsupported_signature_algorithm

  abbrev pub verification_algorithm : SignatureScheme → Checked WebpkiError VerificationAlgorithm
  verification_algorithm ecdsa_nistp256_sha256 = passed ecdsa_p256_sha256_asn1
  verification_algorithm ecdsa_nistp384_sha384 = passed ecdsa_p384_sha384_asn1
  verification_algorithm ecdsa_nistp521_sha512 = failed unsupported_signature_algorithm
  verification_algorithm ed25519 = passed ed25519_verification
  verification_algorithm ed448 = failed unsupported_signature_algorithm
  verification_algorithm rsa_pkcs1_sha256 = failed unsupported_signature_algorithm
  verification_algorithm rsa_pkcs1_sha384 = failed unsupported_signature_algorithm
  verification_algorithm rsa_pkcs1_sha512 = failed unsupported_signature_algorithm
  verification_algorithm rsa_pss_sha256 = failed unsupported_signature_algorithm
  verification_algorithm rsa_pss_sha384 = failed unsupported_signature_algorithm
  verification_algorithm rsa_pss_sha512 = failed unsupported_signature_algorithm
  verification_algorithm rsa_pkcs1_sha1 = failed unsupported_signature_algorithm
  verification_algorithm ecdsa_sha1_legacy = failed unsupported_signature_algorithm
  verification_algorithm (unknown _) = failed unsupported_signature_algorithm

  -- `P2pCertificate::public_key`: the algorithm and the bytes of the `UnparsedPublicKey`
  unfoldable pub public_key :
      X509 → SignatureScheme → Checked WebpkiError (VerificationAlgorithm × List Byte)
  public_key cert scheme = do
    current ← signature_scheme cert
    check (scheme_eq scheme current) unsupported_signature_algorithm_for_public_key
    algorithm ← verification_algorithm scheme
    passed (algorithm, cert.subject_public_key)

  -- `P2pCertificate::verify_signature`
  unfoldable pub verify_signature :
      X509 → SignatureScheme → List Byte → List Byte → Checked WebpkiError (Unit {0})
  verify_signature cert scheme message signature = do
    pk ← public_key cert scheme
    check (c.verify_unparsed pk.0 pk.1 message signature) invalid_signature_for_public_key

  -- `P2pCertificate::verify`
  unfoldable pub verify : P2pCertificate → Checked WebpkiError (Unit {0})
  verify cert = do
    check cert.certificate.is_valid invalid_cert_validity
    scheme ← signature_scheme cert.certificate
    map_failure (λ _. signature_algorithm_mismatch)
        (verify_signature cert.certificate scheme cert.certificate.tbs_certificate
          cert.certificate.signature_value)
    check
        (c.verify_strictly cert.extension.public_key
          (p2p_signing_prefix ++ cert.certificate.subject_pki_raw) cert.extension.signature)
        unknown_issuer

  unfoldable pub parse : List Byte → Checked WebpkiError P2pCertificate
  parse der = do certificate ← parse_unverified der; verify certificate; passed certificate

  -- `make_libp2p_extension`, for the identity's public key and its function `sign`, and the public key
  -- of the certificate's own key pair in DER.
  unfoldable pub make_libp2p_extension :
      (sign : List Byte → Signature) → PublicKey → List Byte → Extension
  make_libp2p_extension sign identity public_key_der =
      let signature = sign (p2p_signing_prefix ++ public_key_der) in
      record {
        oid = p2p_ext_oid;
        value = c.signed_key_to_vec identity.bytes signature.bytes;
        critical = true;
      }
