-- ===== src/Tls/Generated.antt =====
-- A certificate made for an identity is accepted as that identity's.
use sendme.Base.{◌≡◌, refl, ap, ◌∙◌, true, none, some, List, [], ◌∷◌, ◌++◌, bytes_eq_refl}
use sendme.Base.{arith}
use sendme.Base.Bytes.{Byte}
use sendme.Base.Tests.{bytes_eq}
use sendme.Tls.{PublicKey, Signature, passed, SignatureScheme, scheme_eq, X509}
use sendme.Tls.{VerificationAlgorithm, Crypto}
use sendme.Tls.Certificate.{P2pExtension, p2p_signing_prefix, make_libp2p_extension}
use sendme.Tls.Certificate.{read_extension, scan_extensions, parse_unverified, signature_scheme}
use sendme.Tls.Certificate.{verification_algorithm, public_key, verify_signature, verify, parse}
use sendme.Tls.Verifier.{verify_presented_certs, verify_server_cert, verify_client_cert}

-- What the crates' documentation says of the encodings, and of an identity's signatures.
pub record IsLawful (c : Crypto) (sign : List Byte → Signature) (identity : PublicKey)
    : Type 0 where
  pub signed_keys :
      (key signature : List Byte)
      → c.signed_key_from_der (c.signed_key_to_vec key signature) ≡ some (key, signature)
  pub keys : c.public_key_from_bytes identity.bytes ≡ some identity
  pub signatures : (s : Signature) → c.signature_from_bytes s.bytes ≡ some s
  pub signs : (message : List Byte) → c.verify_strictly identity message (sign message) ≡ true

-- What `generate` makes of an identity by rcgen: a certificate whose one extension is the libp2p
-- extension for its own key, signed with that key by an allowed algorithm.
pub record IsGenerated (c : Crypto) (sign : List Byte → Signature) (identity : PublicKey)
    (der : List Byte) (cert : X509) : Type 0 where
  pub parses : c.x509_from_der der ≡ some cert
  pub extended : cert.extensions ≡ make_libp2p_extension c sign identity cert.subject_pki_raw ∷ []
  pub valid : cert.is_valid ≡ true
  pub scheme : SignatureScheme
  pub algorithm : VerificationAlgorithm
  pub chosen : signature_scheme c cert ≡ passed scheme
  pub allowed : verification_algorithm c scheme ≡ passed algorithm
  pub self_signed :
      c.verify_unparsed algorithm cert.subject_public_key cert.tbs_certificate cert.signature_value
      ≡ true

scheme_eq_refl : (s : SignatureScheme) → scheme_eq s s ≡ true
scheme_eq_refl s = ground arith

module _ (c : Crypto) (sign : List Byte → Signature) (identity : PublicKey)
    (law : IsLawful c sign identity) where
  abbrev pub extension_of : X509 → P2pExtension
  extension_of cert = record {
    public_key = identity;
    signature = sign (p2p_signing_prefix ++ cert.subject_pki_raw);
  }

  scan_extensions-made :
      (cert : X509)
      → scan_extensions c none (make_libp2p_extension c sign identity cert.subject_pki_raw ∷ [])
        ≡ passed (some (extension_of cert))
  unfolding scan_extensions make_libp2p_extension read_extension bytes_eq
  scan_extensions-made cert =
      let s = sign (p2p_signing_prefix ++ cert.subject_pki_raw) in
      rw (law.signed_keys identity.bytes s.bytes, law.keys, law.signatures s) refl

  parse_unverified-made :
      (der : List Byte) (cert : X509)
      → IsGenerated c sign identity der cert
      → parse_unverified c der
        ≡ passed (record { certificate = cert; extension = extension_of cert })
  unfolding parse_unverified
  parse_unverified-made der cert g =
      let scanned : scan_extensions c none cert.extensions ≡ passed (some (extension_of cert)) =
        ap (scan_extensions c none) g.extended ∙ scan_extensions-made cert in
      rw (g.parses, scanned) refl

  verify-made :
      (der : List Byte) (cert : X509)
      → IsGenerated c sign identity der cert
      → verify c (record { certificate = cert; extension = extension_of cert }) ≡ passed tt
  unfolding verify verify_signature public_key
  verify-made der cert g =
      rw (g.chosen, scheme_eq_refl g.scheme, g.allowed, g.self_signed, g.valid)
        (rw (law.signs (p2p_signing_prefix ++ cert.subject_pki_raw)) refl)

  pub parse-made :
      (der : List Byte) (cert : X509)
      → IsGenerated c sign identity der cert
      → parse c der ≡ passed (record { certificate = cert; extension = extension_of cert })
  unfolding parse
  parse-made der cert g = rw (parse_unverified-made der cert g, verify-made der cert g) refl

  -- A certificate that `generate` makes for an identity, presented alone, is accepted by a client that
  -- asks for that identity, and by a server, given that the encodings are read back, that the
  -- identity's signatures verify, and that the certificate is valid and signed with its own key.
  pub verify_server_cert-generated :
      (der : List Byte) (cert : X509)
      → IsGenerated c sign identity der cert
      → (verify_server_cert c (some (record { key = identity })) der [] ≡ passed tt)
        × (verify_client_cert c der [] ≡ passed tt)
  unfolding verify_server_cert verify_client_cert verify_presented_certs
  verify_server_cert-generated der cert g = (
    rw (parse-made der cert g, bytes_eq_refl identity.bytes) refl,
    rw (parse-made der cert g) refl,
  )
