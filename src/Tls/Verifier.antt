-- ===== src/Tls/Verifier.antt =====
-- src/tls/verifier.rs: the checks of a peer's certificate that rustls calls for.
use sendme.Base.{Bool, true, false, Option, none, some, List, [], ◌∷◌, bytes_eq}
use sendme.Base.Bytes.{Byte}
use sendme.Io.{Outcome, panic}
use sendme.Tls.{
  WebpkiError, Checked, passed, ◌>>=◌, ◌>>◌, map_failure, check, bad_der, SignatureScheme, Crypto,
}
use sendme.Tls.{invalid_signature_for_public_key, unsupported_signature_algorithm}
use sendme.Tls.{unsupported_signature_algorithm_for_public_key, ecdsa_nistp384_sha384}
use sendme.Tls.{ecdsa_nistp256_sha256, ed25519}
use sendme.Tls.PeerId.{PeerId}
use sendme.Tls.Certificate.{peer_id, parse, verify_signature}

-- `rustls::Error`, as far as the code makes one.
pub data RustlsError : Type 0 where
  invalid_certificate_encoding invalid_certificate_signature : RustlsError
  invalid_certificate_signature_type more_than_one_certificate wrong_peer_id : RustlsError
  invalid_certificate_data : WebpkiError → RustlsError

-- `From<ParseError>`
unfoldable pub of_parse_error : WebpkiError → RustlsError
of_parse_error e = elim e [
  | bad_der ↦ invalid_certificate_encoding
  | x ↦ invalid_certificate_data x
]

-- `From<VerificationError>`
unfoldable pub of_verification_error : WebpkiError → RustlsError
of_verification_error e = elim e [
  | invalid_signature_for_public_key ↦ invalid_certificate_signature
  | unsupported_signature_algorithm ↦ invalid_certificate_signature_type
  | unsupported_signature_algorithm_for_public_key ↦ invalid_certificate_signature_type
  | x ↦ invalid_certificate_data x
]

-- The derived `==` of `PeerId`
abbrev pub peer_id_eq : PeerId → PeerId → Bool
peer_id_eq a b = bytes_eq a.key.bytes b.key.bytes

-- `Libp2pCertificateVerifier::verification_schemes`
abbrev pub verification_schemes : List SignatureScheme
verification_schemes = ecdsa_nistp384_sha384 ∷ ecdsa_nistp256_sha256 ∷ ed25519 ∷ []

-- `supported_verify_schemes` of both traits
unfoldable pub supported_verify_schemes : List SignatureScheme
supported_verify_schemes = verification_schemes

-- `verify_tls12_signature` of both traits: unreachable!(..)
unfoldable pub verify_tls12_signature : List Byte → List Byte → List Byte → Outcome (Unit {0})
verify_tls12_signature message cert dss = panic

-- A server asks its clients for a certificate, and names no issuers.
abbrev pub offer_client_auth : Bool
offer_client_auth = true

abbrev pub client_auth_root_subjects : Option (List (List Byte))
client_auth_root_subjects = some []

abbrev pub is_empty : List (List Byte) → Bool
is_empty [] = true
is_empty (_ ∷ _) = false

module _ (c : Crypto) where
  unfoldable pub verify_presented_certs : List Byte → List (List Byte) → Checked RustlsError PeerId
  unfolding of_parse_error
  verify_presented_certs end_entity intermediates = do
    check (is_empty intermediates) more_than_one_certificate
    cert ← map_failure of_parse_error (parse c end_entity)
    passed (peer_id cert)

  -- if let Some(remote_peer_id) = self.remote_peer_id { if remote_peer_id != peer_id { return Err(..) } }
  abbrev pub check_peer_id : Option PeerId → PeerId → Checked RustlsError (Unit {0})
  check_peer_id none peer_id = passed tt
  check_peer_id (some remote_peer_id) peer_id =
      check (peer_id_eq remote_peer_id peer_id) wrong_peer_id

  unfoldable pub verify_server_cert :
      Option PeerId → List Byte → List (List Byte) → Checked RustlsError (Unit {0})
  verify_server_cert remote_peer_id end_entity intermediates = do
    peer_id ← verify_presented_certs end_entity intermediates
    check_peer_id remote_peer_id peer_id
    passed tt

  unfoldable pub verify_client_cert : List Byte → List (List Byte) → Checked RustlsError (Unit {0})
  verify_client_cert end_entity intermediates = do
    verify_presented_certs end_entity intermediates
    passed tt

  unfoldable pub verify_tls13_signature :
      List Byte → SignatureScheme → List Byte → List Byte → Checked RustlsError (Unit {0})
  unfolding of_parse_error of_verification_error
  verify_tls13_signature cert signature_scheme message signature = do
    parsed ← map_failure of_parse_error (parse c cert)
    map_failure of_verification_error
        (verify_signature c parsed.certificate signature_scheme message signature)
    passed tt
