-- ===== src/Tests/Identity.antt =====
-- The theorems on identities at a concrete certificate, with signatures that repeat what they sign.
use sendme.Base.{◌≡◌, refl, true, Option, none, some, List, [], ◌∷◌, ◌++◌, length, take, drop}
use sendme.Base.{take-append, drop-append, replicate}
use sendme.Base.Bytes.{Byte}
use sendme.Base.Tests.{bytes_eq, bytes_eq_refl}
use sendme.Tls.{PublicKey, Signature, passed, Registry, X509, Crypto, ecdsa_nistp256_sha256}
use sendme.Tls.{ecdsa_p256_sha256_asn1}
use sendme.Tls.PeerId.{PeerId}
use sendme.Tls.Certificate.{P2pCertificate, p2p_signing_prefix, p2p_ext_oid, make_libp2p_extension}
use sendme.Tls.Certificate.{
  parse_unverified, scan_extensions, read_extension, signature_scheme, peer_id,
}
use sendme.Tls.Certificate.{parse, verify, verify_signature, public_key, verification_algorithm}
use sendme.Tls.{VerificationAlgorithm}
use sendme.Tls.Accepted.{verify_tls13_signature-ok}
use sendme.Tls.Verifier.{
  verify_tls13_signature, of_parse_error, of_verification_error, verify_server_cert,
}
use sendme.Tls.Accepted.{IsProven, verify_server_cert-ok}
use sendme.Tls.Generated.{IsLawful, IsGenerated, verify_server_cert-generated}

abbrev pub registry : Registry
registry = record {
  key_type_ec_public_key = 1 ∷ [];
  ec_p256 = 2 ∷ [];
  nist_ec_p384 = 3 ∷ [];
  nist_ec_p521 = 4 ∷ [];
  sig_ecdsa_with_sha256 = 5 ∷ [];
  sig_ecdsa_with_sha384 = 6 ∷ [];
  sig_ecdsa_with_sha512 = 7 ∷ [];
  sig_ed25519 = 8 ∷ [];
  sig_ed448 = 9 ∷ [];
}

abbrev identity : PublicKey
identity = record { bytes = replicate 32 4 }

abbrev sign : List Byte → Signature
sign message = record { bytes = identity.bytes ++ message }

abbrev pub signed_key_parts : List Byte → Option (List Byte × List Byte)
signed_key_parts [] = none
signed_key_parts (n ∷ l) = some (take n l, drop n l)

abbrev pub signed_key_bytes : List Byte → List Byte → List Byte
signed_key_bytes key signature = length key ∷ key ++ signature

-- The certificate whose own key is the byte 3.
abbrev cert : X509
cert = record {
  extensions =
      record {
        oid = p2p_ext_oid;
        value = signed_key_bytes identity.bytes (sign (p2p_signing_prefix ++ 3 ∷ [])).bytes;
        critical = true;
      }
      ∷ [];
  is_valid = true;
  signature_algorithm = 5 ∷ [];
  pki_algorithm = 1 ∷ [];
  pki_parameters = some (some (2 ∷ []));
  tbs_certificate = 1 ∷ [];
  signature_value = 1 ∷ [];
  subject_public_key = 2 ∷ [];
  subject_pki_raw = 3 ∷ [];
}

abbrev crypto : Crypto
crypto = record {
  registry = registry;
  x509_from_der = λ der. some cert;
  signed_key_from_der = signed_key_parts;
  signed_key_to_vec = signed_key_bytes;
  public_key_from_bytes = λ l. some (record { bytes = l });
  signature_from_bytes = λ l. some (record { bytes = l });
  verify_strictly = λ key message s. bytes_eq s.bytes (key.bytes ++ message);
  verify_unparsed = λ algorithm key message s. bytes_eq s message;
}

pub signed_key_parts-signed_key_bytes :
    (key signature : List Byte)
    → signed_key_parts (signed_key_bytes key signature) ≡ some (key, signature)
signed_key_parts-signed_key_bytes key signature =
    rw (take-append (length key) key signature refl, drop-append (length key) key signature refl)
      refl

crypto-IsLawful : IsLawful crypto sign identity
crypto-IsLawful = record {
  signed_keys = signed_key_parts-signed_key_bytes;
  keys = refl;
  signatures = λ s. refl;
  signs = λ message. bytes_eq_refl (identity.bytes ++ message);
}

cert-IsGenerated : IsGenerated crypto sign identity (0 ∷ []) cert
unfolding make_libp2p_extension signature_scheme bytes_eq
cert-IsGenerated = record {
  parses = refl;
  extended = refl;
  valid = refl;
  scheme = ecdsa_nistp256_sha256;
  algorithm = ecdsa_p256_sha256_asn1;
  chosen = refl;
  allowed = refl;
  self_signed = refl;
}

abbrev peer : PeerId
peer = record { key = identity }

accepted : verify_server_cert crypto (some peer) (0 ∷ []) [] ≡ passed tt
accepted =
    (verify_server_cert-generated crypto sign identity crypto-IsLawful (0 ∷ []) cert
      cert-IsGenerated).0

verify_server_cert-ok_example :
    (◌≡◌ {A = List (List Byte)} [] [])
    × (cert : P2pCertificate) × (parse_unverified crypto (0 ∷ []) ≡ passed cert)
    × IsProven crypto cert
    × (peer_id cert ≡ peer)
verify_server_cert-ok_example = verify_server_cert-ok crypto peer (0 ∷ []) [] accepted

abbrev parsed_cert : P2pCertificate
parsed_cert = record {
  certificate = cert;
  extension = record { public_key = identity; signature = sign (p2p_signing_prefix ++ 3 ∷ []) };
}

tls13_accepted :
    verify_tls13_signature crypto (0 ∷ []) ecdsa_nistp256_sha256 (6 ∷ []) (6 ∷ []) ≡ passed tt
unfolding verify_tls13_signature of_parse_error of_verification_error parse parse_unverified
    scan_extensions read_extension verify verify_signature public_key signature_scheme bytes_eq
tls13_accepted = refl

verify_tls13_signature-ok_example :
    (cert : P2pCertificate) × (algorithm : VerificationAlgorithm) × (parse_unverified crypto
        (0 ∷ [])
      ≡ passed cert)
    × IsProven crypto cert
    × (signature_scheme crypto cert.certificate ≡ passed ecdsa_nistp256_sha256)
    × (verification_algorithm crypto ecdsa_nistp256_sha256 ≡ passed algorithm)
    × (crypto.verify_unparsed algorithm cert.certificate.subject_public_key (6 ∷ []) (6 ∷ [])
        ≡ true)
verify_tls13_signature-ok_example =
    verify_tls13_signature-ok crypto (0 ∷ []) ecdsa_nistp256_sha256 (6 ∷ []) (6 ∷ []) tls13_accepted
