-- ===== src/Tls/Schemes.antt =====
-- The signature schemes that the verifier of src/tls/verifier.rs offers to rustls, and those that
-- src/tls/certificate.rs verifies with.
use sendme.Base.{arith, ◌≡◌, refl, ap, ◌∙◌, Bool, true, false, List, [], ◌∷◌, if◌then◌else◌}
use sendme.Base.Bytes.{Byte}
use sendme.Tls.{
  WebpkiError, Checked, passed, failed, SignatureScheme, scheme_eq, VerificationAlgorithm, Crypto,
  ecdsa_nistp256_sha256, ecdsa_nistp384_sha384, ecdsa_nistp521_sha512, ed25519, ed448,
  rsa_pkcs1_sha256, rsa_pkcs1_sha384, rsa_pkcs1_sha512, rsa_pss_sha256, rsa_pss_sha384,
  rsa_pss_sha512, rsa_pkcs1_sha1, ecdsa_sha1_legacy, unknown,
}
use sendme.Tls.Certificate.{verification_algorithm}
use sendme.Tls.Verifier.{supported_verify_schemes, verify_tls13_signature}
use sendme.Tls.Accepted.{verify_tls13_signature-ok}

-- The scheme is on the list.
abbrev offers : List SignatureScheme → SignatureScheme → Bool
offers [] s = false
offers (x ∷ xs) s = if scheme_eq x s then true else offers xs s

abbrev is_passed : Checked WebpkiError VerificationAlgorithm → Bool
is_passed (passed a) = true
is_passed (failed e) = false

module _ (c : Crypto) where
  -- The verifier offers exactly the schemes that have an algorithm.
  pub offers-supported_verify_schemes :
      (s : SignatureScheme)
      → offers supported_verify_schemes s ≡ is_passed (verification_algorithm c s)
  unfolding supported_verify_schemes
  offers-supported_verify_schemes ecdsa_nistp256_sha256 = refl
  offers-supported_verify_schemes ecdsa_nistp384_sha384 = refl
  offers-supported_verify_schemes ecdsa_nistp521_sha512 = refl
  offers-supported_verify_schemes ed25519 = refl
  offers-supported_verify_schemes ed448 = refl
  offers-supported_verify_schemes rsa_pkcs1_sha256 = refl
  offers-supported_verify_schemes rsa_pkcs1_sha384 = refl
  offers-supported_verify_schemes rsa_pkcs1_sha512 = refl
  offers-supported_verify_schemes rsa_pss_sha256 = refl
  offers-supported_verify_schemes rsa_pss_sha384 = refl
  offers-supported_verify_schemes rsa_pss_sha512 = refl
  offers-supported_verify_schemes rsa_pkcs1_sha1 = refl
  offers-supported_verify_schemes ecdsa_sha1_legacy = refl
  offers-supported_verify_schemes (unknown n) = ground arith

  -- A signature in the TLS handshake is accepted only by a scheme that the verifier offers.
  pub verify_tls13_signature-offered :
      (der : List Byte) (scheme : SignatureScheme) (message signature : List Byte)
      → verify_tls13_signature c der scheme message signature ≡ passed tt
      → offers supported_verify_schemes scheme ≡ true
  verify_tls13_signature-offered der scheme message signature h =
      let (_, _, _, _, _, chosen, _) = verify_tls13_signature-ok c der scheme message signature h in
      offers-supported_verify_schemes scheme ∙ ap is_passed chosen
