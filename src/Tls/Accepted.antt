-- ===== src/Tls/Accepted.antt =====
-- What is true of a certificate that the verifier accepts.
use sendme.Base.{
  ℕ, suc, ◌+◌, ◌≡◌, refl, ap, sym, ◌∙◌, true, Option, none, some, List, [], ◌∷◌, ◌++◌,
}
use sendme.Base.{arith, All, Bool-cases, inl, inr, bytes_eq_sound, if◌then◌else◌}
use mathlib.Core.Path.{subst}
use sendme.Base.Bytes.{Byte}
use sendme.Tls.{passed, or_fail, map_failure}
use sendme.Tls.{
  >>=-eq-passed, or_fail-eq-passed, check-eq-passed, check->>-eq-passed, scheme_eq, scheme_eq_sound,
  map_failure-eq-passed, SignatureScheme, Extension, X509,
}
use sendme.Tls.{VerificationAlgorithm, Crypto}
use sendme.Tls.PeerId.{PeerId}
use sendme.Tls.Certificate.{P2pExtension, P2pCertificate, peer_id, is_p2p, p2p_signing_prefix}
use sendme.Tls.Certificate.{read_extension, scan_extensions, parse_unverified, signature_scheme}
use sendme.Tls.Certificate.{verification_algorithm, public_key, verify_signature, verify, parse}
use sendme.Tls.Verifier.{
  verify_tls13_signature, of_parse_error, of_verification_error, is_empty, peer_id_eq,
  verify_presented_certs, verify_server_cert,
}

-- The number of libp2p extensions.
abbrev pub p2p_count : List Extension → ℕ
p2p_count [] = 0
p2p_count (e ∷ es) = if is_p2p e then suc (p2p_count es) else p2p_count es

-- An extension that must be understood is the libp2p extension.
abbrev pub IsUnderstood : Extension → Type 0
IsUnderstood e = e.critical ≡ true → is_p2p e ≡ true

abbrev held : Option P2pExtension → ℕ
held none = 0
held (some _) = 1

abbrev Scanned : Option P2pExtension → List Extension → Option P2pExtension → Type 0
Scanned before exts after = (held before + p2p_count exts ≡ held after) × All IsUnderstood exts

module _ (c : Crypto) where
  scan_extensions-Scanned :
      (before : Option P2pExtension) (exts : List Extension) {after : Option P2pExtension}
      → scan_extensions c before exts ≡ passed after
      → Scanned before exts after
  unfolding scan_extensions
  scan_extensions-Scanned before [] h = (ground arith, tt)
  scan_extensions-Scanned (some e) (ext ∷ exts) h = elim (Bool-cases (is_p2p ext)) [
    | inl p2p ↦ absurd (cc (rw p2p at h))
    | inr plain ↦ elim (Bool-cases ext.critical) [
      | inl critical ↦ absurd (cc (rw (plain, critical) at h))
      | inr optional ↦
          let (count, understood) =
            scan_extensions-Scanned (some e) exts (rw (plain, optional) at h) in
          (rw plain count, (λ k. absurd (cc (k, optional)), understood))
    ]
  ]
  scan_extensions-Scanned none (ext ∷ exts) h = elim (Bool-cases (is_p2p ext)) [
    | inl p2p ↦
        let (e, _, rest) = >>=-eq-passed (read_extension c ext.value) _ (rw p2p at h) in
        let (count, understood) = scan_extensions-Scanned (some e) exts rest in
        (rw p2p (omega (arith, count)), (λ _. p2p, understood))
    | inr plain ↦ elim (Bool-cases ext.critical) [
      | inl critical ↦ absurd (cc (rw (plain, critical) at h))
      | inr optional ↦
          let (count, understood) = scan_extensions-Scanned none exts (rw (plain, optional) at h) in
          (rw plain count, (λ k. absurd (cc (k, optional)), understood))
    ]
  ]

  -- A certificate that is parsed has the libp2p extension exactly once, and no other critical extension.
  pub parse_unverified-one :
      (der : List Byte) (cert : P2pCertificate)
      → parse_unverified c der ≡ passed cert
      → (p2p_count cert.certificate.extensions ≡ 1) × All IsUnderstood cert.certificate.extensions
  unfolding parse_unverified
  parse_unverified-one der cert h =
      let (x509, _, scanning) = >>=-eq-passed (or_fail (c.x509_from_der der) _) _ h in
      let (found, scanned, choosing) =
        >>=-eq-passed (scan_extensions c none x509.extensions) _ scanning in
      let (extension, there, made) = >>=-eq-passed (or_fail found _) _ choosing in
      let some_found : found ≡ some extension = or_fail-eq-passed found _ there in
      let same : x509 ≡ cert.certificate = ground arith in
      let s = scan_extensions-Scanned none x509.extensions scanned in
      let (count, understood) = rw same at s in
      (omega (arith, count, ap held some_found), understood)

  -- What the checks of `verify` establish: the certificate is valid now, it is signed with its own key
  -- by an algorithm that is allowed, and the owner of the peer's key has signed the certificate's key.
  pub record IsProven (cert : P2pCertificate) : Type 0 where
    pub valid : cert.certificate.is_valid ≡ true
    pub scheme : SignatureScheme
    pub algorithm : VerificationAlgorithm
    pub chosen : signature_scheme c cert.certificate ≡ passed scheme
    pub allowed : verification_algorithm c scheme ≡ passed algorithm
    pub self_signed :
        c.verify_unparsed algorithm cert.certificate.subject_public_key
          cert.certificate.tbs_certificate cert.certificate.signature_value
        ≡ true
    pub owned :
        c.verify_strictly cert.extension.public_key
          (p2p_signing_prefix ++ cert.certificate.subject_pki_raw)
          cert.extension.signature
        ≡ true

  -- A signature is accepted only under the certificate's own scheme, by the algorithm of that scheme.
  verify_signature-ok :
      (cert : X509) (scheme : SignatureScheme) (message signature : List Byte)
      → verify_signature c cert scheme message signature ≡ passed tt
      → (algorithm : VerificationAlgorithm) × (signature_scheme c cert ≡ passed scheme)
        × (verification_algorithm c scheme ≡ passed algorithm)
        × (c.verify_unparsed algorithm cert.subject_public_key message signature ≡ true)
  unfolding verify_signature public_key
  verify_signature-ok cert scheme message signature h =
      let (pk, got, checked) = >>=-eq-passed (public_key c cert scheme) _ h in
      let (current, own, compared) = >>=-eq-passed (signature_scheme c cert) _ got in
      let (equal, choosing) = check->>-eq-passed (scheme_eq scheme current) _ _ compared in
      let (algorithm, chosen, made) = >>=-eq-passed (verification_algorithm c scheme) _ choosing in
      let pair : (algorithm, cert.subject_public_key) ≡ pk = ground arith in
      let checked' = check-eq-passed (c.verify_unparsed pk.0 pk.1 message signature) _ checked in
      let same : current ≡ scheme = sym (scheme_eq_sound scheme current equal) in
      (algorithm, own ∙ ap passed same, chosen, rw (← pair) at checked')

  verify-IsProven : (cert : P2pCertificate) → verify c cert ≡ passed tt → IsProven cert
  unfolding verify
  verify-IsProven cert h =
      let (valid, rest) = check->>-eq-passed cert.certificate.is_valid _ _ h in
      let (scheme, chosen, rest') = >>=-eq-passed (signature_scheme c cert.certificate) _ rest in
      let (_, signed, owned) = >>=-eq-passed (map_failure _ _) _ rest' in
      let (algorithm, _, allowed, self_signed) =
        verify_signature-ok cert.certificate scheme cert.certificate.tbs_certificate
          cert.certificate.signature_value (map_failure-eq-passed _ _ signed) in
      record {
        valid = valid;
        scheme = scheme;
        algorithm = algorithm;
        chosen = chosen;
        allowed = allowed;
        self_signed = self_signed;
        owned = check-eq-passed _ _ owned;
      }

  -- A client that asks for a peer accepts a server only if the server presents a single certificate
  -- that passes all checks of `verify`, and whose libp2p extension has that peer's key.
  pub verify_server_cert-ok :
      (remote : PeerId) (der : List Byte) (intermediates : List (List Byte))
      → verify_server_cert c (some remote) der intermediates ≡ passed tt
      → (intermediates ≡ [])
        × (cert : P2pCertificate) × (parse_unverified c der ≡ passed cert)
        × IsProven cert
        × (peer_id cert ≡ remote)
  unfolding verify_server_cert verify_presented_certs parse
  verify_server_cert-ok remote der intermediates h =
      let (peer, presented, compared) =
        >>=-eq-passed (verify_presented_certs c der intermediates) _ h in
      let (single, parsing) = check->>-eq-passed (is_empty intermediates) _ _ presented in
      let (cert, mapped, made) = >>=-eq-passed (map_failure _ (parse c der)) _ parsing in
      let (cert', unverified, checking) =
        >>=-eq-passed (parse_unverified c der) _ (map_failure-eq-passed _ _ mapped) in
      let (_, verified, same) = >>=-eq-passed (verify c cert') _ checking in
      let same_cert : cert' ≡ cert = ground arith in
      let same_peer : peer_id cert ≡ peer = ground arith in
      let (equal, _) = check->>-eq-passed (peer_id_eq remote peer) _ _ compared in
      let key : remote.key.bytes ≡ peer.key.bytes =
        bytes_eq_sound remote.key.bytes peer.key.bytes equal in
      (
        no_intermediates intermediates single,
        cert',
        unverified,
        verify-IsProven cert' verified,
        ap peer_id same_cert
            ∙ same_peer
            ∙ ap (λ (k : List Byte). record { key = record { bytes = k } }) (sym key),
      )
    where
      no_intermediates : (l : List (List Byte)) → is_empty l ≡ true → l ≡ []
      no_intermediates [] e = refl
      no_intermediates (_ ∷ _) e = absurd (cc e)

  -- A signature in the TLS handshake is accepted only if the certificate can be read and passes all
  -- checks of `verify`, the scheme is that of the certificate's own key and has an algorithm, and by
  -- that algorithm the signature of the message verifies with the certificate's key.
  pub verify_tls13_signature-ok :
      (der : List Byte) (scheme : SignatureScheme) (message signature : List Byte)
      → verify_tls13_signature c der scheme message signature ≡ passed tt
      → (cert : P2pCertificate) × (algorithm : VerificationAlgorithm) × (parse_unverified c der
          ≡ passed cert)
        × IsProven cert
        × (signature_scheme c cert.certificate ≡ passed scheme)
        × (verification_algorithm c scheme ≡ passed algorithm)
        × (c.verify_unparsed algorithm cert.certificate.subject_public_key message signature ≡ true)
  unfolding verify_tls13_signature parse
  verify_tls13_signature-ok der scheme message signature h =
      let (cert, mapped, rest) = >>=-eq-passed (map_failure of_parse_error (parse c der)) _ h in
      let (_, signed, _) =
        >>=-eq-passed
          (map_failure of_verification_error
            (verify_signature c cert.certificate scheme message signature))
          _ rest in
      let (algorithm, own, chosen, verified) =
        verify_signature-ok cert.certificate scheme message signature
          (map_failure-eq-passed _ _ signed) in
      let (cert', parsed, rest') =
        >>=-eq-passed (parse_unverified c der) _ (map_failure-eq-passed _ _ mapped) in
      let (_, proven, made) = >>=-eq-passed (verify c cert') _ rest' in
      let same : cert' ≡ cert = ground arith in
      (
        cert,
        algorithm,
        parsed ∙ ap passed same,
        subst IsProven same (verify-IsProven cert' proven),
        own,
        chosen,
        verified,
      )
