-- ===== src/Tls.antt =====
-- src/tls.rs and src/tls/: the identity of a peer, and the certificates that carry it. The crates for
-- X.509, DER and the signatures are parameters; a certificate is what the code reads of one.
pub mod PeerId
pub mod Keypair
pub mod Certificate
pub mod Verifier
pub mod Accepted
pub mod Schemes
pub mod Generated
pub mod Config
pub mod Configured
use sendme.Base.{
  ℕ, ◌+◌, Bool, true, false, arith, Option, none, some, List, [], ◌∷◌, ◌==◌, ◌≡◌, if◌then◌else◌,
  refl,
}
use sendme.Base.{◌-◌, sym, ap, ◌∙◌, ==_iff}
use sendme.Base.Bytes.{Byte}

-- An ed25519 public key, of 32 bytes, and a signature, of 64.
pub record PublicKey : Type 0 where
  pub bytes : List Byte

pub record Signature : Type 0 where
  pub bytes : List Byte

-- `webpki::Error`, as far as the code makes one.
pub data WebpkiError : Type 0 where
  bad_der extension_value_invalid unknown_issuer unsupported_critical_extension : WebpkiError
  unsupported_signature_algorithm unsupported_signature_algorithm_for_public_key : WebpkiError
  invalid_signature_for_public_key invalid_cert_validity signature_algorithm_mismatch : WebpkiError

-- `Result<A, E>`
pub data Checked (E A : Type 0) : Type 0 where
  passed : A → Checked E A
  failed : E → Checked E A

infixl 5 ◌>>◌ ◌>>=◌
abbrev pub ◌>>=◌ : {E A B : Type 0} → Checked E A → (A → Checked E B) → Checked E B
failed reason >>= next = failed reason
passed value >>= next = next value

abbrev pub ◌>>◌ : {E A B : Type 0} → Checked E A → Checked E B → Checked E B
first >> next = first >>= λ _. next

-- `ok_or(e)` and `map_err(|_| e)`
abbrev pub or_fail : {E A : Type 0} → Option A → E → Checked E A
or_fail none e = failed e
or_fail (some a) e = passed a

abbrev pub map_failure : {E F A : Type 0} → (E → F) → Checked E A → Checked F A
map_failure f (passed a) = passed a
map_failure f (failed e) = failed (f e)

-- `if !b { return Err(e) }`
abbrev pub check : {E : Type 0} → Bool → E → Checked E (Unit {0})
check b e = if b then passed tt else failed e

-- What a successful chain says of its first step.
pub >>=-eq-passed :
    {E A B : Type 0} (m : Checked E A) (f : A → Checked E B) {b : B}
    → (m >>= f) ≡ passed b
    → (a : A) × (m ≡ passed a) × (f a ≡ passed b)
>>=-eq-passed (passed a) f h = (a, refl, h)
>>=-eq-passed (failed e) f h = cc h

pub or_fail-eq-passed :
    {E A : Type 0} (o : Option A) (e : E) {a : A} → or_fail o e ≡ passed a → o ≡ some a
or_fail-eq-passed none e h = absurd (cc h)
or_fail-eq-passed (some b) e h = ground arith

pub check-eq-passed :
    {E : Type 0} (b : Bool) (e : E) {u : Unit {0}} → check b e ≡ passed u → b ≡ true
check-eq-passed true e h = refl
check-eq-passed false e h = absurd (cc h)

-- What a successful chain says of a check at its start.
pub check->>-eq-passed :
    {E A : Type 0} (b : Bool) (e : E) (m : Checked E A) {a : A}
    → (check b e >> m) ≡ passed a
    → (b ≡ true) × (m ≡ passed a)
check->>-eq-passed true e m h = (refl, h)
check->>-eq-passed false e m h = absurd (cc h)

pub map_failure-eq-passed :
    {E F A : Type 0} (f : E → F) (r : Checked E A) {a : A}
    → map_failure f r ≡ passed a
    → r ≡ passed a
map_failure-eq-passed f (passed b) h = ground arith
map_failure-eq-passed f (failed e) h = absurd (cc h)

-- `rustls::SignatureScheme`
pub data SignatureScheme : Type 0 where
  rsa_pkcs1_sha1 ecdsa_sha1_legacy rsa_pkcs1_sha256 rsa_pkcs1_sha384 rsa_pkcs1_sha512 :
      SignatureScheme
  ecdsa_nistp256_sha256 ecdsa_nistp384_sha384 ecdsa_nistp521_sha512 : SignatureScheme
  rsa_pss_sha256 rsa_pss_sha384 rsa_pss_sha512 ed25519 ed448 : SignatureScheme
  unknown : ℕ → SignatureScheme

-- Its derived `==`, by a numbering of the variants.
abbrev variant : SignatureScheme → ℕ
variant rsa_pkcs1_sha1 = 0
variant ecdsa_sha1_legacy = 1
variant rsa_pkcs1_sha256 = 2
variant rsa_pkcs1_sha384 = 3
variant rsa_pkcs1_sha512 = 4
variant ecdsa_nistp256_sha256 = 5
variant ecdsa_nistp384_sha384 = 6
variant ecdsa_nistp521_sha512 = 7
variant rsa_pss_sha256 = 8
variant rsa_pss_sha384 = 9
variant rsa_pss_sha512 = 10
variant ed25519 = 11
variant ed448 = 12
variant (unknown n) = 13 + n

abbrev pub scheme_eq : SignatureScheme → SignatureScheme → Bool
scheme_eq a b = variant a == variant b

-- The variant of a number.
abbrev of_variant : ℕ → SignatureScheme
of_variant n =
    if n == 0
    then rsa_pkcs1_sha1
    else if n == 1
    then ecdsa_sha1_legacy
    else if n == 2
    then rsa_pkcs1_sha256
    else if n == 3
    then rsa_pkcs1_sha384
    else if n == 4
    then rsa_pkcs1_sha512
    else if n == 5
    then ecdsa_nistp256_sha256
    else if n == 6
    then ecdsa_nistp384_sha384
    else if n == 7
    then ecdsa_nistp521_sha512
    else if n == 8
    then rsa_pss_sha256
    else if n == 9
    then rsa_pss_sha384
    else if n == 10
    then rsa_pss_sha512
    else if n == 11
    then ed25519
    else if n == 12
    then ed448
    else unknown (n - 13)

of_variant-variant : (s : SignatureScheme) → of_variant (variant s) ≡ s
of_variant-variant rsa_pkcs1_sha1 = refl
of_variant-variant ecdsa_sha1_legacy = refl
of_variant-variant rsa_pkcs1_sha256 = refl
of_variant-variant rsa_pkcs1_sha384 = refl
of_variant-variant rsa_pkcs1_sha512 = refl
of_variant-variant ecdsa_nistp256_sha256 = refl
of_variant-variant ecdsa_nistp384_sha384 = refl
of_variant-variant ecdsa_nistp521_sha512 = refl
of_variant-variant rsa_pss_sha256 = refl
of_variant-variant rsa_pss_sha384 = refl
of_variant-variant rsa_pss_sha512 = refl
of_variant-variant ed25519 = refl
of_variant-variant ed448 = refl
of_variant-variant (unknown n) =
    let same : 13 + n - 13 ≡ n = omega arith in ground (arith, ap unknown same)

pub scheme_eq_sound : (a b : SignatureScheme) → scheme_eq a b ≡ true → a ≡ b
scheme_eq_sound a b e =
    sym (of_variant-variant a)
    ∙ ap of_variant ((==_iff (variant a) (variant b)).0 e)
    ∙ of_variant-variant b

-- The object identifiers that `oid_registry` names.
pub record Registry : Type 0 where
  pub key_type_ec_public_key : List ℕ
  pub ec_p256 : List ℕ
  pub nist_ec_p384 : List ℕ
  pub nist_ec_p521 : List ℕ
  pub sig_ecdsa_with_sha256 : List ℕ
  pub sig_ecdsa_with_sha384 : List ℕ
  pub sig_ecdsa_with_sha512 : List ℕ
  pub sig_ed25519 : List ℕ
  pub sig_ed448 : List ℕ

-- An `X509Extension`.
pub record Extension : Type 0 where
  pub oid : List ℕ
  pub value : List Byte
  pub critical : Bool

-- What the code reads of an `X509Certificate`.
pub record X509 : Type 0 where
  pub extensions : List Extension
  -- `validity().is_valid()`, at the time of the check
  pub is_valid : Bool
  -- `signature_algorithm.algorithm`
  pub signature_algorithm : List ℕ
  -- `subject_pki.algorithm.algorithm`, and its parameters: `none` when absent, `some none` when no OID
  pub pki_algorithm : List ℕ
  pub pki_parameters : Option (Option (List ℕ))
  -- `tbs_certificate.as_ref()` and `signature_value`
  pub tbs_certificate : List Byte
  pub signature_value : List Byte
  -- `subject_pki.subject_public_key` and `public_key().raw`
  pub subject_public_key : List Byte
  pub subject_pki_raw : List Byte

-- The verification algorithms of ring that the code names.
pub data VerificationAlgorithm : Type 0 where
  ecdsa_p256_sha256_asn1 ecdsa_p384_sha384_asn1 ed25519_verification : VerificationAlgorithm

-- The crates' functions; `none` and `false` are errors.
pub record Crypto : Type 0 where
  pub registry : Registry
  -- `X509Certificate::from_der`
  pub x509_from_der : List Byte → Option X509
  -- the derived `Decode` and `Encode` of `SignedKey`: public key and signature
  pub signed_key_from_der : List Byte → Option (List Byte × List Byte)
  pub signed_key_to_vec : List Byte → List Byte → List Byte
  -- `PublicKey::from_bytes` and `Signature::from_bytes`
  pub public_key_from_bytes : List Byte → Option PublicKey
  pub signature_from_bytes : List Byte → Option Signature
  -- `public_key.verify(message, signature)` of ed25519_dalek
  pub verify_strictly : PublicKey → List Byte → Signature → Bool
  -- `UnparsedPublicKey::new(algorithm, key).verify(message, signature)` of ring
  pub verify_unparsed : VerificationAlgorithm → List Byte → List Byte → List Byte → Bool
