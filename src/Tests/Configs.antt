-- ===== src/Tests/Configs.antt =====
-- The configurations, a provider and a client's connection with certificates that list their parts.
use sendme.Base.{
  ℕ, ◌≡◌, ◌↔◌, refl, Bool, true, false, Option, none, some, List, [], ◌∷◌, ◌++◌, length, take, drop,
  take-append, drop-append, replicate, ◌==◌,
}
use sendme.Base.Bytes.{Byte}
use sendme.Base.Tests.{bytes_eq, bytes_eq_refl}
use sendme.Io.{ok}
use sendme.Tls.{passed, Extension, X509, Crypto}
use sendme.Tls.Keypair.{Keypair, KeyCrates, KeypairData, ed25519}
use sendme.Tls.Verifier.{verify_server_cert, verify_client_cert}
use sendme.Tls.Generated.{IsLawful}
use sendme.Tls.Config.{Rcgen, Rustls, TlsConfig, tls13, make_client_config, make_server_config}
use sendme.Tls.Configured.{Certifies, Builds, AsksFor, configs_meet}
use sendme.Provider.Service.{Builder, Provider, Listen, spawn, ticket}
use sendme.Provider.Service.Spawned.{spawn-ticket}
use sendme.Tests.Identity.{
  registry, signed_key_parts, signed_key_bytes, signed_key_parts-signed_key_bytes,
}
use sendme.Tests.Setup.{token, photos, db}

abbrev certificate_of : Extension → X509
certificate_of e = record {
  extensions = e ∷ [];
  is_valid = true;
  signature_algorithm = registry.sig_ecdsa_with_sha256;
  pki_algorithm = registry.key_type_ec_public_key;
  pki_parameters = some (some registry.ec_p256);
  tbs_certificate = 1 ∷ [];
  signature_value = 1 ∷ [];
  subject_public_key = 2 ∷ [];
  subject_pki_raw = 3 ∷ [];
}

abbrev pub flag : Bool → Byte
flag true = 1
flag false = 0

abbrev pub extension_bytes : Extension → List Byte
extension_bytes e = length e.oid ∷ e.oid ++ flag e.critical ∷ e.value

abbrev with_oid : List ℕ → List Byte → Option X509
with_oid oid [] = none
with_oid oid (b ∷ value) =
    some (certificate_of (record { oid = oid; value = value; critical = b == 1 }))

abbrev x509_from_der : List Byte → Option X509
x509_from_der [] = none
x509_from_der (n ∷ l) = with_oid (take n l) (drop n l)

abbrev pub crypto : Crypto
crypto = record {
  registry = registry;
  x509_from_der = x509_from_der;
  signed_key_from_der = signed_key_parts;
  signed_key_to_vec = signed_key_bytes;
  public_key_from_bytes = λ l. some (record { bytes = l });
  signature_from_bytes = λ l. some (record { bytes = l });
  verify_strictly = λ key message s. bytes_eq s.bytes (key.bytes ++ message);
  verify_unparsed = λ algorithm key message s. bytes_eq s message;
}

abbrev pub key_data : List Byte → Option KeypairData
key_data [] = none
key_data (n ∷ l) = some (ed25519 (take n l) (drop n l))

abbrev pub key_crates : KeyCrates
key_crates = record {
  openssh = λ public secret. some (length public ∷ public ++ secret);
  from_openssh = key_data;
  try_into = λ public secret. some (record { secret = secret; public = record { bytes = public } });
  sign = λ keypair message. record { bytes = keypair.public.bytes ++ message };
}

abbrev first_extension : List Extension → Option (List Byte)
first_extension [] = none
first_extension (e ∷ _) = some (extension_bytes e)

abbrev pub rcgen : Rcgen ℕ
rcgen = record {
  serialize_der = λ own. own ∷ [];
  public_key_der = λ own. 3 ∷ [];
  certificate = λ params. first_extension params.custom_extensions;
}

abbrev pub rustls : Rustls
rustls = record {
  with_protocol_versions = λ suites versions. true;
  with_single_cert = λ certs key. true;
}

flag_read : (b : Bool) → (flag b == 1) ≡ b
flag_read true = refl
flag_read false = refl

parsed_extension : (e : Extension) → x509_from_der (extension_bytes e) ≡ some (certificate_of e)
parsed_extension e =
    rw
      (
        take-append (length e.oid) e.oid (flag e.critical ∷ e.value) refl,
        drop-append (length e.oid) e.oid (flag e.critical ∷ e.value) refl,
        flag_read e.critical,
      )
      refl

pub rcgen-Certifies : Certifies crypto rcgen
unfolding bytes_eq
rcgen-Certifies e own = (
  extension_bytes e,
  certificate_of e,
  record {
    made = refl;
    parses = parsed_extension e;
    extensions = refl;
    own_key = refl;
    valid = refl;
    pki_algorithm = refl;
    pki_parameters = refl;
    signature_algorithm = refl;
    self_signed = refl;
  },
)

pub rustls-Builds : Builds rustls
rustls-Builds = record { versions = refl; certificates = λ certificate key. refl }

pub crypto-IsLawful : (keypair : Keypair) → IsLawful crypto (key_crates.sign keypair) keypair.public
crypto-IsLawful keypair = record {
  signed_keys = signed_key_parts-signed_key_bytes;
  keys = refl;
  signatures = λ s. refl;
  signs = λ message. bytes_eq_refl (keypair.public.bytes ++ message);
}

abbrev pub alice : Keypair
alice = record { secret = 8 ∷ []; public = record { bytes = replicate 32 1 } }

abbrev pub bob : Keypair
bob = record { secret = 9 ∷ []; public = record { bytes = replicate 32 2 } }

configs_meet_example :
    (s : TlsConfig) × (t : TlsConfig) × (der : List Byte) × (der' : List Byte) × (make_server_config
        crypto key_crates rcgen rustls
        (some 4)
        alice
        true
      ≡ ok s)
    × (make_client_config crypto key_crates rcgen rustls
          (some 5)
          bob
          (some (record { key = alice.public }))
          false
        ≡ ok t)
    × (s.cert_chain ≡ der ∷ [])
    × (t.cert_chain ≡ der' ∷ [])
    × ((verify_server_cert crypto t.verifier.remote_peer_id der [] ≡ passed tt)
        ↔ AsksFor (some (record { key = alice.public })) alice.public)
    × (verify_client_cert crypto der' [] ≡ passed tt)
    × (t.cipher_suites ≡ s.cipher_suites)
    × (t.alpn_protocols ≡ s.alpn_protocols)
    × (t.versions ≡ tls13 ∷ [])
    × (s.versions ≡ tls13 ∷ [])
configs_meet_example =
    configs_meet crypto key_crates rcgen rustls rcgen-Certifies rustls-Builds 4 5 alice bob
      (some (record { key = alice.public })) true false (crypto-IsLawful alice)
      (crypto-IsLawful bob)

abbrev pub listen : Listen ℕ
listen config addr = some addr

abbrev builder : Builder ℕ
builder = record { bind_addr = 4433; keypair = alice; auth_token = token; db = db; keylog = false }

spawn-ticket_example :
    (p : Provider ℕ) × (t : TlsConfig) × (der : List Byte) × (spawn crypto key_crates rcgen rustls
        listen
        (some 4)
        builder
      ≡ ok p)
    × (ticket p photos ≡ record {
      hash = photos;
      peer = record { key = alice.public };
      addr = 4433;
      token = p.task.auth_token;
    })
    × (p.task.db ≡ db)
    × (make_client_config crypto key_crates rcgen rustls
          (some 5)
          bob
          (some (ticket p photos).peer)
          false
        ≡ ok t)
    × (p.task.config.crypto.cert_chain ≡ der ∷ [])
    × (verify_server_cert crypto t.verifier.remote_peer_id der [] ≡ passed tt)
spawn-ticket_example =
    spawn-ticket crypto key_crates rcgen rustls rcgen-Certifies rustls-Builds listen 4 5 builder bob
      4433 photos false (crypto-IsLawful alice) (crypto-IsLawful bob) (λ config. refl)

pub server_made :
    (s : TlsConfig) × (make_server_config crypto key_crates rcgen rustls (some 4) alice false
      ≡ ok s)
server_made =
    let (s, _, _, _, made, _, _, _, _, _, _, _, _, _) =
      configs_meet crypto key_crates rcgen rustls rcgen-Certifies rustls-Builds 4 5 alice bob none
        false false (crypto-IsLawful alice) (crypto-IsLawful bob) in
    (s, made)
