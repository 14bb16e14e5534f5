-- ===== src/Tests/Connection.antt =====
-- A client's connection to a provider that proves who it is.
use sendme.Base.{
  ℕ, Bool, true, false, ◌+◌, ◌≡◌, ◌≢◌, refl, arith, Option, none, some, List, [], ◌∷◌,
}
use sendme.Base.Bytes.{Byte}
use sendme.Base.Tests.{bytes_eq}
use sendme.Io.{ok, err, callback_error}
use sendme.Stream.{Reader, eof}
use sendme.Tls.{Checked, passed, failed}
use sendme.Tls.PeerId.{PeerId}
use sendme.Tls.Certificate.{
  make_libp2p_extension, parse, scan_extensions, read_extension, verify, verify_signature,
  public_key, signature_scheme, P2pCertificate, parse_unverified, peer_id,
}
use sendme.Tls.Verifier.{RustlsError, of_parse_error, verify_presented_certs, verify_server_cert}
use sendme.Tls.Accepted.{IsProven}
use sendme.Get.{Callbacks, run}
use sendme.Get.Setup.{Options, Quinn, setup, run_with, Verified, run_with_authenticated}
use sendme.Tests.Toy.{toy}
use sendme.Tests.Decoder.{Slice, frames}
use sendme.Tests.Setup.{token, photos, writer}
use sendme.Tests.Configs.{crypto, extension_bytes, key_crates, rcgen, rustls, alice, bob}

abbrev pub peer : PeerId
peer = record { key = alice.public }

-- What alice presents.
abbrev pub presented : List Byte
presented =
    extension_bytes (make_libp2p_extension crypto (key_crates.sign alice) alice.public (3 ∷ []))

abbrev pub accept : Checked RustlsError (Unit {0}) → Option ℕ
accept (passed u) = some 7
accept (failed e) = none

accept-some : (r : Checked RustlsError (Unit {0})) {conn : ℕ} → accept r ≡ some conn → r ≡ passed tt
accept-some (passed u) h = refl
accept-some (failed e) h = absurd (cc h)

-- A connection is numbered, and made if the verifier accepts alice.
abbrev pub quinn_with : (List Byte → Reader) → Quinn ℕ ℕ
quinn_with answer = record {
  unspecified = 0;
  client = λ addr. some tt;
  connect = λ addr cfg.
      accept (verify_server_cert crypto cfg.crypto.verifier.remote_peer_id presented []);
  open_bi = λ conn. some writer;
  answer = λ conn. answer;
  end_entity = λ conn. presented;
  intermediates = λ conn. [];
}

abbrev quinn : Quinn ℕ ℕ
quinn = quinn_with (λ sent. eof)

quinn-Verified : Verified crypto key_crates rcgen rustls quinn
quinn-Verified addr cfg conn h = accept-some _ h

-- A caller that counts, and gives up at once.
abbrev counting : Callbacks Slice ℕ
counting = record {
  on_connected = λ u. (err (callback_error 0), u + 1);
  on_collection = λ c u. (ok tt, u);
  on_blob = λ h d name u. (ok d, u);
}

abbrev pub opts : Options ℕ
opts = record { addr = 4433; peer_id = some peer; keylog = false }

pub connected :
    (keylog : Bool) (answer : List Byte → Reader)
    → setup crypto key_crates rcgen rustls
        (quinn_with answer)
        bob
        (some 5)
        (record opts { keylog = keylog })
      ≡ ok 7
unfolding setup verify_server_cert verify_presented_certs of_parse_error parse parse_unverified
    scan_extensions read_extension verify verify_signature public_key signature_scheme bytes_eq
    make_libp2p_extension
connected keylog answer = refl

-- A client that accepts any peer.
pub anyone :
    (answer : List Byte → Reader)
    → setup crypto key_crates rcgen rustls
        (quinn_with answer)
        bob
        (some 5)
        (record opts { peer_id = none; keylog = true })
      ≡ ok 7
unfolding setup verify_server_cert verify_presented_certs of_parse_error parse parse_unverified
    scan_extensions read_extension verify verify_signature public_key signature_scheme bytes_eq
    make_libp2p_extension
anyone answer = refl

counted :
    (run_with crypto key_crates rcgen rustls quinn toy frames counting bob
      (some 5)
      opts
      photos
      token
      0).1
    ≢ 0
unfolding run_with run
counted e =
    let whole : (run_with crypto key_crates rcgen rustls quinn toy frames counting bob (some 5) opts
          photos token 0).1
        ≡ 1 =
      rw (connected false (λ sent. eof)) refl in
    omega (arith, whole, e)

run_with_authenticated_example :
    (conn : ℕ) × (setup crypto key_crates rcgen rustls quinn bob (some 5) opts ≡ ok conn)
    × (quinn.intermediates conn ≡ [])
    × (cert : P2pCertificate) × (parse_unverified crypto (quinn.end_entity conn) ≡ passed cert)
    × IsProven crypto cert
    × (peer_id cert ≡ peer)
run_with_authenticated_example =
    run_with_authenticated crypto key_crates rcgen rustls quinn toy frames counting bob (some 5)
      opts peer photos token 0 quinn-Verified refl counted
