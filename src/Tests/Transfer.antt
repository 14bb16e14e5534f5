-- ===== src/Tests/Transfer.antt =====
-- The integration test `transfer_data` with two files, in the toy environment.
use sendme.Base.{ℕ, ◌≡◌, ◌≢◌, refl, ap, true, some, List, [], ◌∷◌, length, arith, inl, inr}
use mathlib.Core.Path.{subst}
use sendme.Base.Bytes.{Byte, to_le}
use sendme.Io.{ok, err, file_error}
use sendme.Stream.{Reader}
use sendme.Env.{Env}
use sendme.Util.{Hash}
use sendme.Protocol.Token.{generate_token}
use sendme.Cli.{Files}
use sendme.Provider.Database.{Database}
use sendme.Provider.Create.{DataSource, create_collection}
use sendme.Provider.Create.Files.{In}
use sendme.Provider.Session.{handle_stream}
use sendme.Get.Setup.{Options, setup}
use sendme.Tls.Config.{TlsConfig}
use sendme.Provider.Service.{Provider, started, with_db, bind_addr, provider_peer_id}
use sendme.Exchange.{asking, Carries}
use sendme.Base.{Bool, none}
use sendme.Provider.Service.Loop.{accepting}
use sendme.Integration.{Testbed, transfer_saved, transfer_data, on_disk, test_builder, test_options}
use sendme.Integration.Others.{any_peer, server_close, test_server_close, test_blob_reader_partial}
use sendme.Integration.OthersPass.{test_server_close_passes, test_blob_reader_partial_passes}
use sendme.Integration.Saved.{Writes, expects_of, sources_of, saved}
use sendme.Integration.Conditions.{test_hash, Fits, Connects}
use sendme.Integration.Passes.{transfer_data_passes}
use sendme.Tests.Toy.{toy, toy-IsLawful, toy-Hashes, collections-RoundTrips}
use sendme.Tests.Decoder.{frames, frames-ReadsOn}
use sendme.Tests.Created.{toy-Abao, two-Injective, two, created_db}
use sendme.Tests.Disk.{Disk, disk, is_ok, put_there, put_other}
use sendme.Tests.Configs.{crypto, key_crates, rcgen, rustls, listen, alice, bob, server_made}
use sendme.Tests.Connection.{quinn_with, connected, anyone}
use sendme.Tests.Setup.{session-Carries, arriving, writer, session, token}

-- One directory, in which a file is what can be read.
abbrev pub flat : Files Disk
flat = record disk { is_file = λ path f. is_ok (f.read path); join = λ dir name. name }

pub flat-Writes : Writes flat
flat-Writes = record {
  wrote = λ path bytes f. refl;
  there = λ path bytes f. (put_there path bytes f, ap is_ok (put_there path bytes f));
  others = λ path bytes q f d. (put_other path bytes q f d, ap is_ok (put_other path bytes q f d));
}

abbrev opts : List (List Byte × List Byte)
opts = (97 ∷ [], 1 ∷ 2 ∷ 3 ∷ []) ∷ (98 ∷ [], 4 ∷ 5 ∷ []) ∷ []

abbrev pub empty : Disk
empty = record { read = λ q. err file_error; next = 100 }

abbrev full : Disk
full = saved flat [] opts empty

abbrev seen : Env
seen = on_disk toy flat full

abbrev sources : List DataSource
sources = sources_of toy flat [] opts

abbrev hash : Hash
hash = test_hash toy flat [] opts

abbrev asked : List Byte
asked = asking toy hash token

abbrev db : Database
db = created_db (create_collection seen sources)

abbrev answer : List Byte → Reader
answer bytes = arriving (handle_stream seen db token 3 (session asked)).1.send.writer.sent

abbrev pub testbed : Testbed ℕ ℕ
testbed = record {
  generated = alice;
  random = token.bytes;
  certificate = some 4;
  default_addr = 4433;
  addr = 4433;
  client_keypair = bob;
  client_certificate = some 5;
  connection_id = 3;
  stream = session asked;
  turns = λ p. accepting 3 ∷ record { cancelled = p.cancelled; accepted = none } ∷ [];
  missed = 2;
}

-- The number of which a hash is made.
abbrev pub first : List Byte → ℕ
first [] = 0
first (b ∷ bs) = b

other : (y : List Byte) → In y two → hash ≢ (toy.outboard y).1
unfolding to_le
other y (inl a) e =
    omega (arith, ap (λ (h : Hash). first h.bytes) e, ap (λ (l : List Byte). length l) a)
other y (inr (inl a)) e =
    omega (arith, ap (λ (h : Hash). first h.bytes) e, ap (λ (l : List Byte). length l) a)
other y (inr (inr m)) e = elim m [ ]

pub named : toy.file_name (97 ∷ []) ≡ some (97 ∷ [])
named = refl

fits : Fits toy flat [] opts
unfolding to_le
fits = record {
  apart = ((λ e. omega (arith, ap first e), tt), (tt, tt));
  named = (named, (refl, tt));
  limit = omega arith;
  room = omega arith;
  short = omega arith;
  told = two-Injective;
  other = other;
}

connects :
    (options : Provider ℕ → Options ℕ)
    → ((d : Database) (s : TlsConfig)
        → setup crypto key_crates rcgen rustls
            (quinn_with answer)
            bob
            (some 5)
            (options (started (test_builder testbed d) s 4433))
          ≡ ok 7)
    → Connects crypto key_crates rcgen rustls listen
        (quinn_with answer)
        toy
        frames
        flat
        testbed
        1000
        options
        []
        opts
        full
unfolding to_le generate_token
connects options dials = record {
  tls = server_made.0;
  configured = server_made.1;
  addr = 4433;
  listens = refl;
  conn = 7;
  dials = λ d. dials d server_made.0;
  w = writer;
  opens = refl;
  willing = tt;
  blank = refl;
  provider_willing = tt;
  at_once = λ encoded e. ground arith;
  silent = refl;
  token = refl;
  asks = (omega arith, omega arith, omega arith);
  carries = λ d e.
      subst (λ (x : Database). Carries seen x token 3 asked (session asked) (answer asked))
        (ap created_db e) (session-Carries seen db token 3 asked);
  polled = λ p c. (
    3 ∷ [],
    none,
    [],
    ap (λ (x : Bool). accepting 3 ∷ record { cancelled = x; accepted = none } ∷ []) c,
  );
  unpolled = λ p c. (refl, (c, tt));
}

transfer_data_passes_example :
    (transfer_saved crypto key_crates rcgen rustls listen
        (quinn_with answer)
        toy
        frames
        flat
        testbed
        full
        2
        (expects_of toy flat [] opts)
      ≡ ok 2)
    × (transfer_data crypto key_crates rcgen rustls listen
          (quinn_with answer)
          toy
          frames
          flat
          testbed
          []
          opts
          empty
        ≡ (ok tt, full))
unfolding with_db bind_addr provider_peer_id
transfer_data_passes_example =
    transfer_data_passes crypto key_crates rcgen rustls listen (quinn_with answer) toy frames flat
      testbed 1000 [] opts empty toy-IsLawful toy-Abao collections-RoundTrips toy-Hashes flat-Writes
      fits (connects (test_options testbed) (λ d s. connected true answer))

test_server_close_passes_example :
    (server_close crypto key_crates rcgen rustls listen
        (quinn_with answer)
        toy
        frames
        flat
        testbed
        full
        (expects_of toy flat [] opts)
      ≡ ok two)
    × (test_server_close crypto key_crates rcgen rustls listen
          (quinn_with answer)
          toy
          frames
          flat
          testbed
          []
          opts
          empty
        ≡ (ok tt, full))
test_server_close_passes_example =
    test_server_close_passes crypto key_crates rcgen rustls listen (quinn_with answer) toy frames
      flat testbed 1000 [] opts empty toy-IsLawful toy-Abao collections-RoundTrips toy-Hashes
      flat-Writes fits (connects any_peer (λ d s. anyone answer))

test_blob_reader_partial_passes_example :
    test_blob_reader_partial crypto key_crates rcgen rustls listen
      (quinn_with answer)
      toy
      frames
      flat
      testbed
      []
      opts
      empty
    ≡ (ok tt, full)
test_blob_reader_partial_passes_example =
    test_blob_reader_partial_passes crypto key_crates rcgen rustls listen (quinn_with answer) toy
      frames flat testbed 1000 [] (97 ∷ []) (1 ∷ 2 ∷ 3 ∷ []) ((98 ∷ [], 4 ∷ 5 ∷ []) ∷ []) empty
      toy-IsLawful toy-Abao frames-ReadsOn collections-RoundTrips toy-Hashes flat-Writes
      (omega arith) fits (connects any_peer (λ d s. anyone answer))
