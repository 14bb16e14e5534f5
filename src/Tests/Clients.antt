-- ===== src/Tests/Clients.antt =====
-- The integration test `multiple_clients` with two clients, in the toy environment.
use sendme.Base.{ℕ, ◌≡◌, ◌≢◌, refl, ap, ◌∙◌, sym, true, List, [], ◌∷◌, length, arith, map, inl, inr}
use mathlib.Core.Path.{subst}
use sendme.Base.{Bool, none}
use sendme.Provider.Service.Loop.{accepting}
use sendme.Base.Bytes.{Byte, to_le}
use sendme.Io.{ok}
use sendme.Stream.{Reader}
use sendme.Env.{Env}
use sendme.Util.{Hash}
use sendme.Protocol.Token.{generate_token}
use sendme.Provider.Database.{Database}
use sendme.Provider.Create.{DataSource, create_collection}
use sendme.Provider.Create.Files.{In}
use sendme.Provider.Session.{handle_stream}
use sendme.Provider.Service.{with_db, bind_addr, provider_peer_id}
use sendme.Exchange.{asking, Carries}
use sendme.Exchange.Created.{Injective}
use sendme.Integration.{on_disk, test_options}
use sendme.Integration.Saved.{sources_of, saved}
use sendme.Integration.Conditions.{test_hash, Fits, Connects}
use sendme.Integration.Several.{Visit, visited, client_results, multiple_clients}
use sendme.Integration.SeveralPass.{one_file, the_file, multiple_clients_passes}
use sendme.Tests.Toy.{toy, toy-IsLawful, toy-Hashes, collections-RoundTrips}
use sendme.Tests.Decoder.{frames}
use sendme.Tests.Created.{toy-Abao, created_db}
use sendme.Tests.Disk.{Disk}
use sendme.Tests.Configs.{crypto, key_crates, rcgen, rustls, listen, server_made}
use sendme.Tests.Connection.{quinn_with, connected}
use sendme.Tests.Setup.{session-Carries, arriving, writer, session, token}
use sendme.Tests.Transfer.{flat, flat-Writes, empty, testbed, first, named}

abbrev content : List Byte
content = 1 ∷ 2 ∷ 3 ∷ []

abbrev opts : List (List Byte × List Byte)
opts = one_file (97 ∷ []) content

abbrev full : Disk
full = saved flat [] opts empty

abbrev seen : Env
seen = on_disk toy flat full

abbrev sources : List DataSource
sources = sources_of toy flat [] opts

abbrev hash : Hash
hash = test_hash toy flat [] opts

abbrev asked : List Byte
asked = asking toy hash token

abbrev db : Database
db = created_db (create_collection seen sources)

abbrev answer : ℕ → List Byte → Reader
answer id bytes = arriving (handle_stream seen db token id (session asked)).1.send.writer.sent

abbrev visit : ℕ → Visit ℕ ℕ
visit id = record { connection_id = id; stream = session asked; quinn = quinn_with (answer id) }

one-Injective : Injective toy (content ∷ [])
one-Injective y z (inl a) (inl b) e = a ∙ sym b
one-Injective y z (inl a) (inr m) e = elim m [ ]
one-Injective y z (inr m) k e = elim m [ ]

other : (y : List Byte) → In y (content ∷ []) → hash ≢ (toy.outboard y).1
unfolding to_le
other y (inl a) e =
    omega (arith, ap (λ (h : Hash). first h.bytes) e, ap (λ (l : List Byte). length l) a)
other y (inr m) e = elim m [ ]

fits : Fits toy flat [] opts
unfolding to_le
fits = record {
  apart = (tt, tt);
  named = (named, tt);
  limit = omega arith;
  room = omega arith;
  short = omega arith;
  told = one-Injective;
  other = other;
}

connects :
    (id : ℕ)
    → Connects crypto key_crates rcgen rustls listen
        (quinn_with (answer id))
        toy
        frames
        flat
        (visited testbed (visit id))
        1000
        (test_options (visited testbed (visit id)))
        []
        opts
        full
unfolding to_le generate_token with_db bind_addr provider_peer_id
connects id = record {
  tls = server_made.0;
  configured = server_made.1;
  addr = 4433;
  listens = refl;
  conn = 7;
  dials = λ d. connected true (answer id);
  w = writer;
  opens = refl;
  willing = tt;
  blank = refl;
  provider_willing = tt;
  at_once = λ encoded e. ground arith;
  silent = refl;
  token = refl;
  asks = (omega arith, omega arith, omega arith);
  carries = λ d e.
      subst (λ (x : Database). Carries seen x token id asked (session asked) (answer id asked))
        (ap created_db e) (session-Carries seen db token id asked);
  polled = λ p c. (
    3 ∷ [],
    none,
    [],
    ap (λ (x : Bool). accepting 3 ∷ record { cancelled = x; accepted = none } ∷ []) c,
  );
  unpolled = λ p c. (refl, (c, tt));
}

multiple_clients_passes_example :
    (client_results crypto key_crates rcgen rustls listen toy frames flat testbed full
        (97 ∷ [])
        (97 ∷ [])
        content
        (visit 3 ∷ visit 4 ∷ [])
      ≡ ok (map (λ w. ok (the_file toy (97 ∷ []) content ∷ [])) (visit 3 ∷ visit 4 ∷ [])))
    × (multiple_clients crypto key_crates rcgen rustls listen toy frames flat testbed []
          (97 ∷ [])
          content
          (visit 3 ∷ visit 4 ∷ [])
          empty
        ≡ (ok tt, full))
multiple_clients_passes_example =
    multiple_clients_passes crypto key_crates rcgen rustls listen toy frames flat testbed 1000 []
      (97 ∷ []) content empty (visit 3) (visit 4 ∷ []) toy-IsLawful toy-Abao collections-RoundTrips
      toy-Hashes flat-Writes fits (connects 3, (connects 4, tt))
