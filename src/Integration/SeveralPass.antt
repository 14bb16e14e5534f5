-- ===== src/Integration/SeveralPass.antt =====
-- The clients of the test `multiple_clients` of src/lib.rs all get the file.
use sendme.Base.{ℕ, ◌≡◌, refl, sym, ap, ◌∙◌, true, List, [], ◌∷◌, map, bytes_eq_refl, bytes_eq}
use mathlib.Core.Path.{subst}
use sendme.Base.{◌++◌}
use sendme.Base.Bytes.{Byte}
use sendme.Io.{Outcome, ok, err, panic}
use sendme.Util.{Hash, hash_eq}
use sendme.Protocol.Codec.{RoundTrips}
use sendme.Blobs.{Blob}
use sendme.Env.{Env}
use sendme.Tls.{Crypto}
use sendme.Tls.Keypair.{KeyCrates}
use sendme.Tls.Config.{Rcgen, Rustls}
use sendme.Cli.{Files}
use sendme.Provider.Database.{hash_eq_refl}
use sendme.Provider.Create.{file}
use sendme.Provider.Create.Files.{source_name}
use sendme.Provider.Create.Ranges.{IsCollection, Hashes}
use sendme.Provider.Service.{Provider, Listen, started, spawn, with_db, bind_addr}
use sendme.Get.{Decoding}
use sendme.Get.Keeps.{Keeps}
use sendme.Get.Receive.{Item}
use sendme.Exchange.{IsLawful}
use sendme.Exchange.Created.{Abao}
use sendme.Integration.{Testbed, on_disk, test_builder, test_options}
use sendme.Integration.Saved.{Writes, saved}
use sendme.Integration.Conditions.{test_hash, Fits, Connects}
use sendme.Integration.Passes.{offered, client_served}
use sendme.Integration.Others.{client_calls, run_client}
use sendme.Integration.Several.{Visit, visited, launched, client_results, multiple_clients}

module _ {D : Type 0} (dec : Decoding D) (file_hash : Hash) (name content : List Byte) where
  -- Every blob is the one that the client expects.
  abbrev Same : List Blob → List (List Byte) → Type 0
  Same [] [] = Unit
  Same (b ∷ bs) (y ∷ ys) = (file_hash ≡ b.hash) × (name ≡ b.name) × (content ≡ y) × Same bs ys
  Same [] (_ ∷ _) = ⊥
  Same (_ ∷ _) [] = ⊥

  client_takes :
      (b : Blob) (y : List Byte) (d : D) (u : List Item)
      → file_hash ≡ b.hash
      → name ≡ b.name
      → content ≡ y
      → (dec.read_to_end d).0 ≡ ok y
      → (client_calls dec file_hash name content).on_blob b.hash d b.name u
        ≡ (ok (dec.read_to_end d).1, u ++ record { hash = b.hash; name = b.name; bytes = y } ∷ [])
  client_takes b y d u h n c e =
      let same : hash_eq file_hash b.hash ≡ true = rw h (hash_eq_refl b.hash) in
      let named : bytes_eq name b.name ≡ true = rw n (bytes_eq_refl b.name) in
      let equal : bytes_eq content y ≡ true = rw c (bytes_eq_refl y) in
      rw (same, e, equal, named) refl

  abbrev client-Keeps : Keeps dec (client_calls dec file_hash name content)
  client-Keeps = record {
    Ready = λ u. Unit;
    Accepts = λ c ys. Same c.blobs ys;
    Fine = λ bs ys u. Same bs ys;
    welcome = λ u. u;
    begin = λ c u. u;
    put = λ h name bytes u. u ++ record { hash = h; name = name; bytes = bytes } ∷ [];
    connects = λ u f. (refl, tt);
    begins = λ c ys u f a. (refl, a);
    takes = λ b bs y ys d u f e. (client_takes b y d u f.0 f.1 f.2 e, f.3);
  }

-- The value of a result.
abbrev value_or : {A : Type 0} → A → Outcome A → A
value_or a (ok x) = x
value_or a (err e) = a
value_or a panic = a

-- The file as what a client gets.
abbrev pub the_file : Env → List Byte → List Byte → Item
the_file env name content = record { hash = (env.outboard content).1; name = name; bytes = content }

abbrev pub one_file : List Byte → List Byte → List (List Byte × List Byte)
one_file name content = (name, content) ∷ []

module _ {K D F Address C : Type 0} (crypto : Crypto) (k : KeyCrates) (rcgen : Rcgen K)
    (rustls : Rustls) (listen : Listen Address) (env : Env) (dec : Decoding D) (files : Files F)
    (t : Testbed K Address) (n : ℕ) (dir name content : List Byte) (start : F) where
  -- Each client can connect, as in the tests with one client.
  abbrev pub AllConnect : List (Visit Address C) → Type 0
  AllConnect [] = Unit
  AllConnect (v ∷ visits) =
      Connects crypto k rcgen rustls listen v.quinn env dec files (visited t v) n
        (test_options (visited t v)) dir (one_file name content)
        (saved files dir (one_file name content) start)
      × AllConnect visits

  module _ (law : IsLawful env) (abao : Abao env dec)
      (roundtrips : RoundTrips env.collection IsCollection) (hashes : Hashes env)
      (writes : Writes files) (fits : Fits env files dir (one_file name content)) where
    -- Each client gets the one file that is provided.
    run_client_passes :
        (v : Visit Address C) (hash : Hash) (p : Provider Address)
        → Connects crypto k rcgen rustls listen v.quinn env dec files
            (visited t v)
            n
            (test_options (visited t v))
            dir
            (one_file name content)
            (saved files dir (one_file name content) start)
        → launched crypto k rcgen rustls listen env files t
            (saved files dir (one_file name content) start)
            (files.join dir name)
          ≡ ok (hash, p)
        → run_client crypto k rcgen rustls listen v.quinn env dec files t
            (on_disk env files (saved files dir (one_file name content) start))
            hash
            (env.outboard content).1
            name
            content
            p
          ≡ ok (the_file env name content ∷ [])
    unfolding run_client launched spawn with_db bind_addr
    run_client_passes v hash p net at =
        let f = saved files dir (one_file name content) start in
        let seen = on_disk env files f in
        let file_hash = (env.outboard content).1 in
        let (db, created, o) =
          offered crypto k rcgen rustls listen v.quinn env dec files (visited t v) n law abao
            roundtrips hashes writes dir (one_file name content) start fits in
        let expected_name : name ≡ source_name env (file (files.join dir name)) =
          rw fits.named.0 refl in
        let (got, kept, _) =
          client_served crypto k rcgen rustls listen v.quinn env dec files (visited t v) n law abao
            roundtrips hashes writes dir (one_file name content) start fits
            (test_options (visited t v)) net (client_calls dec file_hash name content)
            (client-Keeps dec file_hash name content) [] tt (refl, expected_name, refl, tt) in
        let passed : List Item = the_file env name content ∷ [] in
        let same =
          kept
          ∙ ap (λ (x : List Byte). record { hash = file_hash; name = x; bytes = content } ∷ [])
              (sym expected_name) in
        let q = started (test_builder t db) net.tls net.addr in
        let launch : launched crypto k rcgen rustls listen env files t f (files.join dir name)
            ≡ ok (test_hash env files dir (one_file name content), q) =
          rw (created, net.configured, net.listens) refl in
        subst
          (λ (x : Hash × Provider Address).
            run_client crypto k rcgen rustls listen v.quinn env dec files t seen x.0 file_hash name
              content x.1
            ≡ ok passed)
          (ap (value_or (hash, p)) (sym launch ∙ at)) (rw (got, same) refl)

    all_clients_pass :
        (visits : List (Visit Address C)) (hash : Hash) (p : Provider Address)
        → AllConnect visits
        → launched crypto k rcgen rustls listen env files t
            (saved files dir (one_file name content) start)
            (files.join dir name)
          ≡ ok (hash, p)
        → map
            (λ v.
              run_client crypto k rcgen rustls listen v.quinn env dec files t
                (on_disk env files (saved files dir (one_file name content) start))
                hash
                (env.outboard content).1
                name
                content
                p)
            visits
          ≡ map (λ v. ok (the_file env name content ∷ [])) visits
    all_clients_pass [] hash p nets at = refl
    all_clients_pass (v ∷ visits) hash p (net, nets) at =
        rw (run_client_passes v hash p net at, all_clients_pass visits hash p nets at) refl

  -- In the integration test `multiple_clients`, with any number of clients, one at least, and any file
  -- that `Fits` describes, every client succeeds when each has a network that `Connects` describes,
  -- and has been given exactly one blob, whose hash, name and content its assertions have found to be
  -- those of the file. The test passes. (The codecs, abao and the file system do as documented.)
  pub multiple_clients_passes :
      (v : Visit Address C) (visits : List (Visit Address C))
      → IsLawful env
      → Abao env dec
      → RoundTrips env.collection IsCollection
      → Hashes env
      → Writes files
      → Fits env files dir (one_file name content)
      → AllConnect (v ∷ visits)
      → let f = saved files dir (one_file name content) start in
        (client_results crypto k rcgen rustls listen env dec files t f
            (files.join dir name)
            name
            content
            (v ∷ visits)
          ≡ ok (map (λ w. ok (the_file env name content ∷ [])) (v ∷ visits)))
        × (multiple_clients crypto k rcgen rustls listen env dec files t dir name content
              (v ∷ visits)
              start
            ≡ (ok tt, f))
  unfolding multiple_clients client_results launched spawn with_db bind_addr
  multiple_clients_passes v visits law abao roundtrips hashes writes fits nets =
      let f = saved files dir (one_file name content) start in
      let path = files.join dir name in
      let net = nets.0 in
      let (db, created, o) =
        offered crypto k rcgen rustls listen v.quinn env dec files (visited t v) n law abao
          roundtrips hashes writes dir (one_file name content) start fits in
      let hash = test_hash env files dir (one_file name content) in
      let p = started (test_builder t db) net.tls net.addr in
      let launch : launched crypto k rcgen rustls listen env files t f path ≡ ok (hash, p) =
        rw (created, net.configured, net.listens) refl in
      let all =
        all_clients_pass law abao roundtrips hashes writes fits (v ∷ visits) hash p nets launch in
      let read = (writes.there path content start).0 in
      let results : client_results crypto k rcgen rustls listen env dec files t f path name content
            (v ∷ visits)
          ≡ ok (map (λ w. ok (the_file env name content ∷ [])) (v ∷ visits)) =
        rw (read, launch) (ap ok all) in
      (results, rw (writes.wrote path content start, results) refl)
