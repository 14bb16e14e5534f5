-- ===== src/Integration/OthersPass.antt =====
-- The other integration tests of src/lib.rs pass.
use sendme.Base.{ℕ, ◌≡◌, ◌<◌, refl, List, [], ◌∷◌, length, arith}
use sendme.Base.{
  zero, suc, ◌++◌, ◌∙◌, sym, drop, false, ltb, if◌then◌else◌, Bool-cases, inl, inr, append-nil,
  append_assoc, arith,
}
use sendme.Base.Bytes.{Byte}
use sendme.Io.{ok, panic}
use sendme.Util.{Hash}
use sendme.Protocol.Codec.{RoundTrips}
use sendme.Protocol.Token.{generate_token}
use sendme.Blobs.{Blob}
use sendme.Env.{Env}
use sendme.Tls.{Crypto}
use sendme.Tls.Keypair.{KeyCrates}
use sendme.Tls.Config.{Rcgen, Rustls}
use sendme.Cli.{Files}
use sendme.Provider.Create.{file}
use sendme.Provider.Create.Files.{source_name, source_blobs}
use sendme.Provider.Create.Ranges.{IsCollection, Hashes}
use sendme.Provider.Service.{Provider, Listen, started, spawn, shutdown, with_db, bind_addr}
use sendme.Provider.Service.Streams.{spawn_stream}
use sendme.Get.{Decoding}
use sendme.Get.Opens.{Verifies, AllVerify}
use sendme.Get.Keeps.{Keeps, put_all}
use sendme.Get.Setup.{Quinn, run_with_connected}
use sendme.Get.Unread.{Unread, IsIdle}
use sendme.Exchange.{IsLawful}
use sendme.Exchange.Created.{Abao}
use sendme.Exchange.Unread.{run-Unread}
use sendme.Provider.Session.{Event, client_connected, request_received, transfer_completed}
use sendme.Integration.{Testbed, join, on_disk, test_builder}
use sendme.Integration.Saved.{expects_of, Writes, contents_of, sources_of, saved, save_files_lem}
use sendme.Integration.Conditions.{on_disk-IsLawful, test_collection, test_hash, Fits, Connects}
use sendme.Integration.Joined.{join_waits}
use sendme.Integration.Passes.{offered, client_served, Connects-ends}
use sendme.Integration.Others.{
  ignoring, sinking, any_peer, supervise, reader_partial, test_blob_reader_partial, server_close,
  test_server_close,
}

module _ {D : Type 0} (dec : Decoding D) where
  abbrev sinking-Keeps : Keeps dec (sinking dec)
  sinking-Keeps = record {
    Ready = λ u. Unit;
    Accepts = λ c ys. Unit;
    Fine = λ bs ys u. Unit;
    welcome = λ u. u;
    begin = λ c u. u;
    put = λ h name bytes u. u ++ bytes ∷ [];
    connects = λ u f. (refl, tt);
    begins = λ c ys u f a. (refl, tt);
    takes = λ b bs y ys d u f e. (rw e refl, tt);
  }

-- What was copied are the contents of the files.
copied_contents :
    {F : Type 0} (env : Env) (files : Files F) (dir : List Byte)
    (opts : List (List Byte × List Byte)) (u : List (List Byte))
    → put_all
        (λ (h : Hash) (name : List Byte) (y : List Byte) v. v ++ y ∷ [])
        (source_blobs env (sources_of env files dir opts) (contents_of opts))
        (contents_of opts)
        u
      ≡ u ++ contents_of opts
copied_contents env files dir [] u = sym (append-nil u)
copied_contents env files dir ((name, content) ∷ opts) u =
    copied_contents env files dir opts (u ++ content ∷ [])
    ∙ append_assoc u (content ∷ []) (contents_of opts)

module _ {K Address : Type 0} (t : Testbed K Address) (p : Provider Address) where
  drop-nil : {A : Type 0} (m : ℕ) → drop {A = A} m [] ≡ []
  drop-nil zero = refl
  drop-nil (suc m) = refl

  -- The supervisor of a transfer that completes: the provider ends when its completion is received.
  supervise_lem :
      (m c id : ℕ) (h : Hash)
      → join t (shutdown p) ≡ ok tt
      → join t p ≡ panic
      → supervise t
          (drop m (client_connected c ∷ request_received c id h ∷ transfer_completed c id ∷ []))
          p
        ≡ (if ltb m 3 then ok tt else panic)
  unfolding supervise
  supervise_lem zero c id h ends waits = ends
  supervise_lem (suc zero) c id h ends waits = ends
  supervise_lem (suc (suc zero)) c id h ends waits = ends
  supervise_lem (suc (suc (suc m))) c id h ends waits =
      let late : ltb (suc (suc (suc m))) 3 ≡ false = ground arith in
      rw (drop-nil {A = Event} m, late) waits

-- The first of some slices that are verified.
first_verified :
    {D : Type 0} (dec : Decoding D) (b : Blob) (bs : List Blob) (slices : List (List Byte))
    (y : List Byte) (ys : List (List Byte))
    → AllVerify dec (b ∷ bs) slices (y ∷ ys)
    → (x : List Byte) × (xs : List (List Byte)) × (slices ≡ x ∷ xs) × Verifies dec b.hash x y
first_verified dec b bs [] y ys v = elim v [ ]
first_verified dec b bs (x ∷ xs) y ys v = (x, xs, refl, v.0)

-- Behind the size of a slice that is verified a byte can be read, if the content has one.
abbrev pub ReadsOn : {D : Type 0} → Decoding D → Type 0
ReadsOn dec =
    (h : Hash) (slice y : List Byte) → Verifies dec h slice y → 0 < length y → Unread dec h slice

module _ {K D F Address C : Type 0} (crypto : Crypto) (k : KeyCrates) (rcgen : Rcgen K)
    (rustls : Rustls) (listen : Listen Address) (quinn : Quinn Address C) (env : Env)
    (dec : Decoding D) (files : Files F) (t : Testbed K Address) where
  -- The test `test_server_close`, for all files and networks as in `transfer_data`, passes when the
  -- supervisor has subscribed before the third event, the completion of the transfer, is sent, and
  -- fails when it subscribes later. When it passes, its client has copied the contents of all files, in
  -- order. (A supervisor that hears of the completion shuts the provider down, whose accept loop ends
  -- once it finds its token cancelled; one that does not waits for it until the timeout.)
  pub test_server_close_passes :
      (n : ℕ) (dir : List Byte) (opts : List (List Byte × List Byte)) (start : F)
      → IsLawful env
      → Abao env dec
      → RoundTrips env.collection IsCollection
      → Hashes env
      → Writes files
      → Fits env files dir opts
      → Connects crypto k rcgen rustls listen quinn env dec files t n any_peer dir opts
          (saved files dir opts start)
      → let f = saved files dir opts start in
        (server_close crypto k rcgen rustls listen quinn env dec files t f
            (expects_of env files dir opts)
          ≡ (if ltb t.missed 3 then ok (contents_of opts) else panic))
        × (test_server_close crypto k rcgen rustls listen quinn env dec files t dir opts start
            ≡ (if ltb t.missed 3 then ok tt else panic, f))
  unfolding test_server_close server_close spawn with_db bind_addr shutdown spawn_stream
  test_server_close_passes n dir opts start law abao roundtrips hashes writes fits net =
      let f = saved files dir opts start in
      let seen = on_disk env files f in
      let (db, created, _) =
        offered crypto k rcgen rustls listen quinn env dec files t n law abao roundtrips hashes
          writes dir opts start fits in
      let (got, kept, events) =
        client_served crypto k rcgen rustls listen quinn env dec files t n law abao roundtrips
          hashes writes dir opts start fits any_peer net (sinking dec) (sinking-Keeps dec) [] tt
          tt in
      let p = started (test_builder t db) net.tls net.addr in
      let copied = kept ∙ copied_contents env files dir opts [] in
      let ends =
        Connects-ends crypto k rcgen rustls listen quinn env dec files t net (shutdown p) refl in
      let supervised =
        supervise_lem t p t.missed t.connection_id 1 (test_hash env files dir opts) ends
          (join_waits t p (net.unpolled p refl)) in
      let closed : server_close crypto k rcgen rustls listen quinn env dec files t f
            (expects_of env files dir opts)
          ≡ (if ltb t.missed 3 then ok (contents_of opts) else panic) =
        rw (created, net.configured, net.listens, got, events, supervised, copied)
          (elim (Bool-cases (ltb t.missed 3)) [
            | inl early ↦ rw early refl
            | inr late ↦ rw late refl
          ]) in
      (
        closed,
        rw (save_files_lem env files dir opts start writes, closed)
            (elim (Bool-cases (ltb t.missed 3)) [
              | inl early ↦ rw early refl
              | inr late ↦ rw late refl
            ]),
      )

  -- The test `test_blob_reader_partial` passes for all files of which the first is not empty, and all
  -- networks as in `transfer_data`: the client ends with an error.
  pub test_blob_reader_partial_passes :
      (n : ℕ) (dir name y : List Byte) (opts : List (List Byte × List Byte)) (start : F)
      → IsLawful env
      → Abao env dec
      → ReadsOn dec
      → RoundTrips env.collection IsCollection
      → Hashes env
      → Writes files
      → 0 < length y
      → Fits env files dir ((name, y) ∷ opts)
      → Connects crypto k rcgen rustls listen quinn env dec files t n any_peer dir
          ((name, y) ∷ opts)
          (saved files dir ((name, y) ∷ opts) start)
      → test_blob_reader_partial crypto k rcgen rustls listen quinn env dec files t dir
          ((name, y) ∷ opts)
          start
        ≡ (ok tt, saved files dir ((name, y) ∷ opts) start)
  unfolding test_blob_reader_partial reader_partial spawn with_db bind_addr
  test_blob_reader_partial_passes n dir name y more start law abao reads_on roundtrips hashes writes
        long fits net =
      let opts = (name, y) ∷ more in
      let seen = on_disk env files (saved files dir opts start) in
      let (db, created, o) =
        offered crypto k rcgen rustls listen quinn env dec files t n law abao roundtrips hashes
          writes dir opts start fits in
      let c = test_collection env files dir opts in
      let b : Blob = record {
        name = source_name env (file (files.join dir name));
        hash = (env.outboard y).1;
      } in
      let bs = source_blobs env (sources_of env files dir more) (contents_of more) in
      let (x, xs, cut, v) = first_verified dec b bs o.slices y (contents_of more) o.verified in
      let carries = net.carries db created in
      let p = started (test_builder t db) net.tls net.addr in
      let idle : IsIdle (ignoring {D = D}) = record {
        connects = λ u. refl;
        begins = λ c u. refl;
        hands_back = λ h d name u. refl;
      } in
      let failed =
        run-Unread seen n (on_disk-IsLawful env files (saved files dir opts start) law) dec ignoring
          idle db (test_hash env files dir opts) (generate_token t.random) t.connection_id c
          o.encoded b bs x y xs o.slices net.w t.stream (quinn.answer net.conn) tt o.hashed
          net.token net.asks net.willing net.blank o.has cut o.whole refl v
          (reads_on b.hash x y v long) (omega arith) fits.limit (net.at_once o.encoded o.extracted)
          net.provider_willing carries in
      let running =
        run_with_connected crypto k rcgen rustls quinn seen dec ignoring t.client_keypair
          t.client_certificate (any_peer p) (test_hash env files dir opts) (generate_token t.random)
          tt net.conn net.w (net.dials db) net.opens in
      rw
        (
          save_files_lem env files dir opts start writes,
          created,
          net.configured,
          net.listens,
          running,
          failed,
        )
        refl
