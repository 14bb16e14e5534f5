-- ===== src/Cli/Delivered.antt =====
-- `get_interactive` of src/main.rs with a directory, against a provider.
use sendme.Base.{Option, ℕ, ◌≡◌, ◌≤◌, sym, ap, ◌∙◌, some, List, [], All, length, map}
use mathlib.Core.Path.{subst}
use sendme.Base.Bytes.{total_length, Byte}
use sendme.Io.{ok, >>=-ok}
use sendme.Sink.{Writer, IsWilling}
use sendme.Util.{Hash, IsHash, Base64}
use sendme.Protocol.Codec.{AuthToken, IsToken}
use sendme.Blobs.{Collection}
use sendme.Env.{Env}
use sendme.Provider.Database.{Database}
use sendme.Provider.Session.{Session}
use sendme.Provider.Session.Serve.{Has}
use sendme.Exchange.{IsLawful, first_request, asking, AskingFits, Carries, run_keeps}
use sendme.Io.{Outcome}
use sendme.Get.Setup.{Options, Quinn, setup, run_with, run_with_connected}
use sendme.Tls.{Crypto}
use sendme.Tls.Keypair.{Keypair, KeyCrates}
use sendme.Tls.Config.{Rcgen, Rustls}
use sendme.Get.{Decoding, max_data_size, run}
use sendme.Get.Opens.{Verifies, AllVerify}
use sendme.Cli.{Files, Message, fetching, connecting, done, Outputs, println, on_stderr}
use sendme.Cli.Output.{Copying, callbacks, get_interactive}
use sendme.Cli.Saved.{Works}
use sendme.Cli.Saving.{
  Copies, Distinct, path_of, AllSaved, printed, printed_lem, saving-Keeps, put_all_saves,
}

module _ {K D F Address C : Type 0} (crypto : Crypto) (k : KeyCrates) (rcgen : Rcgen K)
    (rustls : Rustls) (quinn : Quinn Address C) (env : Env) (n : ℕ) (law : IsLawful env)
    (dec : Decoding D) (copying : Copying D) (b : Base64) (files : Files F)
    (render : Message Address → List Byte) {Fine : F → Type 0} {IsTarget : List Byte → Type 0}
    (works : Works files Fine IsTarget) (copies : Copies dec copying) where
  -- `sendme get` with a directory, the right token and a provider that has the collection succeeds and
  -- leaves in the directory, for every blob of the collection, a file with the blob's whole content
  -- under the blob's name, or its hash's text where the name is empty, however the bytes are cut on
  -- the way. (`setup` connects and a stream can be opened; no two of these paths are the same, and
  -- files can be moved to each; the file system works and STDERR takes what is written; a copy hands
  -- on what a read to the end gives; of the two sides and the stream between them the same is asked as
  -- for the run of the client.)
  pub get_interactive_saves :
      (keypair : Keypair) (own : Option K) (opts : Options Address) (conn : C) (dir : List Byte)
      (db : Database) (hash : Hash) (token : AuthToken) (connection_id : ℕ) (c : Collection)
      (encoded : List Byte) (slices contents : List (List Byte)) (w : Writer) (s : Session)
      (outputs : Outputs F)
      → setup crypto k rcgen rustls quinn keypair own opts ≡ ok conn
      → quinn.open_bi conn ≡ some w
      → Fine outputs.files
      → IsWilling 0 outputs.stderr
      → IsHash hash
      → IsToken token
      → AskingFits env hash token
      → IsWilling 0 w
      → w.sent ≡ []
      → (has : Has env db (first_request hash) c encoded slices)
      → Verifies dec hash encoded has.bytes
      → All (λ blob. IsTarget (path_of b files dir blob)) c.blobs
      → Distinct (map (path_of b files dir) c.blobs)
      → AllVerify dec c.blobs slices contents
      → total_length contents ≤ c.total_blobs_size
      → c.total_blobs_size ≤ max_data_size
      → length encoded ≤ n
      → IsWilling n s.send.writer
      → Carries env db token connection_id
          (asking env hash token)
          s
          (quinn.answer conn (asking env hash token))
      → let p =
          get_interactive crypto k rcgen rustls quinn env dec copying b files render keypair own
            hash opts token
            (some dir)
            outputs in
        (p.0 ≡ ok tt) × AllSaved b files dir p.1.files c.blobs contents
  unfolding get_interactive
  get_interactive_saves keypair own opts conn dir db hash token connection_id c encoded slices
        contents w s outputs made opened fine err_willing h t asking_fits ww w0 has v targets
        distinct vs fits small whole willing carries =
      let say = printed_lem env dec copying b files render works copies dir in
      let show = printed env dec copying b files render works copies dir in
      let keeps = saving-Keeps env dec copying b files render works copies dir in
      let m : Message Address = fetching (record { hash = hash }) in
      let u : Outputs F = show connecting (show m outputs) in
      let (told, ready1) = say m outputs (fine, err_willing) in
      let (told', ready2) = say connecting (show m outputs) ready1 in
      let (got, kept, ready3) =
        run_keeps env n law dec (callbacks env dec copying b files render (some dir)) keeps db hash
          token connection_id c encoded slices contents w s (quinn.answer conn) u ready2 h t
          asking_fits ww w0 has v targets vs fits small whole willing carries in
      let begun = keeps.begin c (keeps.welcome u) in
      let start_ready =
        (keeps.begins c contents (keeps.welcome u) (keeps.connects u ready2).1 targets).1.0 in
      let saved =
        put_all_saves env dec copying b files render works copies dir c.blobs slices contents begun
          start_ready targets distinct vs in
      let calls = callbacks env dec copying b files render (some dir) in
      let result = run env dec calls (ok w) (quinn.answer conn) hash token u in
      let running =
        run_with_connected crypto k rcgen rustls quinn env dec calls keypair own opts hash token u
          conn w made opened in
      let client = run_with crypto k rcgen rustls quinn env dec calls keypair own opts hash token in
      let (told'', ready4) = say done result.1 ready3.0 in
      let whole : get_interactive crypto k rcgen rustls quinn env dec copying b files render keypair
            own hash opts token (some dir) outputs
          ≡ (ok tt, show done result.1) =
        >>=-ok (on_stderr (println (render m))) _ outputs (ap (λ p. p.0) told)
        ∙ >>=-ok (on_stderr (println (render connecting))) _ (show m outputs) (ap (λ p. p.0) told')
        ∙ >>=-ok client _ u (ap (λ p. p.0) running ∙ got)
        ∙ ap (λ (p : Outcome ℕ × Outputs F). on_stderr (println (render done)) p.1) running
        ∙ told'' in
      (
        ap (λ p. p.0) whole,
        rw whole (
            subst (λ (o : Outputs F). AllSaved b files dir o.files c.blobs contents) (sym kept)
              saved),
      )
