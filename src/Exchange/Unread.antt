-- ===== src/Exchange/Unread.antt =====
-- The client of src/get.rs against the provider, with a caller that does not read a blob.
use mathlib.Core.Path.{subst}
use sendme.Base.{none, ℕ, ◌≡◌, ◌≤◌, List, [], ◌∷◌, length, arith}
use sendme.Base.Bytes.{Byte}
use sendme.Io.{ok, err, blob_not_read}
use sendme.Stream.{Reader}
use sendme.Sink.{Writer, IsWilling}
use sendme.Util.{Hash, IsHash}
use sendme.Protocol.Codec.{AuthToken, IsToken}
use sendme.Blobs.{Blob, Collection}
use sendme.Env.{Env}
use sendme.Provider.Database.{Database}
use sendme.Provider.Session.{Session}
use sendme.Provider.Session.Serve.{Has}
use sendme.Provider.Transfer.Wire.{collection_wire}
use sendme.Get.{Decoding, Callbacks, run, max_data_size}
use sendme.Get.Opens.{Verifies, Before}
use sendme.Get.Unread.{Unread, IsIdle, receive-Unread}
use sendme.Exchange.{IsLawful, first_request, asking, AskingFits, Carries, run_opens}

module _ {D U : Type 0} (env : Env) (n : ℕ) (law : IsLawful env) (dec : Decoding D)
    (callbacks : Callbacks D U) (idle : IsIdle callbacks) where
  -- A client whose caller hands the stream of the first blob back as it came, while it has content,
  -- does not wait for what was left and does not go on: it fails with the error that the blob was not
  -- read. (The provider has the collection; the decoder verifies its slice and that of the blob, and
  -- can read a byte of it; of the two sides and the stream between them the same is asked as for the
  -- run of the client.)
  pub run-Unread :
      (db : Database) (hash : Hash) (token : AuthToken) (connection_id : ℕ) (c : Collection)
      (encoded : List Byte) (b : Blob) (bs : List Blob) (x y : List Byte)
      (xs slices : List (List Byte)) (w : Writer) (s : Session) (answer : List Byte → Reader)
      (user : U)
      → IsHash hash
      → IsToken token
      → AskingFits env hash token
      → IsWilling 0 w
      → w.sent ≡ []
      → (has : Has env db (first_request hash) c encoded slices) → slices ≡ x ∷ xs
      → Verifies dec hash encoded has.bytes
      → c.blobs ≡ b ∷ bs
      → Verifies dec b.hash x y
      → Unread dec b.hash x
      → length y ≤ c.total_blobs_size
      → c.total_blobs_size ≤ max_data_size
      → length encoded ≤ n
      → IsWilling n s.send.writer
      → Carries env db token connection_id
          (asking env hash token)
          s
          (answer (asking env hash token))
      → (run env dec callbacks (ok w) answer hash token user).0 ≡ err blob_not_read
  run-Unread db hash token connection_id c encoded b bs x y xs slices w s answer user h t
        asking_fits ww w0 has cut v first vx unread fits small whole willing carries =
      let (recv, before, opened) =
        run_opens env n law dec callbacks db hash token connection_id c encoded slices w s answer
          user user (idle.connects user) h t asking_fits ww w0 has small whole willing carries in
      rw opened (
        receive-Unread env dec callbacks idle law.responses_fit law.responses 1 hash c encoded
          has.bytes b bs x y xs (record { recv = recv; user = user }) (omega arith) v has.decodes
          first vx unread fits small
          (subst (λ l. Before (collection_wire env 1 c encoded l) none recv) cut before))
