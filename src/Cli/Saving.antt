-- ===== src/Cli/Saving.antt =====
-- The callbacks of `get_interactive` of src/main.rs with a directory to write to, as a caller of Get/Keeps.
use sendme.Base.{◌≡◌, ◌≢◌, ap, ◌∙◌, some, List, [], ◌∷◌, All, length, map}
use sendme.Base.Bytes.{Byte}
use sendme.Io.{Outcome, ok, >>=-ok}
use sendme.Sink.{IsWilling}
use sendme.Util.{Hash, Base64}
use sendme.Blobs.{Blob, Collection}
use sendme.Env.{Env}
use sendme.Get.{Decoding}
use sendme.Get.Opens.{AllVerify}
use sendme.Get.Keeps.{Keeps, put_all}
use sendme.Cli.{Files, Message, requesting, downloading, entries, Outputs, println, on_stderr}
use sendme.Cli.Output.{
  Copying, blob_name, store_blob, write_blob, on_connected, on_collection, on_blob, callbacks,
}
use sendme.Cli.Saved.{println-IsWilling, Works, store_blob_lem}

-- A copy hands on what a read to the end gives.
abbrev pub Copies : {D : Type 0} → Decoding D → Copying D → Type 0
Copies {D} dec copying =
    (d : D) (bytes : List Byte)
    → (dec.read_to_end d).0 ≡ ok bytes
    → copying d ≡ (bytes, ok tt, (dec.read_to_end d).1)

-- No path twice.
abbrev pub Distinct : List (List Byte) → Type 0
Distinct [] = Unit
Distinct (p ∷ ps) = All (λ q. p ≢ q) ps × Distinct ps

module _ {F : Type 0} (b : Base64) (files : Files F) (dir : List Byte) where
  -- Where a blob is saved.
  abbrev pub path_of : Blob → List Byte
  path_of blob = files.join dir (blob_name b blob.hash blob.name)

  -- The files hold the contents, one for each blob.
  abbrev pub AllSaved : F → List Blob → List (List Byte) → Type 0
  AllSaved f [] [] = Unit
  AllSaved f (blob ∷ blobs) (y ∷ ys) = (files.read (path_of blob) f ≡ ok y) × AllSaved f blobs ys
  AllSaved f [] (_ ∷ _) = ⊥
  AllSaved f (_ ∷ _) [] = ⊥

module _ {D F Address : Type 0} (env : Env) (dec : Decoding D) (copying : Copying D) (b : Base64)
    (files : Files F) (render : Message Address → List Byte) {Fine : F → Type 0}
    {IsTarget : List Byte → Type 0} (works : Works files Fine IsTarget)
    (copies : Copies dec copying) (dir : List Byte) where
  -- The file system works, and STDERR takes what is written.
  abbrev pub Ready : Outputs F → Type 0
  Ready u = Fine u.files × IsWilling 0 u.stderr

  abbrev pub printed : Message Address → Outputs F → Outputs F
  printed m u = record u { stderr = (println (render m) u.stderr).1 }

  pub printed_lem :
      (m : Message Address) (u : Outputs F)
      → Ready u
      → (on_stderr (println (render m)) u ≡ (ok tt, printed m u)) × Ready (printed m u)
  printed_lem m u ready =
      let (wrote, willing) = println-IsWilling (render m) u.stderr ready.1 in
      (ap (λ (r : Outcome (Unit {0})). (r, printed m u)) wrote, (ready.0, willing))

  pub on_connected_lem :
      (u : Outputs F)
      → Ready u
      → (on_connected env dec copying b files render u ≡ (ok tt, printed requesting u))
        × Ready (printed requesting u)
  unfolding on_connected
  on_connected_lem u ready = printed_lem requesting u ready

  abbrev pub put : Hash → List Byte → List Byte → Outputs F → Outputs F
  put h name bytes u = record u {
    files = (store_blob files dir (blob_name b h name) bytes (ok tt) u.files).1;
  }

  pub on_collection_lem :
      (c : Collection) (u : Outputs F)
      → Ready u
      → let t =
          printed (entries (length c.blobs) c.total_blobs_size) (printed (downloading c.name) u) in
        (on_collection env dec copying b files render c u ≡ (ok tt, t)) × Ready t
  unfolding on_collection
  on_collection_lem c u ready =
      let (first, ready') = printed_lem (downloading c.name) u ready in
      let (second, ready'') =
        printed_lem (entries (length c.blobs) c.total_blobs_size) (printed (downloading c.name) u)
          ready' in
      (
        >>=-ok (on_stderr (println (render (downloading c.name)))) _ u (ap (λ p. p.0) first)
            ∙ second,
        ready'',
      )

  pub on_blob_lem :
      (h : Hash) (d : D) (name bytes : List Byte) (u : Outputs F)
      → Ready u
      → IsTarget (files.join dir (blob_name b h name))
      → (dec.read_to_end d).0 ≡ ok bytes
      → (on_blob env dec copying b files render (some dir) h d name u
          ≡ (ok (dec.read_to_end d).1, put h name bytes u))
        × Ready (put h name bytes u)
  unfolding on_blob write_blob
  on_blob_lem h d name bytes u ready target e =
      let (stored, fine, there, others) =
        store_blob_lem files works dir (blob_name b h name) bytes u.files ready.0 target in
      (
        rw (copies d bytes e)
            (>>=-ok (write_blob b files (some dir) h name bytes (ok tt)) _ u stored),
        (fine, ready.1),
      )

  abbrev pub saving-Keeps : Keeps dec (callbacks env dec copying b files render (some dir))
  saving-Keeps = record {
    Ready = Ready;
    Accepts = λ c ys. All (λ blob. IsTarget (path_of b files dir blob)) c.blobs;
    Fine = λ bs ys u. Ready u × All (λ blob. IsTarget (path_of b files dir blob)) bs;
    welcome = printed requesting;
    begin = λ c u.
        printed (entries (length c.blobs) c.total_blobs_size) (printed (downloading c.name) u);
    put = put;
    connects = on_connected_lem;
    begins = λ c ys u ready targets.
        let (begun, ready') = on_collection_lem c u ready in (begun, (ready', targets));
    takes = λ blob bs y ys d u fine e.
        let (kept, ready') = on_blob_lem blob.hash d blob.name y u fine.0 fine.1.0 e in
        (kept, (ready', fine.1.1));
  }

  -- What a blob's file holds stays while blobs are saved under other paths.
  put_all_others :
      (bs : List Blob) (ys : List (List Byte)) (u : Outputs F) (q y : List Byte)
      → Ready u
      → All (λ blob. IsTarget (path_of b files dir blob)) bs
      → All (λ p. q ≢ p) (map (path_of b files dir) bs)
      → files.read q u.files ≡ ok y
      → files.read q (put_all put bs ys u).files ≡ ok y
  put_all_others [] ys u q y ready t d h = h
  put_all_others (blob ∷ bs) [] u q y ready t d h = h
  put_all_others (blob ∷ bs) (x ∷ ys) u q y ready (t, ts) (d, ds) h =
      let (stored, fine, there, others) =
        store_blob_lem files works dir (blob_name b blob.hash blob.name) x u.files ready.0 t in
      put_all_others bs ys (put blob.hash blob.name x u) q y (fine, ready.1) ts ds (others q y d h)

  pub put_all_saves :
      (bs : List Blob) (xs ys : List (List Byte)) (u : Outputs F)
      → Ready u
      → All (λ blob. IsTarget (path_of b files dir blob)) bs
      → Distinct (map (path_of b files dir) bs)
      → AllVerify dec bs xs ys
      → AllSaved b files dir (put_all put bs ys u).files bs ys
  put_all_saves [] [] [] u ready t d v = tt
  put_all_saves [] (x ∷ xs) ys u ready t d v = elim v [ ]
  put_all_saves [] [] (y ∷ ys) u ready t d v = elim v [ ]
  put_all_saves (blob ∷ bs) [] ys u ready t d v = elim v [ ]
  put_all_saves (blob ∷ bs) (x ∷ xs) [] u ready t d v = elim v [ ]
  put_all_saves (blob ∷ bs) (x ∷ xs) (y ∷ ys) u ready (t, ts) (d, ds) v =
      let (stored, fine, there, others) =
        store_blob_lem files works dir (blob_name b blob.hash blob.name) y u.files ready.0 t in
      let u' = put blob.hash blob.name y u in
      (
        put_all_others bs ys u' (path_of b files dir blob) y (fine, ready.1) ts d there,
        put_all_saves bs xs ys u' (fine, ready.1) ts ds v.1,
      )
