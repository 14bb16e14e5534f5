-- ===== src/Integration/Checked.antt =====
-- The callbacks of `transfer_data` of src/lib.rs, as a caller of Get/Keeps: no assertion fails when what
-- comes is what was saved.
use sendme.Base.{
  ℕ, suc, ◌+◌, ◌≡◌, refl, sym, ap, true, some, List, [], ◌∷◌, length, drop, get_elem?-drop, ==_iff,
  bytes_eq_refl, bytes_eq,
}
use mathlib.Core.Path.{subst}
use sendme.Base.{arith}
use sendme.Base.Bytes.{Byte}
use sendme.Io.{ok}
use sendme.Util.{Hash, hash_eq}
use sendme.Env.{Env}
use sendme.Blobs.{Blob}
use sendme.Cli.{Files}
use sendme.Provider.Database.{hash_eq_refl}
use sendme.Provider.Create.Files.{source_blobs}
use sendme.Get.{Decoding}
use sendme.Get.Keeps.{Keeps, put_all}
use sendme.Integration.{Expected, check_next, check_blob, checking}
use sendme.Integration.Saved.{contents_of, sources_of, expects_of, Hold}

module _ {F : Type 0} (files : Files F) (f : F) where
  -- Each blob that comes, with its content, is the one that is expected.
  abbrev pub Due : List Blob → List (List Byte) → List Expected → Type 0
  Due [] [] [] = Unit
  Due (b ∷ bs) (y ∷ ys) (x ∷ xs) =
      (x.hash ≡ b.hash) × (x.name ≡ b.name) × (files.read x.path f ≡ ok y) × Due bs ys xs
  Due [] [] (_ ∷ _) = ⊥
  Due [] (_ ∷ _) _ = ⊥
  Due (_ ∷ _) [] _ = ⊥
  Due (_ ∷ _) (_ ∷ _) [] = ⊥

module _ {D F : Type 0} (dec : Decoding D) (files : Files F) (f : F) where
  check_blob_same :
      (x : Expected) (b : Blob) (y : List Byte) (d : D) (i : ℕ) (expects : List Expected)
      → x.hash ≡ b.hash
      → x.name ≡ b.name
      → files.read x.path f ≡ ok y
      → (dec.read_to_end d).0 ≡ ok y
      → check_blob dec files f expects (some x) b.hash d b.name i
        ≡ (ok (dec.read_to_end d).1, i + 1)
  unfolding check_blob
  check_blob_same x b y d i expects h n r e =
      let same : hash_eq x.hash b.hash ≡ true = rw h (hash_eq_refl b.hash) in
      let named : bytes_eq x.name b.name ≡ true = rw n (bytes_eq_refl b.name) in
      rw (same, r, e, bytes_eq_refl y, named) refl

  pub check_next-Due :
      (expects : List Expected) (b : Blob) (bs : List Blob) (y : List Byte) (ys : List (List Byte))
      (d : D) (i : ℕ) (xs : List Expected)
      → drop i expects ≡ xs
      → Due files f (b ∷ bs) (y ∷ ys) xs
      → (dec.read_to_end d).0 ≡ ok y
      → (check_next dec files f expects b.hash d b.name i ≡ (ok (dec.read_to_end d).1, i + 1))
        × Due files f bs ys (drop (i + 1) expects)
  unfolding check_next
  check_next-Due expects b bs y ys d i [] at due e = elim due [ ]
  check_next-Due expects b bs y ys d i (x ∷ xs) at (h, n, r, due) e =
      let (found, next) = get_elem?-drop i expects xs at in
      (rw found (check_blob_same x b y d i expects h n r e), rw next due)

  abbrev pub checking-Keeps :
      (expects : List Expected) (num_blobs : ℕ) → Keeps dec (checking dec files f expects num_blobs)
  checking-Keeps expects num_blobs = record {
    Ready = λ i. i ≡ 0;
    Accepts = λ c ys. (length c.blobs ≡ num_blobs) × Due files f c.blobs ys expects;
    Fine = λ bs ys i. Due files f bs ys (drop i expects);
    welcome = λ i. i;
    begin = λ c i. i;
    put = λ h name bytes i. i + 1;
    connects = λ i ready. (refl, ready);
    begins = λ c ys i ready accepts. (
      rw ((==_iff (length c.blobs) num_blobs).1 accepts.0) refl,
      subst (λ j. Due files f c.blobs ys (drop j expects)) (sym ready) accepts.1,
    );
    takes = λ b bs y ys d i due e. check_next-Due expects b bs y ys d i (drop i expects) refl due e;
  }

module _ {F : Type 0} (env : Env) (files : Files F) (dir : List Byte) where
  -- The files have their names.
  abbrev pub Named : List (List Byte × List Byte) → Type 0
  Named [] = Unit
  Named ((name, content) ∷ opts) = (env.file_name (files.join dir name) ≡ some name) × Named opts

  pub length-source_blobs :
      (opts : List (List Byte × List Byte))
      → length (source_blobs env (sources_of env files dir opts) (contents_of opts)) ≡ length opts
  length-source_blobs [] = refl
  length-source_blobs ((name, content) ∷ opts) = ap suc (length-source_blobs opts)

  -- The counter after the blobs of the files.
  pub count_blobs :
      (opts : List (List Byte × List Byte)) (i : ℕ)
      → put_all
          (λ (h : Hash) name y (j : ℕ). j + 1)
          (source_blobs env (sources_of env files dir opts) (contents_of opts))
          (contents_of opts)
          i
        ≡ i + length opts
  count_blobs [] i = omega arith
  count_blobs ((name, content) ∷ opts) i = omega (arith, count_blobs opts (i + 1))

  pub Hold-Due :
      (f : F) (opts : List (List Byte × List Byte))
      → Hold files dir f opts
      → Named opts
      → Due files f
          (source_blobs env (sources_of env files dir opts) (contents_of opts))
          (contents_of opts)
          (expects_of env files dir opts)
  Hold-Due f [] h n = tt
  Hold-Due f ((name, content) ∷ opts) (read, kind, h) (named, n) =
      (refl, rw named refl, read, Hold-Due f opts h n)
