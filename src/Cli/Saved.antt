-- ===== src/Cli/Saved.antt =====
-- `store_blob` of Cli/Output on a file system that works.
use sendme.Base.{◌≡◌, ◌≢◌, ap, ◌∙◌, List, [], ◌∷◌}
use sendme.Base.Bytes.{Byte}
use sendme.Io.{
  Io, Outcome, ok, unwrap, recast, lift, with_result, >>=-ok, create_directory_error,
  temporary_file_error, write_output_error, ◌>>◌,
}
use sendme.Sink.{Writer, write_all, IsWilling}
use sendme.Sink.Emits.{write_all-Emits}
use sendme.Cli.{Files, println}
use sendme.Cli.Output.{dup, or_remove, unless_ok, store_blob}

pub println-IsWilling :
    (content : List Byte) (w : Writer)
    → IsWilling 0 w
    → let p = println content w in (p.0 ≡ ok tt) × IsWilling 0 p.1
unfolding println
println-IsWilling content w willing =
    let e = write_all-Emits 0 content w willing in
    let e' = write_all-Emits 0 (b'\n' ∷ []) (write_all content w).1 e.willing in
    let whole : println content w
        ≡ with_result unwrap (write_all (b'\n' ∷ [])) (write_all content w).1 =
      >>=-ok (with_result unwrap (write_all content)) _ w (ap unwrap e.result) in
    (rw whole (ap unwrap e'.result), rw whole e'.willing)

-- What the documentation says of the calls while the file system is in order, for the paths that a
-- file can be moved to: a temporary file is new, and no call touches the other files.
pub record Works {F : Type 0} (files : Files F) (Fine : F → Type 0) (IsTarget : List Byte → Type 0)
    : Type 0 where
  pub creates :
      (dir : List Byte) (f : F)
      → Fine f
      → let p = files.create_dir_all dir f in
        (p.0 ≡ ok tt) × Fine p.1 × ((q : List Byte) → files.read q p.1 ≡ files.read q f)
  pub opens :
      (dir : List Byte) (f : F)
      → Fine f
      → let p = files.temp_file_in dir f in
        (t : List Byte) × (p.0 ≡ ok t)
        × Fine p.1
        × (files.read t p.1 ≡ ok [])
        × ((q bytes : List Byte)
            → files.read q f ≡ ok bytes
            → (q ≢ t) × (files.read q p.1 ≡ ok bytes))
  pub clones :
      (t : List Byte) (f : F) → Fine f → files.read t f ≡ ok [] → files.try_clone t f ≡ ok tt
  pub fills :
      (t bytes : List Byte) (f : F)
      → Fine f
      → files.read t f ≡ ok []
      → let p = files.copy_into t bytes f in
        (p.0 ≡ ok tt)
        × Fine p.1
        × (files.read t p.1 ≡ ok bytes)
        × ((q : List Byte) → q ≢ t → files.read q p.1 ≡ files.read q f)
  pub persists :
      (t target bytes : List Byte) (f : F)
      → Fine f
      → IsTarget target
      → files.read t f ≡ ok bytes
      → let p = files.persist t target f in
        (p.0 ≡ ok tt)
        × Fine p.1
        × (files.read target p.1 ≡ ok bytes)
        × ((q : List Byte) → q ≢ t → q ≢ target → files.read q p.1 ≡ files.read q f)

module _ {F : Type 0} (files : Files F) {Fine : F → Type 0} {IsTarget : List Byte → Type 0}
    (works : Works files Fine IsTarget) where
  or_remove_ok :
      (t : List Byte) (m : Io F (Unit {0})) (f : F) → (m f).0 ≡ ok tt → or_remove files t m f ≡ m f
  or_remove_ok t m f e =
      ap (λ (r : Outcome (Unit {0})). ((m f).0, unless_ok (files.remove t) r (m f).1)) e

  -- A blob's file has its bytes, and the other files are as before.
  pub store_blob_lem :
      (dir name bytes : List Byte) (f : F)
      → Fine f
      → IsTarget (files.join dir name)
      → let p = store_blob files dir name bytes (ok tt) f in
        (p.0 ≡ ok tt)
        × Fine p.1
        × (files.read (files.join dir name) p.1 ≡ ok bytes)
        × ((q y : List Byte)
            → q ≢ files.join dir name
            → files.read q f ≡ ok y
            → files.read q p.1 ≡ ok y)
  unfolding store_blob
  store_blob_lem dir name bytes f fine target =
      let (made, fine1, same1) = works.creates dir f fine in
      let f1 = (files.create_dir_all dir f).1 in
      let (t, opened, fine2, empty, others2) = works.opens dir f1 fine1 in
      let f2 = (files.temp_file_in dir f1).1 in
      let (filled, fine3, full, others3) = works.fills t bytes f2 fine2 empty in
      let f3 = (files.copy_into t bytes f2).1 in
      let (moved, fine4, there, others4) =
        works.persists t (files.join dir name) bytes f3 fine3 target full in
      let target = files.join dir name in
      let move = with_result (recast write_output_error) (files.persist t target) in
      let copied : Outcome (Unit {0}) = ok tt in
      let body : Io F (Unit {0}) = (do dup files t; files.copy_into t bytes; lift copied; move) in
      let in_body : body f2 ≡ move f3 =
        >>=-ok (dup files t) _ f2 (works.clones t f2 fine2 empty)
        ∙ >>=-ok (files.copy_into t bytes) _ f2 filled in
      let whole : store_blob files dir name bytes (ok tt) f ≡ move f3 =
        >>=-ok (with_result (recast create_directory_error) (files.create_dir_all dir)) _ f
          (ap (recast create_directory_error) made)
        ∙ >>=-ok (with_result (recast temporary_file_error) (files.temp_file_in dir)) _ f1
            (ap (recast temporary_file_error) opened)
        ∙ or_remove_ok t body f2 (ap (λ p. p.0) in_body ∙ ap (recast write_output_error) moved)
        ∙ in_body in
      (
        rw whole (ap (recast write_output_error) moved),
        rw whole fine4,
        rw whole there,
        λ q y differs before.
            let (new, kept) = others2 q y (same1 q ∙ before) in
            rw whole (others4 q new differs ∙ others3 q new ∙ kept),
      )
