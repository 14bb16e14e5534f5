-- ===== src/Integration/Saved.antt =====
-- The files that `transfer_data` of src/lib.rs has saved.
use sendme.Base.{◌≡◌, ◌≢◌, refl, ◌∙◌, true, List, [], ◌∷◌, All, map}
use sendme.Base.Bytes.{Byte}
use sendme.Io.{ok}
use sendme.Env.{Env}
use sendme.Cli.{Files}
use sendme.Cli.Saving.{Distinct}
use sendme.Provider.Create.{DataSource, file}
use sendme.Provider.Create.Succeeds.{AreFiles}
use sendme.Integration.{Expected, on_disk, save_files}

-- What is written is there as a file, and other files stay as they are.
pub record Writes {F : Type 0} (files : Files F) : Type 0 where
  pub wrote : (path bytes : List Byte) (f : F) → (files.write path bytes f).0 ≡ ok tt
  pub there :
      (path bytes : List Byte) (f : F)
      → let g = (files.write path bytes f).1 in
        (files.read path g ≡ ok bytes) × (files.is_file path g ≡ true)
  pub others :
      (path bytes q : List Byte) (f : F)
      → q ≢ path
      → let g = (files.write path bytes f).1 in
        (files.read q g ≡ files.read q f) × (files.is_file q g ≡ files.is_file q f)

-- The contents, in order.
abbrev pub contents_of : List (List Byte × List Byte) → List (List Byte)
contents_of [] = []
contents_of ((name, content) ∷ opts) = content ∷ contents_of opts

module _ {F : Type 0} (files : Files F) (dir : List Byte) where
  abbrev pub paths_of : List (List Byte × List Byte) → List (List Byte)
  paths_of [] = []
  paths_of ((name, content) ∷ opts) = files.join dir name ∷ paths_of opts

  abbrev pub saved : List (List Byte × List Byte) → F → F
  saved [] f = f
  saved ((name, content) ∷ opts) f = saved opts (files.write (files.join dir name) content f).1

  -- The files hold the contents.
  abbrev pub Hold : F → List (List Byte × List Byte) → Type 0
  Hold f [] = Unit
  Hold f ((name, content) ∷ opts) =
      (files.read (files.join dir name) f ≡ ok content)
      × (files.is_file (files.join dir name) f ≡ true)
      × Hold f opts

  module _ (writes : Writes files) where
    saved_others :
        (opts : List (List Byte × List Byte)) (q : List Byte) (f : F)
        → All (λ p. q ≢ p) (paths_of opts)
        → (files.read q (saved opts f) ≡ files.read q f)
          × (files.is_file q (saved opts f) ≡ files.is_file q f)
    saved_others [] q f other = (refl, refl)
    saved_others ((name, content) ∷ opts) q f (other, rest) =
        let g = (files.write (files.join dir name) content f).1 in
        let (read, kind) = saved_others opts q g rest in
        let (read', kind') = writes.others (files.join dir name) content q f other in
        (read ∙ read', kind ∙ kind')

    pub saved-Hold :
        (opts : List (List Byte × List Byte)) (f : F)
        → Distinct (paths_of opts)
        → Hold (saved opts f) opts
    saved-Hold [] f d = tt
    saved-Hold ((name, content) ∷ opts) f (d, ds) =
        let path = files.join dir name in
        let g = (files.write path content f).1 in
        let (read, kind) = saved_others opts path g d in
        let (read', kind') = writes.there path content f in
        (read ∙ read', kind ∙ kind', saved-Hold opts g ds)

module _ {F : Type 0} (env : Env) (files : Files F) (dir : List Byte) where
  abbrev pub expects_of : List (List Byte × List Byte) → List Expected
  expects_of [] = []
  expects_of ((name, content) ∷ opts) =
      record { name = name; path = files.join dir name; hash = (env.outboard content).1 }
      ∷ expects_of opts

  -- The sources of the collection.
  abbrev pub sources_of : List (List Byte × List Byte) → List DataSource
  sources_of opts = map (λ x. file x.path) (expects_of opts)

  pub save_files_lem :
      (opts : List (List Byte × List Byte)) (f : F)
      → Writes files
      → save_files env files dir opts f ≡ (ok (expects_of opts), saved files dir opts f)
  unfolding save_files
  save_files_lem [] f writes = refl
  save_files_lem ((name, content) ∷ opts) f writes =
      rw
        (
          writes.wrote (files.join dir name) content f,
          save_files_lem opts (files.write (files.join dir name) content f).1 writes,
        )
        refl

  -- As sources, they are files with these contents.
  pub Hold-AreFiles :
      (opts : List (List Byte × List Byte)) (f : F)
      → Hold files dir f opts
      → AreFiles (on_disk env files f) (sources_of opts) (contents_of opts)
  Hold-AreFiles [] f h = tt
  Hold-AreFiles ((name, content) ∷ opts) f (read, kind, h) =
      (kind, rw read refl, rw read refl, Hold-AreFiles opts f h)
