-- ===== src/Cli/Provided.antt =====
-- The sources of `provide_interactive` of src/main.rs.
use sendme.Base.{Bool-cases, inl, inr, ◌≡◌, refl, Bool, true, List, [], ◌∷◌, map, if◌then◌else◌}
use sendme.Base.Bytes.{Byte}
use sendme.Io.{ok}
use sendme.Provider.Create.{file}
use sendme.Cli.{Files}
use sendme.Cli.Provide.{collect_files, path_sources}

-- The elements that pass the test.
abbrev pub filter : {A : Type 0} → (A → Bool) → List A → List A
filter test [] = []
filter test (x ∷ xs) = if test x then x ∷ filter test xs else filter test xs

module _ {F : Type 0} (files : Files F) where
  collect_files_lem :
      (paths : List (List Byte)) (f : F)
      → collect_files files (map ok paths) f ≡ ok (map file (filter (λ p. files.is_file p f) paths))
  unfolding collect_files
  collect_files_lem [] f = refl
  collect_files_lem (p ∷ ps) f = elim (Bool-cases (files.is_file p f)) [
    | inl is_one ↦ rw (collect_files_lem ps f, is_one) refl
    | inr is_none ↦ rw (collect_files_lem ps f, is_none) refl
  ]

  -- A directory that can be read provides exactly its entries that are files, in the directory's order.
  pub path_sources_directory :
      (path : List Byte) (paths : List (List Byte)) (f : F)
      → files.is_dir path f ≡ true
      → files.read_dir path f ≡ ok (map ok paths)
      → path_sources files path f ≡ ok (map file (filter (λ p. files.is_file p f) paths))
  unfolding path_sources
  path_sources_directory path paths f dir entries = rw (dir, entries) (collect_files_lem paths f)
