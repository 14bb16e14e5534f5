-- ===== src/Cli/Output.antt =====
-- `get_interactive` of src/main.rs: the callbacks that it gives to `run`, and where a blob goes. The
-- progress bar, which only shows what is read, is left out.
use sendme.Base.{Bool, true, false, Option, none, some, List, [], ◌∷◌, if◌then◌else◌}
use sendme.Base.Bytes.{Byte}
use sendme.Io.{Io, Outcome, ok, err, panic, recast, with_result, pure, lift, ◌>>=◌, ◌>>◌}
use sendme.Io.{create_directory_error, temporary_file_error, write_output_error}
use sendme.Sink.{write_all}
use sendme.Util.{Hash, Base64, hash_to_string}
use sendme.Protocol.Codec.{AuthToken}
use sendme.Blobs.{Collection, total_entries}
use sendme.Env.{Env}
use sendme.Get.{Decoding, Callbacks}
use sendme.Get.Setup.{Options, Quinn, run_with}
use sendme.Tls.{Crypto}
use sendme.Tls.Keypair.{Keypair, KeyCrates}
use sendme.Tls.Config.{Rcgen, Rustls}
use sendme.Cli.{Files, Message, fetching, connecting, requesting, downloading, entries, done}
use sendme.Cli.{Outputs, println, on_files, on_stdout, on_stderr}

-- `tokio::io::copy` from the reader: the bytes that the writer gets, then the end or the error, and
-- the reader that it leaves.
abbrev pub Copying : Type 0 → Type 0
Copying D = D → List Byte × Outcome (Unit {0}) × D

abbrev pub is_empty : List Byte → Bool
is_empty [] = true
is_empty (_ ∷ _) = false

-- The name that the blob is written under.
unfoldable pub blob_name : Base64 → Hash → List Byte → List Byte
unfolding hash_to_string
blob_name b hash name = if is_empty name then hash_to_string b hash else name

abbrev pub unless_ok : {F A : Type 0} → (F → F) → Outcome A → F → F
unless_ok drop (ok a) f = f
unless_ok drop (err e) f = drop f
unless_ok drop panic f = drop f

-- Dropping the temporary file when an error is returned.
abbrev pub or_remove : {F : Type 0} → Files F → List Byte → Io F (Unit {0}) → Io F (Unit {0})
or_remove files path m s = ((m s).0, unless_ok (files.remove path) (m s).0 (m s).1)

module _ {F : Type 0} (files : Files F) where
  -- temp_file.as_file().try_clone()?
  abbrev pub dup : List Byte → Io F (Unit {0})
  dup temp_file f = (files.try_clone temp_file f, f)

  -- The file that a blob is copied to, when the copy hands it `bytes` and ends with `copied`.
  unfoldable pub store_blob :
      List Byte → List Byte → List Byte → Outcome (Unit {0}) → Io F (Unit {0})
  store_blob outpath name bytes copied = do
    with_result (recast create_directory_error) (files.create_dir_all outpath)
    temp_file ← with_result (recast temporary_file_error) (files.temp_file_in outpath)
    or_remove files temp_file (do
      dup temp_file
      files.copy_into temp_file bytes
      lift copied
      with_result (recast write_output_error) (files.persist temp_file (files.join outpath name)))

module _ {F : Type 0} (b : Base64) (files : Files F) where
  -- With the directory to write to, or STDOUT.
  unfoldable pub write_blob :
      Option (List Byte)
      → Hash
      → List Byte
      → List Byte
      → Outcome (Unit {0})
      → Io (Outputs F) (Unit {0})
  write_blob (some outpath) hash name bytes copied =
      on_files (store_blob files outpath (blob_name b hash name) bytes copied)
  write_blob none hash name bytes copied = do on_stdout (write_all bytes); lift copied

module _ {D F Address : Type 0} (env : Env) (dec : Decoding D) (copying : Copying D) (b : Base64)
    (files : Files F) (render : Message Address → List Byte) where
  unfoldable pub on_connected : Io (Outputs F) (Unit {0})
  on_connected = on_stderr (println (render requesting))

  unfoldable pub on_collection : Collection → Io (Outputs F) (Unit {0})
  unfolding total_entries
  on_collection collection = do
    on_stderr (println (render (downloading collection.name)))
    on_stderr (println (render (entries (total_entries collection) collection.total_blobs_size)))

  unfoldable pub on_blob : Option (List Byte) → Hash → D → List Byte → Io (Outputs F) D
  on_blob out hash reader name =
      let copy = copying reader in do write_blob b files out hash name copy.0 copy.1; pure copy.2

  abbrev pub callbacks : Option (List Byte) → Callbacks D (Outputs F)
  callbacks out = record {
    on_connected = on_connected;
    on_collection = on_collection;
    on_blob = on_blob out;
  }

module _ {K D F Address C : Type 0} (crypto : Crypto) (k : KeyCrates) (rcgen : Rcgen K)
    (rustls : Rustls) (quinn : Quinn Address C) (env : Env) (dec : Decoding D) (copying : Copying D)
    (b : Base64) (files : Files F) (render : Message Address → List Byte) where
  -- `get_interactive`, with the key pairs that `setup` generates
  unfoldable pub get_interactive :
      Keypair
      → Option K
      → Hash
      → Options Address
      → AuthToken
      → Option (List Byte)
      → Io (Outputs F) (Unit {0})
  get_interactive keypair own hash opts token out = do
    on_stderr (println (render (fetching (record { hash = hash }))))
    on_stderr (println (render connecting))
    run_with crypto k rcgen rustls quinn env dec (callbacks env dec copying b files render out)
        keypair own opts hash token
    on_stderr (println (render done))
