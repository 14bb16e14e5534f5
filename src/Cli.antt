-- ===== src/Cli.antt =====
-- The command line of src/main.rs: its parameters, what it prints and where it writes. `F` is a state of
-- the file system, whose operations are parameters, as is the text that a message is formatted to.
pub mod Output
pub mod Keys
pub mod Saved
pub mod Saving
pub mod Delivered
pub mod Dispatch
pub mod Ticketed
pub mod Provide
pub mod Provided
use sendme.Base.{ℕ, Bool, Option, List, [], ◌∷◌}
use sendme.Base.Bytes.{Byte}
use sendme.Io.{Io, Outcome, unwrap, with_result, ◌>>=◌, ◌>>◌}
use sendme.Sink.{Writer, write_all}
use sendme.Protocol.Codec.{AuthToken}
use sendme.Tls.PeerId.{PeerId}
use sendme.Ticket.{Ticket}
use sendme.Cid.{Blake3Cid}

-- What the program asks of the file system, by paths.
pub record Files (F : Type 0) : Type 0 where
  pub exists : List Byte → F → Bool
  pub is_dir : List Byte → F → Bool
  pub is_file : List Byte → F → Bool
  -- `Path::join`
  pub join : List Byte → List Byte → List Byte
  pub read : List Byte → F → Outcome (List Byte)
  pub write : List Byte → List Byte → Io F (Unit {0})
  -- `read_dir`, as what `next_entry` gives until it gives `None`
  pub read_dir : List Byte → F → Outcome (List (Outcome (List Byte)))
  pub create_dir_all : List Byte → Io F (Unit {0})
  -- `NamedTempFile::new`, and with a directory `tempfile_in`; the path of the new file
  pub temp_file : Io F (List Byte)
  pub temp_file_in : List Byte → Io F (List Byte)
  -- `try_clone` of the open temporary file at a path
  pub try_clone : List Byte → F → Outcome (Unit {0})
  -- the writes of a copy to the open temporary file at a path
  pub copy_into : List Byte → List Byte → Io F (Unit {0})
  -- `NamedTempFile::persist`, from and to a path
  pub persist : List Byte → List Byte → Io F (Unit {0})
  -- the removal of a temporary file that is dropped
  pub remove : List Byte → F → F

-- The lines that go to STDERR.
pub data Message (Address : Type 0) : Type 0 where
  fetching : Blake3Cid → Message Address
  connecting requesting done : Message Address
  downloading : (name : List Byte) → Message Address
  entries : (total_entries size : ℕ) → Message Address
  reading : (path : List Byte) → Message Address
  peer : PeerId → Message Address
  auth_token : AuthToken → Message Address
  ticket : Ticket Address → Message Address

pub record Outputs (F : Type 0) : Type 0 where
  pub files : F
  pub stdout : Writer
  pub stderr : Writer

-- `OutWriter::println`, to STDERR
unfoldable pub println : List Byte → Io Writer (Unit {0})
println content = do
  with_result unwrap (write_all content)
  with_result unwrap (write_all (b'\n' ∷ []))

module _ {F : Type 0} where
  abbrev pub on_files : {A : Type 0} → Io F A → Io (Outputs F) A
  on_files m s = let p = m s.files in (p.0, record s { files = p.1 })

  abbrev pub on_stdout : {A : Type 0} → Io Writer A → Io (Outputs F) A
  on_stdout m s = let p = m s.stdout in (p.0, record s { stdout = p.1 })

  abbrev pub on_stderr : {A : Type 0} → Io Writer A → Io (Outputs F) A
  on_stderr m s = let p = m s.stderr in (p.0, record s { stderr = p.1 })
