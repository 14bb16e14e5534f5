-- ===== src/Tests/Command.antt =====
-- The command line at concrete inputs.
use sendme.Base.{ℕ, ◌≡◌, refl, some, List, [], ◌∷◌, ◌++◌, arith}
use mathlib.Core.Path.{subst}
use sendme.Base.Bytes.{Byte, to_le}
use sendme.Io.{Outcome, ok, err, panic, file_error}
use sendme.Protocol.Frames.Messages.{frame}
use sendme.Cli.{Message, Outputs}
use sendme.Cli.Output.{Copying, blob_name, get_interactive}
use sendme.Cli.Saving.{AllSaved}
use sendme.Cli.Delivered.{get_interactive_saves}
use sendme.Base.{◌≤◌, ◌+◌, none, false, replicate}
use sendme.Protocol.Token.{token_to_string}
use sendme.Ticket.{Ticket}
use sendme.Tls.Keypair.{IsReadBack, ed25519, to_openssh}
use sendme.Get.{Client, receive, max_data_size}
use sendme.Get.Receive.{Item, collecting}
use sendme.Get.Bounds.{allowed, amount, receive_bounded}
use sendme.Base.Tests.{bytes_eq}
use sendme.Provider.Create.{file}
use sendme.Cli.Provided.{path_sources_directory}
use sendme.Cli.Keys.{get_keypair, save_keypair, KeepsFiles, get_keypair_again}
use sendme.Cli.Dispatch.{get, get_ticket, dispatch, dispatch-ticket}
use sendme.Cli.Provide.{path_sources}
use sendme.Tests.Connection.{quinn_with, opts, connected}
use sendme.Tests.Configs.{crypto, key_crates, rcgen, rustls, alice, bob}
use sendme.Tests.Toy.{toy, toy-IsLawful}
use sendme.Tests.Parts.{plain}
use sendme.Tests.Decoder.{Slice, frames, frames-Verifies, frames-KeepsSize}
use sendme.Tests.Disk.{Disk, disk, disk-Works, put_there}
use sendme.Tests.Setup.{
  session-Carries, at_start, writer, session, token, photo, photos, album, album_bytes, album_wire,
  contents, slices, db, asked, has_db, answer,
}

abbrev copied : Outcome (List Byte) → List Byte × Outcome (Unit {0})
copied (ok bytes) = (bytes, ok tt)
copied (err e) = ([], err e)
copied panic = ([], panic)

abbrev pub copying : Copying Slice
copying d = let p = frames.read_to_end d in ((copied p.0).0, (copied p.0).1, p.1)

abbrev pub render : Message ℕ → List Byte
render m = 42 ∷ []

abbrev pub outputs : Outputs Disk
outputs = record {
  files = record { read = λ q. err file_error; next = 100 };
  stdout = writer;
  stderr = writer;
}

abbrev shared : Ticket ℕ
shared = record { hash = photos; peer = record { key = alice.public }; addr = 4433; token = token }

get_interactive_saves_example :
    let p =
      get_interactive crypto key_crates rcgen rustls
        (quinn_with answer)
        toy
        frames
        copying
        plain
        disk
        render
        bob
        (some 5)
        photos
        opts
        token
        (some (100 ∷ []))
        outputs in
    (p.0 ≡ ok tt) × AllSaved plain disk (100 ∷ []) p.1.files album.blobs contents
unfolding to_le has_db blob_name
get_interactive_saves_example =
    get_interactive_saves crypto key_crates rcgen rustls (quinn_with answer) toy 1000 toy-IsLawful
      frames copying plain disk render disk-Works (λ d bytes e. rw e refl) bob (some 5) opts 7
      (100 ∷ []) db photos token 0 album (frame album_bytes) slices contents writer (session asked)
      outputs (connected false answer) refl (omega arith, λ q long. refl) tt refl refl
      (omega arith, omega arith, omega arith) tt refl has_db
      (frames-Verifies photos album_bytes (omega arith)) (omega arith, tt) (tt, tt)
      (frames-Verifies photo (1 ∷ 2 ∷ 3 ∷ []) (omega arith), tt) (omega arith) (omega arith)
      (omega arith) tt (session-Carries toy db token 0 asked)

disk-KeepsFiles : KeepsFiles disk key_crates
disk-KeepsFiles path bytes f wrote = (rw (put_there path bytes f) refl, put_there path bytes f)

alice-IsReadBack : IsReadBack key_crates alice
alice-IsReadBack = record {
  reads = λ text e.
      let same : 32 ∷ replicate 32 1 ++ 8 ∷ [] ≡ text = ground arith in
      subst
        (λ (t : List Byte). key_crates.from_openssh t ≡ some (ed25519 (replicate 32 1) (8 ∷ [])))
        same refl;
  converts = refl;
}

get_keypair_again_example :
    let g = (get_keypair disk key_crates (some (107 ∷ [])) alice outputs.files).1 in
    get_keypair disk key_crates (some (107 ∷ [])) bob g ≡ (ok alice, g)
unfolding get_keypair save_keypair to_openssh
get_keypair_again_example =
    get_keypair_again disk key_crates (107 ∷ []) alice bob alice outputs.files disk-KeepsFiles
      alice-IsReadBack refl

dispatch-ticket_example :
    dispatch plain 80 (get_ticket none shared false)
    ≡ dispatch plain 80 (
        get
          (record { hash = photos })
          (record { key = alice.public })
          (token_to_string plain token)
          (some 4433)
          none
          false)
dispatch-ticket_example = dispatch-ticket plain 80 shared none false (λ l. refl) refl

path_sources_directory_example : path_sources disk (9 ∷ []) outputs.files ≡ ok (file (1 ∷ []) ∷ [])
unfolding bytes_eq
path_sources_directory_example =
    path_sources_directory disk (9 ∷ []) ((1 ∷ []) ∷ (2 ∷ []) ∷ []) outputs.files refl refl

receive_bounded_example :
    let s : Client (List Item) = record { recv = at_start album_wire; user = [] } in
    let p = receive toy frames (collecting frames) photos s in
    (allowed p.0 ≤ max_data_size) × (amount p.1.user ≤ 0 + allowed p.0)
receive_bounded_example =
    receive_bounded toy frames frames-KeepsSize photos
      (record { recv = at_start album_wire; user = [] })
